-- ===== src/Base/OrdMap.antt =====
-- Rust's maps and sets as association lists in key order: `BTreeMap` iterates so, and a `HashMap`
-- may iterate in any order, so in this one. The laws hold of unsorted lists too.
pub mod Sorted
use nervusdb.Base.Tests.{if◌then◌else◌}
use mathlib.Core.Path.{◌≡◌, refl}
use mathlib.Core.Logic.{◌↔◌}
use mathlib.Core.Bool.{Bool, true, false, not, ◌&&◌, ◌||◌}
use mathlib.Core.Option.{Option, none, some}
use mathlib.Core.List.{List, [], ◌∷◌}
use native.Mathlib.Omega.{arith}

-- A key type with Rust's `Eq` and `Ord`.
pub record Key (K : Type 0) : Type 0 where
  pub eq : K → K → Bool
  pub lt : K → K → Bool
  pub eq_iff : (a b : K) → (eq a b ≡ true) ↔ (a ≡ b)
  pub lt_trans : (a b c : K) → lt a b ≡ true → lt b c ≡ true → lt a c ≡ true
  pub lt_total : (a b : K) → eq a b ≡ false → lt a b ≡ false → lt b a ≡ true
  pub lt_apart : (a b : K) → lt a b ≡ true → eq a b ≡ false

abbrev pub Map : Type 0 → Type 0 → Type 0
Map K V = List (K × V)

abbrev pub Set : Type 0 → Type 0
Set K = List K

module _ {K : Type 0} ⦃k : Key K⦄ where
  pub eq_refl : (a : K) → k.eq a a ≡ true
  eq_refl a = (k.eq_iff a a).1 refl

  module _ {V : Type 0} where
    unfoldable pub get : K → Map K V → Option V
    get key [] = none
    get key ((j, v) ∷ m) = if k.eq j key then some v else get key m

    -- `entry(key).or_default()`
    unfoldable pub get_or : V → K → Map K V → V
    get_or d key m = elim (get key m) [ none ↦ d | some v ↦ v ]

    unfoldable pub insert : K → V → Map K V → Map K V
    insert key v [] = (key, v) ∷ []
    insert key v ((j, w) ∷ m) =
        let rest = insert key v m in
        if k.eq j key
        then (key, v) ∷ m
        else if k.lt key j
        then (key, v) ∷ (j, w) ∷ m
        else (j, w) ∷ rest

    unfoldable pub remove : K → Map K V → Map K V
    remove key [] = []
    remove key ((j, v) ∷ m) = let rest = remove key m in if k.eq j key then rest else (j, v) ∷ rest

    pub get-nil : (a : K) → get a [] ≡ none
    unfolding get
    get-nil a = refl

    pub get-insert :
        (a b : K) (v : V) (m : Map K V)
        → get b (insert a v m) ≡ (if k.eq a b then some v else get b m)
    unfolding get insert
    get-insert a b v [] = refl
    get-insert a b v ((j, w) ∷ m) =
        ground (arith, k.eq_iff a b, k.eq_iff j a, k.eq_iff j b, get-insert a b v m)

    pub get-remove :
        (a b : K) (m : Map K V) → get b (remove a m) ≡ (if k.eq a b then none else get b m)
    unfolding get remove
    get-remove a b [] = ground arith
    get-remove a b ((j, w) ∷ m) =
        ground (arith, k.eq_iff a b, k.eq_iff j a, k.eq_iff j b, get-remove a b m)

  unfoldable pub contains : K → Set K → Bool
  contains a [] = false
  contains a (x ∷ xs) = k.eq x a || contains a xs

  unfoldable pub add : K → Set K → Set K
  add a [] = a ∷ []
  add a (x ∷ xs) =
      let rest = add a xs in if k.eq x a then x ∷ xs else if k.lt a x then a ∷ x ∷ xs else x ∷ rest

  unfoldable pub erase : K → Set K → Set K
  erase a [] = []
  erase a (x ∷ xs) = let rest = erase a xs in if k.eq x a then rest else x ∷ rest

  pub contains-add : (a b : K) (s : Set K) → contains b (add a s) ≡ (k.eq a b || contains b s)
  unfolding contains add
  contains-add a b [] = refl
  contains-add a b (x ∷ xs) =
      ground (arith, k.eq_iff a b, k.eq_iff x a, k.eq_iff x b, contains-add a b xs)

  pub contains-erase :
      (a b : K) (s : Set K) → contains b (erase a s) ≡ (not (k.eq a b) && contains b s)
  unfolding contains erase
  contains-erase a b [] = ground arith
  contains-erase a b (x ∷ xs) =
      ground (arith, k.eq_iff a b, k.eq_iff x a, k.eq_iff x b, contains-erase a b xs)
