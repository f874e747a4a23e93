-- ===== src/Recovery/Listings.antt =====
-- What the listings of a memtable's properties say, applied in their order.
use mathlib.Core.List.{map}
use nervusdb.Base.{
  ◌≡◌, refl, sym, ap, ◌∙◌, false, ◌&&◌, inl, inr, Option, none, some, List, [], ◌∷◌, ◌++◌, arith,
}
use nervusdb.Base.{if◌then◌else◌, All, Bool-cases}
use nervusdb.Base.OrdMap.{Key, Map, Set, get, get_or, contains, get-nil}
use nervusdb.Base.OrdMap.Sorted.{IsSorted, get-Above}
use nervusdb.Api.Property.{Text, PropertyValue}
use nervusdb.Api.Edge.{bytes_eq, bytes_eq_iff, text_key}
use nervusdb.MemTable.{PropertyMap}
use nervusdb.Run.{is_removed, property_in}
use nervusdb.Run.Effect.{Effect, stays, becomes, gone, effect_of, followed_by, followed_by_assoc}
use nervusdb.Recovery.{properties_for_wal, removed_for_wal}

stays_first : (e : Effect) → followed_by stays e ≡ e
stays_first stays = refl
stays_first (becomes v) = refl
stays_first gone = refl

abbrev value_effect : Option PropertyValue → Effect
value_effect none = stays
value_effect (some v) = becomes v

value_effect-of : (o : Option PropertyValue) → value_effect o ≡ effect_of false o
value_effect-of none = refl
value_effect-of (some v) = refl

module _ {K : Type 0} ⦃k : Key K⦄ where
  -- The effect on one property of setting all that are listed, and of removing them.
  unfoldable pub sets : List (K × Text × PropertyValue) → K → Text → Effect
  sets [] n j = stays
  sets ((owner, key, v) ∷ rest) n j =
      followed_by (if k.eq owner n && bytes_eq key j then becomes v else stays) (sets rest n j)

  unfoldable pub unsets : List (K × Text) → K → Text → Effect
  unsets [] n j = stays
  unsets ((owner, key) ∷ rest) n j =
      followed_by (if k.eq owner n && bytes_eq key j then gone else stays) (unsets rest n j)

  sets-append :
      (xs ys : List (K × Text × PropertyValue)) (n : K) (j : Text)
      → sets (xs ++ ys) n j ≡ followed_by (sets xs n j) (sets ys n j)
  unfolding sets
  sets-append [] ys n j = sym (stays_first (sets ys n j))
  sets-append ((owner, key, v) ∷ xs) ys n j = rw (sets-append xs ys n j) (
      sym (
        followed_by_assoc (if k.eq owner n && bytes_eq key j then becomes v else stays)
          (sets xs n j) (sets ys n j)))

  unsets-append :
      (xs ys : List (K × Text)) (n : K) (j : Text)
      → unsets (xs ++ ys) n j ≡ followed_by (unsets xs n j) (unsets ys n j)
  unfolding unsets
  unsets-append [] ys n j = sym (stays_first (unsets ys n j))
  unsets-append ((owner, key) ∷ xs) ys n j = rw (unsets-append xs ys n j) (
      sym (
        followed_by_assoc (if k.eq owner n && bytes_eq key j then gone else stays) (unsets xs n j)
          (unsets ys n j)))

  -- The properties of one owner.
  sets-owner :
      (owner n : K) (j : Text) (props : PropertyMap)
      → IsSorted props
      → sets (map (λ e. (owner, e.0, e.1)) props) n j
        ≡ (if k.eq owner n then value_effect (get j props) else stays)
  unfolding sets get IsSorted
  sets-owner owner n j [] s = ground arith
  sets-owner owner n j ((key, v) ∷ props) (above, s) = elim (Bool-cases (bytes_eq key j)) [
    | inl e ↦
        let same : key ≡ j = (bytes_eq_iff key j).0 e in
        let unique : get j props ≡ none = rw same at (get-Above key props above) in
        rw (sets-owner owner n j props s, e, unique) (ground arith)
    | inr e ↦
        rw (sets-owner owner n j props s, e)
          (ground (arith, stays_first (if k.eq owner n then value_effect (get j props) else stays)))
  ]

  unsets-owner :
      (owner n : K) (j : Text) (keys : Set Text)
      → unsets (map (λ key. (owner, key)) keys) n j
        ≡ (if k.eq owner n && contains j keys then gone else stays)
  unfolding unsets contains
  unsets-owner owner n j [] = ground arith
  unsets-owner owner n j (key ∷ keys) = rw (unsets-owner owner n j keys) (ground arith)

  abbrev pub AllSorted : Map K PropertyMap → Type 0
  AllSorted m = IsSorted m × All (λ e. IsSorted (e.1)) m

  pub sets-properties_for_wal :
      (m : Map K PropertyMap) (n : K) (j : Text)
      → AllSorted m
      → sets (properties_for_wal m) n j ≡ effect_of false (property_in m n j)
  unfolding properties_for_wal property_in get IsSorted sets
  sets-properties_for_wal [] n j s = refl
  sets-properties_for_wal ((owner, props) ∷ m) n j ((above, s), (inner, t)) =
      let here = sets-owner owner n j props inner in
      let rest = sets-properties_for_wal m n j (s, t) in
      rw (sets-append (map (λ e. (owner, e.0, e.1)) props) (properties_for_wal m) n j, here, rest)
        (elim (Bool-cases (k.eq owner n)) [
          | inl e ↦
              let same : owner ≡ n = (k.eq_iff owner n).0 e in
              let unique : get n m ≡ none = rw same at (get-Above owner m above) in
              rw (e, unique) (value_effect-of (get j props))
          | inr e ↦ rw e (stays_first (effect_of false (property_in m n j)))
        ])

  get_or-none : (m : Map K (Set Text)) (n : K) → get n m ≡ none → get_or [] n m ≡ []
  unfolding get_or
  get_or-none m n e = rw (e, get_or) refl

  get_or-cons :
      (owner n : K) (keys : Set Text) (m : Map K (Set Text))
      → get_or [] n ((owner, keys) ∷ m) ≡ (if k.eq owner n then keys else get_or [] n m)
  unfolding get_or get
  get_or-cons owner n keys m = elim (Bool-cases (k.eq owner n)) [
    | inl e ↦ rw (e, get_or, get) refl
    | inr e ↦ rw (e, get_or, get) refl
  ]

  is_removed-none :
      (m : Map K (Set Text)) (n : K) (j : Text) → get n m ≡ none → is_removed m n j ≡ false
  unfolding is_removed contains
  is_removed-none m n j e = ap (contains j) (get_or-none m n e)

  is_removed-cons :
      (owner n : K) (keys : Set Text) (m : Map K (Set Text)) (j : Text)
      → is_removed ((owner, keys) ∷ m) n j
        ≡ (if k.eq owner n then contains j keys else is_removed m n j)
  unfolding is_removed
  is_removed-cons owner n keys m j = ap (contains j) (get_or-cons owner n keys m) ∙ ground arith

  pub unsets-removed_for_wal :
      (m : Map K (Set Text)) (n : K) (j : Text)
      → IsSorted m
      → unsets (removed_for_wal m) n j ≡ (if is_removed m n j then gone else stays)
  unfolding removed_for_wal IsSorted unsets
  unsets-removed_for_wal [] n j s = rw (is_removed-none [] n j (get-nil n)) refl
  unsets-removed_for_wal ((owner, keys) ∷ m) n j (above, s) =
      let here = unsets-owner owner n j keys in
      let rest = unsets-removed_for_wal m n j s in
      rw
        (
          unsets-append (map (λ key. (owner, key)) keys) (removed_for_wal m) n j,
          here,
          rest,
          is_removed-cons owner n keys m j,
        )
        (elim (Bool-cases (k.eq owner n)) [
          | inl e ↦
              let same : owner ≡ n = (k.eq_iff owner n).0 e in
              let unique : get n m ≡ none = rw same at (get-Above owner m above) in
              rw (e, is_removed-none m n j unique) refl
          | inr e ↦ rw e (stays_first (if is_removed m n j then gone else stays))
        ])
