-- ===== src/Base/OrdMap/Sorted.antt =====
-- Maps and sets whose keys ascend, as those of the operations do: no key comes twice.
use nervusdb.Base.Tests.{Bool-cases}
use nervusdb.Base.Lists.{All}
use mathlib.Core.Path.{◌≡◌, refl, sym, subst}
use mathlib.Core.Logic.{inl, inr}
use mathlib.Core.Bool.{true, false}
use mathlib.Core.Option.{none}
use mathlib.Core.List.{[], ◌∷◌}
use nervusdb.Base.OrdMap.{Key, Map, get, insert, remove}

module _ {K : Type 0} ⦃k : Key K⦄ where
  pub eq_false_sym : (a b : K) → k.eq a b ≡ false → k.eq b a ≡ false
  eq_false_sym a b h = elim (Bool-cases (k.eq b a)) [
    | inl e ↦
        let same : b ≡ a = (k.eq_iff b a).0 e in
        let back : k.eq a b ≡ true = (k.eq_iff a b).1 (sym same) in absurd (cc)
    | inr e ↦ e
  ]

module _ {K V : Type 0} ⦃k : Key K⦄ where
  -- The key is below all of the map's.
  abbrev pub Above : K → Map K V → Type 0
  Above key m = All (λ e. k.lt key e.0 ≡ true) m

  unfoldable pub IsSorted : Map K V → Type 0
  IsSorted [] = Unit
  IsSorted ((j, v) ∷ m) = Above j m × IsSorted m

  Above-trans : (i j : K) (m : Map K V) → k.lt i j ≡ true → Above j m → Above i m
  Above-trans i j [] h a = a
  Above-trans i j ((l, v) ∷ m) h a = (k.lt_trans i j l h a.0, Above-trans i j m h a.1)

  Above-insert :
      (j key : K) (v : V) (m : Map K V) → k.lt j key ≡ true → Above j m → Above j (insert key v m)
  unfolding insert
  Above-insert j key v [] h a = (h, a)
  Above-insert j key v ((l, w) ∷ m) h a = elim (Bool-cases (k.eq l key)) [
    | inl e ↦ rw e (h, a.1)
    | inr e ↦ elim (Bool-cases (k.lt key l)) [
      | inl f ↦ rw (e, f) (h, a)
      | inr f ↦ rw (e, f) (a.0, Above-insert j key v m h a.1)
    ]
  ]

  Above-remove : (j key : K) (m : Map K V) → Above j m → Above j (remove key m)
  unfolding remove
  Above-remove j key [] a = a
  Above-remove j key ((l, w) ∷ m) a = elim (Bool-cases (k.eq l key)) [
    | inl e ↦ rw e (Above-remove j key m a.1)
    | inr e ↦ rw e (a.0, Above-remove j key m a.1)
  ]

  pub insert-IsSorted : (key : K) (v : V) (m : Map K V) → IsSorted m → IsSorted (insert key v m)
  unfolding insert IsSorted
  insert-IsSorted key v [] s = (s, s)
  insert-IsSorted key v ((j, w) ∷ m) s = elim (Bool-cases (k.eq j key)) [
    | inl e ↦
        let same : j ≡ key = (k.eq_iff j key).0 e in rw e (subst (λ i. Above i m) same s.0, s.1)
    | inr e ↦ elim (Bool-cases (k.lt key j)) [
      | inl f ↦ rw (e, f) ((f, Above-trans key j m f s.0), s)
      | inr f ↦
          rw (e, f)
            (
              Above-insert j key v m (k.lt_total key j (eq_false_sym j key e) f) s.0,
              insert-IsSorted key v m s.1,
            )
    ]
  ]

  pub remove-IsSorted : (key : K) (m : Map K V) → IsSorted m → IsSorted (remove key m)
  unfolding remove IsSorted
  remove-IsSorted key [] s = s
  remove-IsSorted key ((j, w) ∷ m) s = elim (Bool-cases (k.eq j key)) [
    | inl e ↦ rw e (remove-IsSorted key m s.1)
    | inr e ↦ rw e (Above-remove j key m s.0, remove-IsSorted key m s.1)
  ]

  -- A key that is below all others is not among them.
  pub get-Above : (key : K) (m : Map K V) → Above key m → get key m ≡ none
  unfolding get
  get-Above key [] a = refl
  get-Above key ((j, v) ∷ m) a =
      rw (eq_false_sym key j (k.lt_apart key j a.0)) (get-Above key m a.1)
