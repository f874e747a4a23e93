-- ===== src/LabelInterner/Inverse.antt =====
-- The two directions of the interner stay inverse to one another.
use nervusdb.Base.{
  ℕ, zero, suc, ◌%◌, ◌^◌, ◌<◌, ◌≡◌, ◌↔◌, refl, none, some, List, [], ◌∷◌, ◌++◌, arith,
}
use nervusdb.Base.{if◌then◌else◌, ◌==◌, length, get_elem?, Option-cases}
use mathlib.Core.Logic.{inl, inr}
use nervusdb.Base.OrdMap.{get, insert, get-insert}
use nervusdb.Api.Property.{Text}
use nervusdb.Api.Edge.{text_key, bytes_eq_iff}
use nervusdb.LabelInterner.{LabelInterner, get_id, get_name, next_id, get_or_create}

-- A name has an id just when the id has the name.
abbrev pub IsInverse : LabelInterner → Type 0
IsInverse t = (name : Text) (id : ℕ) → (get_id t name ≡ some id) ↔ (get_name t id ≡ some name)

get_elem?-append_one :
    (xs : List Text) (x : Text) (i : ℕ)
    → get_elem? (xs ++ (x ∷ [])) i ≡ (if i == length xs then some x else get_elem? xs i)
get_elem?-append_one [] x zero = refl
get_elem?-append_one [] x (suc i) = ground arith
get_elem?-append_one (y ∷ xs) x zero = ground arith
get_elem?-append_one (y ∷ xs) x (suc i) = ground (arith, get_elem?-append_one xs x i)

get_elem?-length : (xs : List Text) → get_elem? xs (length xs) ≡ none
get_elem?-length [] = refl
get_elem?-length (x ∷ xs) = get_elem?-length xs

abbrev extended : LabelInterner → Text → LabelInterner
extended t name = record { s2i = insert name (length t.i2s) t.s2i; i2s = t.i2s ++ (name ∷ []) }

extended-IsInverse :
    (t : LabelInterner) (name : Text)
    → IsInverse t
    → get_id t name ≡ none
    → IsInverse (extended t name)
unfolding get_id get_name
extended-IsInverse t name inv fresh n i =
    let back : get n t.s2i ≡ some i → get_elem? t.i2s i ≡ some n = (inv n i).0 in
    let forth : get_elem? t.i2s i ≡ some n → get n t.s2i ≡ some i = (inv n i).1 in
    rw (get-insert name n (length t.i2s) t.s2i, get_elem?-append_one t.i2s name i)
      (ground (arith, back, forth, fresh, get_elem?-length t.i2s, bytes_eq_iff name n))

get_or_create-known :
    (t : LabelInterner) (name : Text) (id : ℕ)
    → get_id t name ≡ some id
    → get_or_create t name ≡ (id, t)
unfolding get_or_create get_id
get_or_create-known t name id e =
    let found : get name t.s2i ≡ some id = e in rw (found, get_or_create) refl

get_or_create-fresh :
    (t : LabelInterner) (name : Text)
    → get_id t name ≡ none
    → length t.i2s < 2 ^ 32
    → get_or_create t name ≡ (length t.i2s, extended t name)
unfolding get_or_create get_id next_id
get_or_create-fresh t name e few =
    let small : length t.i2s % 2 ^ 32 ≡ length t.i2s = omega arith in
    let missing : get name t.s2i ≡ none = e in rw (missing, get_or_create, small) refl

-- A fresh name gets the next id, and every other name keeps its own.
get_id-extended :
    (t : LabelInterner) (name : Text)
    → get_id t name ≡ none
    → (get_id (extended t name) name ≡ some (length t.i2s))
      × ((other : Text) (id : ℕ)
          → get_id t other ≡ some id
          → get_id (extended t name) other ≡ some id)
unfolding get_id
get_id-extended t name e = (
  rw (get-insert name name (length t.i2s) t.s2i) (ground (arith, bytes_eq_iff name name)),
  λ other id h.
      rw (get-insert name other (length t.i2s) t.s2i) (ground (arith, bytes_eq_iff name other)),
)

-- With fewer than 2^32 labels, asking for a name leaves the directions inverse to one another, gives the
-- id that the name has from then on, and the name that the id has; and every name keeps its id.
pub get_or_create-IsInverse :
    (t : LabelInterner) (name : Text)
    → IsInverse t
    → length t.i2s < 2 ^ 32
    → IsInverse (get_or_create t name).1
      × (get_id (get_or_create t name).1 name ≡ some (get_or_create t name).0)
      × (get_name (get_or_create t name).1 (get_or_create t name).0 ≡ some name)
      × ((other : Text) (id : ℕ)
          → get_id t other ≡ some id
          → get_id (get_or_create t name).1 other ≡ some id)
get_or_create-IsInverse t name inv few = elim (Option-cases (get_id t name)) [
  | inr (id, e) ↦ rw (get_or_create-known t name id e) (inv, e, (inv name id).0 e, λ other i h. h)
  | inl e ↦
      let inv' = extended-IsInverse t name inv e in
      let (here, kept) = get_id-extended t name e in
      rw (get_or_create-fresh t name e few) (inv', here, (inv' name (length t.i2s)).0 here, kept)
]
