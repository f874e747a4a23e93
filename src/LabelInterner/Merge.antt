-- ===== src/LabelInterner/Merge.antt =====
-- `LabelInterner::merge` of nervusdb-storage/src/label_interner.rs: the other interner's names that are
-- missing are taken over with the ids that they have there.
use nervusdb.Base.{
  ℕ, suc, zero, ◌≡◌, refl, Bool, true, false, inl, inr, Option, none, some, List, [], ◌∷◌, ◌++◌,
  sym, ap, ◌∙◌,
}
use nervusdb.Base.{if◌then◌else◌, get_elem?, Option-cases, Bool-cases}
use nervusdb.Base.OrdMap.{Map, get, insert, get-insert}
use nervusdb.Api.Property.{Text}
use nervusdb.Api.Edge.{text_key, bytes_eq, bytes_eq_iff}
use nervusdb.LabelInterner.{LabelInterner, get_id, get_name}

-- `LabelInterner::contains`, also `self.s2i.contains_key(name)`
unfoldable pub contains_name : LabelInterner → Text → Bool
contains_name t name = elim (get name t.s2i) [ none ↦ false | some id ↦ true ]

-- `if let Some(name_str) = other.i2s.get(*id as usize) { self.i2s.push(name_str.clone()) }`
unfoldable pub push_name : List Text → Option Text → List Text
push_name i2s none = i2s
push_name i2s (some name) = i2s ++ (name ∷ [])

-- One entry of the other interner that is missing
unfoldable pub take_over : LabelInterner → List Text → Text → ℕ → LabelInterner
unfolding push_name
take_over t i2s name id = record {
  s2i = insert name id t.s2i;
  i2s = push_name t.i2s (get_elem? i2s id);
}

-- The loop, over the other interner's entries in the order in which they are iterated, on which the places
-- of the pushed names depend.
unfoldable pub merge_entries : LabelInterner → List Text → List (Text × ℕ) → ℕ × LabelInterner
unfolding take_over contains_name
merge_entries t i2s [] = (0, t)
merge_entries t i2s ((name, id) ∷ entries) =
    let known = contains_name t name in
    let rest = merge_entries (if known then t else take_over t i2s name id) i2s entries in
    (if known then rest.0 else suc (rest.0), rest.1)

unfoldable pub merge : LabelInterner → LabelInterner → ℕ × LabelInterner
unfolding merge_entries
merge t other = merge_entries t other.i2s other.s2i

-- The first one's id, and where there is none the second one's
unfoldable pub either_id : Option ℕ → Option ℕ → Option ℕ
either_id none b = b
either_id (some id) b = some id

missing :
    (n name : Text) (m : Map Text ℕ) → get n m ≡ none → bytes_eq n name ≡ true → get name m ≡ none
missing n name m e same = ap (λ x. get x m) (sym ((bytes_eq_iff n name).0 same)) ∙ e

found :
    (n name : Text) (m : Map Text ℕ) (id : ℕ)
    → get n m ≡ some id
    → bytes_eq n name ≡ true
    → get name m ≡ some id
found n name m id e same = ap (λ x. get x m) (sym ((bytes_eq_iff n name).0 same)) ∙ e

fresh_id :
    (same : Bool) (o : Option ℕ) (i : ℕ)
    → (same ≡ true → o ≡ none)
    → (if same then some i else o) ≡ either_id o (if same then some i else none)
unfolding either_id
fresh_id true o i h = rw (h refl) refl
fresh_id false none i h = refl
fresh_id false (some id) i h = refl

known_id :
    (same : Bool) (o : Option ℕ) (i id : ℕ)
    → (same ≡ true → o ≡ some id)
    → o ≡ either_id o (if same then some i else none)
unfolding either_id
known_id true o i id h = rw (h refl) refl
known_id false none i id h = refl
known_id false (some j) i id h = refl

contains_name-none : (t : LabelInterner) (n : Text) → get n t.s2i ≡ none → contains_name t n ≡ false
unfolding contains_name
contains_name-none t n e = rw (e, contains_name) refl

contains_name-some :
    (t : LabelInterner) (n : Text) (id : ℕ) → get n t.s2i ≡ some id → contains_name t n ≡ true
unfolding contains_name
contains_name-some t n id e = rw (e, contains_name) refl

get_id-take_over :
    (t : LabelInterner) (i2s : List Text) (n : Text) (i : ℕ) (name : Text)
    → get_id (if contains_name t n then t else take_over t i2s n i) name
      ≡ either_id (get_id t name) (if text_key.eq n name then some i else none)
unfolding get_id take_over either_id
get_id-take_over t i2s n i name = elim (Option-cases (get n t.s2i)) [
  | inl e ↦
      rw (contains_name-none t n e, get-insert n name i t.s2i)
        (fresh_id (bytes_eq n name) (get name t.s2i) i (missing n name t.s2i e))
  | inr (id, e) ↦
      rw (contains_name-some t n id e)
        (known_id (bytes_eq n name) (get name t.s2i) i id (found n name t.s2i id e))
]

either_id_assoc : (a b c : Option ℕ) → either_id (either_id a b) c ≡ either_id a (either_id b c)
unfolding either_id
either_id_assoc none b c = refl
either_id_assoc (some id) b c = refl

first_of :
    (same : Bool) (i : ℕ) (o : Option ℕ)
    → either_id (if same then some i else none) o ≡ (if same then some i else o)
unfolding either_id
first_of true i o = refl
first_of false i o = refl

get_id-merge_entries :
    (entries : List (Text × ℕ)) (t : LabelInterner) (i2s : List Text) (name : Text)
    → get_id (merge_entries t i2s entries).1 name ≡ either_id (get_id t name) (get name entries)
unfolding merge_entries get either_id
get_id-merge_entries [] t i2s name = elim (Option-cases (get_id t name)) [
  | inl e ↦ rw e refl
  | inr (id, e) ↦ rw e refl
]
get_id-merge_entries ((n, i) ∷ entries) t i2s name =
    let next = if contains_name t n then t else take_over t i2s n i in
    get_id-merge_entries entries next i2s name
    ∙ (ap (λ o. either_id o (get name entries)) (get_id-take_over t i2s n i name)
        ∙ (either_id_assoc (get_id t name) (if bytes_eq n name then some i else none)
              (get name entries)
            ∙ ap (either_id (get_id t name)) (first_of (bytes_eq n name) i (get name entries))))

get_name-append :
    (xs : List Text) (o : Option Text) (id : ℕ) (name : Text)
    → get_elem? xs id ≡ some name
    → get_elem? (push_name xs o) id ≡ some name
unfolding push_name
get_name-append xs none id name h = h
get_name-append [] (some x) id name h = cc
get_name-append (y ∷ xs) (some x) zero name h = h
get_name-append (y ∷ xs) (some x) (suc id) name h = get_name-append xs (some x) id name h

get_name-merge_entries :
    (entries : List (Text × ℕ)) (t : LabelInterner) (i2s : List Text) (id : ℕ) (name : Text)
    → get_name t id ≡ some name
    → get_name (merge_entries t i2s entries).1 id ≡ some name
unfolding merge_entries get_name take_over
get_name-merge_entries [] t i2s id name h = h
get_name-merge_entries ((n, i) ∷ entries) t i2s id name h =
    get_name-merge_entries entries (if contains_name t n then t else take_over t i2s n i) i2s id
      name
      (elim (Bool-cases (contains_name t n)) [
        | inl e ↦ rw e h
        | inr e ↦ rw e (get_name-append t.i2s (get_elem? i2s i) id name h)
      ])

-- After a merge a name has the id that it had, or else the one that the other interner gives it; and an id
-- that had a name keeps the name.
pub merge_lem :
    (t other : LabelInterner)
    → ((name : Text)
        → get_id (merge t other).1 name ≡ either_id (get_id t name) (get_id other name))
      × ((id : ℕ) (name : Text)
          → get_name t id ≡ some name
          → get_name (merge t other).1 id ≡ some name)
unfolding merge get_id
merge_lem t other = (
  (λ name. get_id-merge_entries other.s2i t other.i2s name),
  λ id name h. get_name-merge_entries other.s2i t other.i2s id name h,
)
