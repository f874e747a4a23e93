-- ===== src/OrderedKey/Values.antt =====
-- Index keys compare as the values and the nodes that they encode.
use nervusdb.Base.{
  ℕ, ◌^◌, ◌<◌, ◌≡◌, refl, ◌∙◌, Bool, true, false, not, ◌&&◌, ◌||◌, List, [], ◌∷◌, ◌++◌, arith,
}
use mathlib.Core.List.{append-nil}
use nervusdb.Base.{if◌then◌else◌, ltb, leb, ◌==◌, All, Bool-cases}
use mathlib.Core.Logic.{inl, inr}
use nervusdb.Base.Bytes.{be_bytes, IsByte}
use nervusdb.Api.Edge.{bytes_eq, bytes_lt, bytes_eq_iff}
use nervusdb.Api.Property.{
  PropertyValue, null, bool, int, float, string, date_time, blob, list, map,
}
use nervusdb.OrderedKey.{flip_sign, invert, stuff, encode_ordered_value, encode_index_key}
use nervusdb.OrderedKey.Order.{stuff_lt, stuff_same, be_bytes_lt}

-- `Null < Bool < Int < Float < String`, and then the others.
abbrev pub rank : PropertyValue → ℕ
rank null = 0
rank (bool b) = 1
rank (int i) = 2
rank (float f) = 3
rank (string s) = 4
rank (date_time i) = 5
rank (blob b) = 6
rank (list l) = 7
rank (map m) = 8

abbrev is_negative : ℕ → Bool
is_negative bits = leb (2 ^ 63) bits

-- The order of two's complement numbers, and of IEEE 754 numbers, by their bits.
abbrev pub signed_lt : ℕ → ℕ → Bool
signed_lt i j =
    if is_negative i
    then (if is_negative j then ltb i j else true)
    else (if is_negative j then false else ltb i j)

abbrev pub float_lt : ℕ → ℕ → Bool
float_lt f g =
    if is_negative f
    then (if is_negative g then ltb g f else true)
    else (if is_negative g then false else ltb f g)

-- Values of one type; lists are not told apart, nor are maps.
abbrev pub lt_within : PropertyValue → PropertyValue → Bool
lt_within (bool a) (bool b) = not a && b
lt_within (int i) (int j) = signed_lt i j
lt_within (date_time i) (date_time j) = signed_lt i j
lt_within (float f) (float g) = float_lt f g
lt_within (string s) (string t) = bytes_lt s t
lt_within (blob s) (blob t) = bytes_lt s t
lt_within _ _ = false

abbrev pub same_within : PropertyValue → PropertyValue → Bool
same_within null null = true
same_within (bool a) (bool b) = if a then b else not b
same_within (int i) (int j) = i == j
same_within (date_time i) (date_time j) = i == j
same_within (float f) (float g) = f == g
same_within (string s) (string t) = bytes_eq s t
same_within (blob s) (blob t) = bytes_eq s t
same_within (list l) (list m) = true
same_within (map l) (map m) = true
same_within _ _ = false

abbrev pub value_lt : PropertyValue → PropertyValue → Bool
value_lt a b = ltb (rank a) (rank b) || lt_within a b

-- What a property value holds: 64-bit patterns and bytes.
abbrev pub IsIndexable : PropertyValue → Type 0
IsIndexable (int i) = i < 2 ^ 64
IsIndexable (float f) = f < 2 ^ 64
IsIndexable (date_time i) = i < 2 ^ 64
IsIndexable (string s) = All IsByte s
IsIndexable (blob b) = All IsByte b
IsIndexable _ = Unit

prefix_lt : (p xs ys : List ℕ) → bytes_lt (p ++ xs) (p ++ ys) ≡ bytes_lt xs ys
unfolding bytes_lt
prefix_lt [] xs ys = refl
prefix_lt (b ∷ p) xs ys = ground (arith, prefix_lt p xs ys)

bytes_lt_irrefl : (s : List ℕ) → bytes_lt s s ≡ false
unfolding bytes_lt
bytes_lt_irrefl [] = refl
bytes_lt_irrefl (b ∷ s) = ground (arith, bytes_lt_irrefl s)

stuffed :
    (s t xs ys : List ℕ)
    → All IsByte s
    → All IsByte t
    → bytes_lt (stuff s ++ xs) (stuff t ++ ys) ≡ (bytes_lt s t || (bytes_eq s t && bytes_lt xs ys))
stuffed s t xs ys hs ht = elim (Bool-cases (bytes_eq s t)) [
  | inl e ↦
      let eq : s ≡ t = (bytes_eq_iff s t).0 e in
      rw (e, ← eq, bytes_lt_irrefl s) (stuff_same s xs ys)
  | inr e ↦ rw e (stuff_lt s t xs ys e hs ht ∙ ground arith)
]

numbers :
    (u v : ℕ) (xs ys : List ℕ)
    → u < 2 ^ 64
    → v < 2 ^ 64
    → bytes_lt (be_bytes 8 u ++ xs) (be_bytes 8 v ++ ys) ≡ (ltb u v || (u == v && bytes_lt xs ys))
numbers u v xs ys hu hv = be_bytes_lt 8 u v xs ys (omega arith)

nodes : (u v : ℕ) → u < 2 ^ 64 → v < 2 ^ 64 → bytes_lt (be_bytes 8 u) (be_bytes 8 v) ≡ ltb u v
nodes u v hu hv =
    let e = numbers u v [] [] hu hv in
    rw (append-nil (be_bytes 8 u), append-nil (be_bytes 8 v)) at e
    ∙ ground (arith, bytes_lt_irrefl [])

abbrev sortable : ℕ → ℕ
sortable f = if ltb f (2 ^ 63) then flip_sign f else invert f

module _ (i : ℕ) (hi : i < 2 ^ 64) where
  flip_fits : flip_sign i < 2 ^ 64
  flip_fits = ground arith

  sortable_fits : sortable i < 2 ^ 64
  sortable_fits = ground arith

module _ (i j : ℕ) (hi : i < 2 ^ 64) (hj : j < 2 ^ 64) where
  flip_lt : ltb (flip_sign i) (flip_sign j) ≡ signed_lt i j
  flip_lt = ground arith

  flip_same : (flip_sign i == flip_sign j) ≡ (i == j)
  flip_same = ground arith

  sortable_lt : ltb (sortable i) (sortable j) ≡ float_lt i j
  sortable_lt = ground arith

  sortable_same : (sortable i == sortable j) ≡ (i == j)
  sortable_same = ground arith

values :
    (a b : PropertyValue) (xs ys : List ℕ)
    → IsIndexable a
    → IsIndexable b
    → bytes_lt (encode_ordered_value a ++ xs) (encode_ordered_value b ++ ys)
      ≡ (value_lt a b || (same_within a b && bytes_lt xs ys))
unfolding encode_ordered_value bytes_lt
values (string s) (string t) xs ys ha hb = stuffed s t xs ys ha hb
values (blob s) (blob t) xs ys ha hb = stuffed s t xs ys ha hb
values (int i) (int j) xs ys ha hb =
    rw
      (
        numbers (flip_sign i) (flip_sign j) xs ys (flip_fits i ha) (flip_fits j hb),
        flip_lt i j ha hb,
        flip_same i j ha hb,
      )
      refl
values (date_time i) (date_time j) xs ys ha hb =
    rw
      (
        numbers (flip_sign i) (flip_sign j) xs ys (flip_fits i ha) (flip_fits j hb),
        flip_lt i j ha hb,
        flip_same i j ha hb,
      )
      refl
values (float f) (float g) xs ys ha hb =
    rw
      (
        numbers (sortable f) (sortable g) xs ys (sortable_fits f ha) (sortable_fits g hb),
        sortable_lt f g ha hb,
        sortable_same f g ha hb,
      )
      refl
values (bool a) (bool b) xs ys ha hb = ground arith
values null null xs ys ha hb = ground arith
values (list l) (list m) xs ys ha hb = ground arith
values (map l) (map m) xs ys ha hb = ground arith
values a b xs ys ha hb = refl

-- Of two keys of one index, whose values hold 64-bit numbers and bytes and whose nodes have 64 bits, the
-- one with the smaller value is smaller in byte order, and for the same value the one with the smaller node.
pub encode_index_key_lt :
    (index_id : ℕ) (a b : PropertyValue) (m n : ℕ)
    → IsIndexable a
    → IsIndexable b
    → m < 2 ^ 64
    → n < 2 ^ 64
    → bytes_lt (encode_index_key index_id a m) (encode_index_key index_id b n)
      ≡ (value_lt a b || (same_within a b && ltb m n))
unfolding encode_index_key
encode_index_key_lt index_id a b m n ha hb hm hn =
    prefix_lt (be_bytes 4 index_id) (encode_ordered_value a ++ be_bytes 8 m)
      (encode_ordered_value b ++ be_bytes 8 n)
    ∙ values a b (be_bytes 8 m) (be_bytes 8 n) ha hb
    ∙ rw (nodes m n hm hn) refl
