-- ===== src/Api/Storable.antt =====
-- The property values whose encodings can be read back, and what the proof of that needs of maps,
-- slices and fuel.
use nervusdb.Base.{
  ℕ, zero, suc, ◌+◌, ◌^◌, ◌<◌, ◌≤◌, ◌≡◌, refl, ap, Bool, true, false, List, [], ◌∷◌, ◌++◌, arith,
}
use nervusdb.Base.{if◌then◌else◌, length, length-append, drop-append}
use nervusdb.Base.{ok}
use nervusdb.Base.Bytes.{le_bytes, from_le_bytes, slice-append, length-le_bytes}
use nervusdb.Api.Edge.{bytes_eq, bytes_lt}
use nervusdb.Api.Property.{
  Text, PropertyValue, Items, Fields, null, bool, int, float, string, date_time, blob, list, map,
  nil, cons, end, field,
}
use nervusdb.Api.Codec.{is_utf8}
use nervusdb.Api.Decode.{slice_from, insert_field, decode_recursive}
use nervusdb.Api.Words.{fits}

-- Every key of `fs` is above `k`; every key of `m` is below those of `fs`.
abbrev pub AllAbove : Text → Fields → Type 0
AllAbove k end = Unit
AllAbove k (field j v fs) = (bytes_lt k j ≡ true) × AllAbove k fs

abbrev pub Below : Fields → Fields → Type 0
Below end fs = Unit
Below (field j w m) fs = AllAbove j fs × Below m fs

-- The values that a Rust `PropertyValue` can hold: words in range, strings in UTF-8, map keys in
-- ascending order and each once.
abbrev mutual
  pub IsStorable : PropertyValue → Type 0
  IsStorable (int i) = i < 2 ^ 64
  IsStorable (float f) = f < 2 ^ 64
  IsStorable (date_time i) = i < 2 ^ 64
  IsStorable (string s) = is_utf8 s ≡ true
  IsStorable (list l) = AreStorable l
  IsStorable (map m) = AreEntries m
  IsStorable null = Unit
  IsStorable (bool b) = Unit
  IsStorable (blob b) = Unit

  pub AreStorable : Items → Type 0
  AreStorable nil = Unit
  AreStorable (cons v vs) = IsStorable v × AreStorable vs

  pub AreEntries : Fields → Type 0
  AreEntries end = Unit
  AreEntries (field k v fs) = (is_utf8 k ≡ true) × IsStorable v × AllAbove k fs × AreEntries fs

-- The fuel that decoding the encoding of a value takes.
abbrev mutual
  pub depth : PropertyValue → ℕ
  depth (list l) = suc (depth_items l)
  depth (map m) = suc (depth_fields m)
  depth null = 1
  depth (bool b) = 1
  depth (int i) = 1
  depth (float f) = 1
  depth (string s) = 1
  depth (date_time i) = 1
  depth (blob b) = 1

  pub depth_items : Items → ℕ
  depth_items nil = 0
  depth_items (cons v vs) = suc (depth v + depth_items vs)

  pub depth_fields : Fields → ℕ
  depth_fields end = 0
  depth_fields (field k v fs) = suc (depth v + depth_fields fs)

abbrev pub append_fields : Fields → Fields → Fields
append_fields end fs = fs
append_fields (field k v m) fs = field k v (append_fields m fs)

pub bytes_lt_asymm :
    (a b : List ℕ) → bytes_lt a b ≡ true → (bytes_eq a b ≡ false) × (bytes_lt b a ≡ false)
unfolding bytes_lt bytes_eq
bytes_lt_asymm [] [] h = cc
bytes_lt_asymm [] (y ∷ ys) h = (refl, refl)
bytes_lt_asymm (x ∷ xs) [] h = cc
bytes_lt_asymm (x ∷ xs) (y ∷ ys) h = ground (arith, bytes_lt_asymm xs ys)

-- A key above all that are there is inserted last.
pub insert_field-last :
    (k : Text) (v : PropertyValue) (m fs : Fields)
    → Below m (field k v fs)
    → insert_field k v m ≡ append_fields m (field k v end)
unfolding insert_field
insert_field-last k v end fs b = refl
insert_field-last k v (field j w m) fs b =
    ground (arith, bytes_lt_asymm j k, insert_field-last k v m fs b.1)

pub Below-insert :
    (k : Text) (v : PropertyValue) (m fs : Fields)
    → Below m (field k v fs)
    → AllAbove k fs
    → Below (append_fields m (field k v end)) fs
Below-insert k v end fs b a = (a, tt)
Below-insert k v (field j w m) fs b a = (b.0.1, Below-insert k v m fs b.1 a)

pub append_fields_assoc :
    (m : Fields) (k : Text) (v : PropertyValue) (fs : Fields)
    → append_fields (append_fields m (field k v end)) fs ≡ append_fields m (field k v fs)
append_fields_assoc end k v fs = refl
append_fields_assoc (field j w m) k v fs = ap (field j w) (append_fields_assoc m k v fs)

pub slice_from-append :
    {E : Type 0} (pre rest : List ℕ) (a : ℕ)
    → length pre ≡ a
    → slice_from {E = E} (pre ++ rest) a ≡ ok rest
unfolding slice_from
slice_from-append pre rest a e =
    let long = fits {a = a} (pre ++ rest) (omega (arith, length-append {0} pre rest)) in
    rw (long, ← e, drop-append pre rest) refl

abbrev pub Decodes : ℕ → PropertyValue → List ℕ → List ℕ → Type 0
Decodes fuel v bs rest = decode_recursive fuel (bs ++ rest) ≡ ok (v, length bs)

pub bool-round_trip :
    (fuel : ℕ) (b : Bool) (rest : List ℕ)
    → Decodes (suc fuel) (bool b) (1 ∷ (if b then 1 else 0) ∷ []) rest
unfolding decode_recursive from_le_bytes
bool-round_trip fuel true rest =
    rw
      (fits {a = 2} (1 ∷ 1 ∷ rest) (omega arith), slice-append (1 ∷ []) (1 ∷ []) rest 1 2 refl refl)
      refl
bool-round_trip fuel false rest =
    rw
      (fits {a = 2} (1 ∷ 0 ∷ rest) (omega arith), slice-append (1 ∷ []) (0 ∷ []) rest 1 2 refl refl)
      refl

pub depth_pos : (v : PropertyValue) → 0 < depth v
depth_pos (list l) = omega arith
depth_pos _ = omega arith

-- What a type byte, four bytes of length and the bytes come to.
pub headed_end : (ty n : ℕ) (s : List ℕ) → 5 + length s ≡ length (ty ∷ (le_bytes 4 n ++ s))
headed_end ty n s = omega (arith, length-append {0} (le_bytes 4 n) s, length-le_bytes 4 n)

-- Fuel for an element is fuel for two more calls.
pub two_more : (n fuel : ℕ) → 0 < n → suc n ≤ fuel → (g : ℕ) × (fuel ≡ suc (suc g)) × (n ≤ suc g)
two_more n zero p h = absurd (omega arith)
two_more n (suc zero) p h = absurd (omega arith)
two_more n (suc (suc g)) p h = (g, refl, omega arith)

pub append_fields-end : (m : Fields) → append_fields m end ≡ m
append_fields-end end = refl
append_fields-end (field k v m) = ap (field k v) (append_fields-end m)
