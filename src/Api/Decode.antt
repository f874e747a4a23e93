-- ===== src/Api/Decode.antt =====
-- `PropertyValue::decode` of nervusdb-api/src/lib.rs.
use nervusdb.Base.{ℕ, zero, suc, ◌+◌, ◌*◌, not, List, [], ◌∷◌}
use nervusdb.Base.{if◌then◌else◌, leb, ◌==◌, length, drop}
use nervusdb.Base.{Outcome, ok, err, panic, ◌>>=◌, ◌>>◌, guard}
use nervusdb.Base.Bytes.{from_le_bytes, slice}
use nervusdb.Api.Edge.{bytes_eq, bytes_lt}
use nervusdb.Api.Codec.{
  Decoding, no_bytes, invalid_length, invalid_utf8, unknown_type, no_fuel, is_utf8,
}
use nervusdb.Api.Property.{
  Text, PropertyValue, Items, Fields, null, bool, int, float, string, date_time, blob, list, map,
  nil, cons, end, field,
}

-- `&bytes[pos..]`
unfoldable pub slice_from : {E : Type 0} → List ℕ → ℕ → Outcome E (List ℕ)
slice_from bytes pos = if leb pos (length bytes) then ok (drop pos bytes) else panic

-- `BTreeMap::insert`
unfoldable pub insert_field : Text → PropertyValue → Fields → Fields
insert_field k v end = field k v end
insert_field k v (field j w fs) =
    let rest = insert_field k v fs in
    if bytes_eq j k
    then field k v fs
    else if bytes_lt k j
    then field k v (field j w fs)
    else field j w rest

-- `u32::from_le_bytes(bytes[a..a + 4]) as usize`, and the same for eight bytes
unfoldable pub u32_at : {E : Type 0} → List ℕ → ℕ → Outcome E ℕ
u32_at bytes a = do s ← slice bytes a (a + 4); ok (from_le_bytes s)

unfoldable pub u64_at : {E : Type 0} → List ℕ → ℕ → Outcome E ℕ
u64_at bytes a = do s ← slice bytes a (a + 8); ok (from_le_bytes s)

-- The eight-byte values: `Int`, `Float`, `DateTime`.
unfoldable pub decode_word : (ℕ → PropertyValue) → List ℕ → Decoding (PropertyValue × ℕ)
decode_word make bytes = do
  guard (leb 9 (length bytes)) invalid_length
  i ← u64_at bytes 1
  ok (make i, 9)

-- `String::from_utf8`
abbrev pub from_utf8 : {E : Type 0} → E → List ℕ → Outcome E Text
from_utf8 e s = if is_utf8 s then ok s else err e

unfoldable pub decode_string : List ℕ → Decoding (PropertyValue × ℕ)
decode_string bytes = do
  guard (leb 5 (length bytes)) invalid_length
  len ← u32_at bytes 1
  guard (leb (5 + len) (length bytes)) invalid_length
  raw ← slice bytes 5 (5 + len)
  s ← from_utf8 invalid_utf8 raw
  ok (string s, 5 + len)

unfoldable pub decode_blob : List ℕ → Decoding (PropertyValue × ℕ)
decode_blob bytes = do
  guard (leb 5 (length bytes)) invalid_length
  len ← u32_at bytes 1
  guard (leb (5 + len) (length bytes)) invalid_length
  raw ← slice bytes 5 (5 + len)
  ok (blob raw, 5 + len)

unfoldable pub decode_bool : List ℕ → Decoding (PropertyValue × ℕ)
decode_bool bytes = do
  guard (leb 2 (length bytes)) invalid_length
  s ← slice bytes 1 2
  ok (bool (not (from_le_bytes s == 0)), 2)

-- `bytes.len() < 5`, and the count that heads a list or a map
unfoldable pub decode_count : List ℕ → Decoding ℕ
decode_count bytes = do guard (leb 5 (length bytes)) invalid_length; u32_at bytes 1

-- The key at `pos` and the position behind it.
unfoldable pub decode_key : List ℕ → ℕ → Decoding (Text × ℕ)
decode_key bytes pos = do
  guard (leb (pos + 4) (length bytes)) invalid_length
  len ← u32_at bytes pos
  guard (leb (pos + 4 + len) (length bytes)) invalid_length
  raw ← slice bytes (pos + 4) (pos + 4 + len)
  k ← from_utf8 invalid_utf8 raw
  ok (k, pos + 4 + len)

-- `fuel` bounds the calls that are open at once together with the rounds of their loops.
unfoldable mutual
  unfolding decode_word decode_string decode_blob decode_bool decode_count decode_key insert_field

  pub decode_recursive : ℕ → List ℕ → Decoding (PropertyValue × ℕ)
  decode_recursive zero bytes = err no_fuel
  decode_recursive (suc fuel) [] = err no_bytes
  decode_recursive (suc fuel) (ty ∷ payload) =
      let bytes : List ℕ = ty ∷ payload in
      if ty == 0
      then ok (null, 1)
      else if ty == 1
      then decode_bool bytes
      else if ty == 2
      then decode_word int bytes
      else if ty == 3
      then decode_word float bytes
      else if ty == 4
      then decode_string bytes
      else if ty == 5
      then decode_word date_time bytes
      else if ty == 6
      then decode_blob bytes
      else if ty == 7
      then (do n ← decode_count bytes; (l, pos) ← decode_items fuel n bytes 5; ok (list l, pos))
      else if ty == 8
      then (do n ← decode_count bytes; (m, pos) ← decode_fields fuel n bytes 5 end; ok (map m, pos))
      else err (unknown_type ty)

  -- `for _ in 0..count`
  pub decode_items : ℕ → ℕ → List ℕ → ℕ → Decoding (Items × ℕ)
  decode_items fuel zero bytes pos = ok (nil, pos)
  decode_items zero (suc n) bytes pos = err no_fuel
  decode_items (suc fuel) (suc n) bytes pos = do
    at ← slice_from bytes pos
    (v, used) ← decode_recursive fuel at
    (vs, stop) ← decode_items fuel n bytes (pos + used)
    ok (cons v vs, stop)

  pub decode_fields : ℕ → ℕ → List ℕ → ℕ → Fields → Decoding (Fields × ℕ)
  decode_fields fuel zero bytes pos m = ok (m, pos)
  decode_fields zero (suc n) bytes pos m = err no_fuel
  decode_fields (suc fuel) (suc n) bytes pos m = do
    (k, start) ← decode_key bytes pos
    at ← slice_from bytes start
    (v, used) ← decode_recursive fuel at
    decode_fields fuel n bytes (start + used) (insert_field k v m)

unfoldable pub decode : List ℕ → Decoding PropertyValue
decode bytes = do (value, used) ← decode_recursive (suc (2 * length bytes + 1)) bytes; ok value
