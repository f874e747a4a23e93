-- ===== src/OrderedKey.antt =====
-- nervusdb-storage/src/index/ordered_key.rs: index keys whose byte order is the order of the values.
pub mod Order
pub mod Values
use nervusdb.Base.{ℕ, ◌+◌, ◌-◌, ◌^◌, List, [], ◌∷◌, ◌++◌}
use nervusdb.Base.{if◌then◌else◌, ltb, ◌==◌}
use nervusdb.Base.Bytes.{be_bytes}
use nervusdb.Api.Property.{
  PropertyValue, null, bool, int, float, string, date_time, blob, list, map,
}

-- `bits ^ (1 << 63)` on 64 bits
abbrev pub flip_sign : ℕ → ℕ
flip_sign bits = if ltb bits (2 ^ 63) then bits + 2 ^ 63 else bits - 2 ^ 63

-- `!bits` on 64 bits
abbrev pub invert : ℕ → ℕ
invert bits = 2 ^ 64 - 1 - bits

-- `0x00` is followed by `0xFF`; two zero bytes end the string.
unfoldable pub stuff : List ℕ → List ℕ
stuff [] = 0 ∷ 0 ∷ []
stuff (b ∷ bs) = let rest = stuff bs in if b == 0 then 0 ∷ 0xff ∷ rest else b ∷ rest

unfoldable pub encode_ordered_value : PropertyValue → List ℕ
unfolding stuff be_bytes
encode_ordered_value null = 0 ∷ []
encode_ordered_value (bool b) = 1 ∷ (if b then 1 else 0) ∷ []
encode_ordered_value (int i) = 2 ∷ be_bytes 8 (flip_sign i)
encode_ordered_value (float f) = 3 ∷ be_bytes 8 (if ltb f (2 ^ 63) then flip_sign f else invert f)
encode_ordered_value (string s) = 4 ∷ stuff s
encode_ordered_value (date_time i) = 5 ∷ be_bytes 8 (flip_sign i)
encode_ordered_value (blob b) = 6 ∷ stuff b
encode_ordered_value (list l) = 7 ∷ []
encode_ordered_value (map m) = 8 ∷ []

unfoldable pub encode_index_key : ℕ → PropertyValue → ℕ → List ℕ
unfolding encode_ordered_value
encode_index_key index_id v internal_node_id =
    be_bytes 4 index_id ++ (encode_ordered_value v ++ be_bytes 8 internal_node_id)
