-- ===== src/Api/Codec.antt =====
-- `PropertyValue::encode` and the error type of `decode` of nervusdb-api/src/lib.rs. A failed `expect`
-- panics. `String::from_utf8` is the standard library's test for UTF-8, by its table of lead bytes.
use nervusdb.Base.{ℕ, zero, suc, ◌^◌, Bool, true, false, ◌&&◌, List, [], ◌∷◌, ◌++◌}
use nervusdb.Base.{if◌then◌else◌, ltb, leb, ◌==◌, length}
use nervusdb.Base.{Outcome, ok, panic, ◌>>=◌}
use nervusdb.Base.Bytes.{le_bytes}
use nervusdb.Api.Property.{
  PropertyValue, Items, Fields, null, bool, int, float, string, date_time, blob, list, map, nil,
  cons, end, field,
}

-- `no_fuel` is no value of the source: the recursion of the model ran out of fuel.
pub data DecodeError : Type 0 where
  no_bytes invalid_length invalid_utf8 no_fuel : DecodeError
  unknown_type : ℕ → DecodeError

abbrev pub Decoding : Type 0 → Type 0
Decoding = Outcome DecodeError

-- How many continuation bytes follow a lead byte, and the range of the first of them; none is bad.
abbrev lead_bytes : ℕ → Bool × ℕ × ℕ × ℕ
lead_bytes b =
    if ltb b 0x80
    then (true, 0, 0, 0)
    else if leb 0xc2 b && leb b 0xdf
    then (true, 1, 0x80, 0xbf)
    else if b == 0xe0
    then (true, 2, 0xa0, 0xbf)
    else if b == 0xed
    then (true, 2, 0x80, 0x9f)
    else if leb 0xe1 b && leb b 0xef
    then (true, 2, 0x80, 0xbf)
    else if b == 0xf0
    then (true, 3, 0x90, 0xbf)
    else if leb 0xf1 b && leb b 0xf3
    then (true, 3, 0x80, 0xbf)
    else if b == 0xf4
    then (true, 3, 0x80, 0x8f)
    else (false, 0, 0, 0)

unfoldable pub utf8_from : ℕ → ℕ → ℕ → List ℕ → Bool
utf8_from zero lo hi [] = true
utf8_from (suc n) lo hi [] = false
utf8_from zero lo hi (b ∷ bs) =
    let (good, n, lo', hi') = lead_bytes b in let rest = utf8_from n lo' hi' bs in good && rest
utf8_from (suc n) lo hi (b ∷ bs) =
    let rest = utf8_from n 0x80 0xbf bs in leb lo b && leb b hi && rest

unfoldable pub is_utf8 : List ℕ → Bool
unfolding utf8_from
is_utf8 bs = utf8_from 0 0 0 bs

-- `u32::try_from(len).expect(..)`, then its four bytes
unfoldable pub len_bytes : {E : Type 0} → ℕ → Outcome E (List ℕ)
len_bytes n = if ltb n (2 ^ 32) then ok (le_bytes 4 n) else panic

abbrev pub count_items : Items → ℕ
count_items nil = 0
count_items (cons v vs) = suc (count_items vs)

abbrev pub count_fields : Fields → ℕ
count_fields end = 0
count_fields (field k v fs) = suc (count_fields fs)

-- `encode` never returns an error; it may panic.
unfoldable mutual
  unfolding len_bytes

  pub encode : {E : Type 0} → PropertyValue → Outcome E (List ℕ)
  encode null = ok (0 ∷ [])
  encode (bool b) = ok (1 ∷ (if b then 1 else 0) ∷ [])
  encode (int i) = ok (2 ∷ le_bytes 8 i)
  encode (float f) = ok (3 ∷ le_bytes 8 f)
  encode (string s) = do n ← len_bytes (length s); ok (4 ∷ (n ++ s))
  encode (date_time i) = ok (5 ∷ le_bytes 8 i)
  encode (blob b) = do n ← len_bytes (length b); ok (6 ∷ (n ++ b))
  encode (list l) = do n ← len_bytes (count_items l); items ← encode_items l; ok (7 ∷ (n ++ items))
  encode (map m) = do
    n ← len_bytes (count_fields m)
    entries ← encode_fields m
    ok (8 ∷ (n ++ entries))

  pub encode_items : {E : Type 0} → Items → Outcome E (List ℕ)
  encode_items nil = ok []
  encode_items (cons v vs) = do x ← encode v; xs ← encode_items vs; ok (x ++ xs)

  pub encode_fields : {E : Type 0} → Fields → Outcome E (List ℕ)
  encode_fields end = ok []
  encode_fields (field k v fs) = do
    n ← len_bytes (length k)
    x ← encode v
    xs ← encode_fields fs
    ok (n ++ (k ++ (x ++ xs)))
