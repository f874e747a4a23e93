-- ===== src/Api/Depth.antt =====
-- The fuel that decoding takes, against the length of the encoding.
use nervusdb.Base.{ℕ, ◌*◌, ◌<◌, ◌≤◌, ◌≡◌, List, [], ◌∷◌, ◌++◌, arith}
use nervusdb.Base.{if◌then◌else◌, length, length-append}
use nervusdb.Base.{ok, ◌>>=◌, >>=-eq-ok}
use nervusdb.Base.Bytes.{le_bytes}
use nervusdb.Api.Property.{
  PropertyValue, Items, Fields, null, bool, int, float, string, date_time, blob, list, map, nil,
  cons, end, field,
}
use nervusdb.Api.Codec.{len_bytes, encode, encode_items, encode_fields, count_items, count_fields}
use nervusdb.Api.Storable.{depth, depth_items, depth_fields}

-- The encoding of a value has more than half as many bytes as its decoding takes fuel.
mutual
  unfolding encode

  pub depth-lt :
      {E : Type 0} (v : PropertyValue) (bs : List ℕ)
      → encode {E = E} v ≡ ok bs
      → depth v < 2 * length bs
  depth-lt null bs h = let e : 0 ∷ [] ≡ bs = cc in rw (← e) (omega arith)
  depth-lt (bool b) bs h = let e : 1 ∷ (if b then 1 else 0) ∷ [] ≡ bs = cc in rw (← e) (omega arith)
  depth-lt (int i) bs h = let e : 2 ∷ le_bytes 8 i ≡ bs = cc in rw (← e) (omega arith)
  depth-lt (float i) bs h = let e : 3 ∷ le_bytes 8 i ≡ bs = cc in rw (← e) (omega arith)
  depth-lt (date_time i) bs h = let e : 5 ∷ le_bytes 8 i ≡ bs = cc in rw (← e) (omega arith)
  depth-lt (string t) bs h =
      let (n, en, eb) = >>=-eq-ok (len_bytes (length t)) (λ n. ok (4 ∷ (n ++ t))) h in
      let e : 4 ∷ (n ++ t) ≡ bs = cc in rw (← e) (omega arith)
  depth-lt (blob t) bs h =
      let (n, en, eb) = >>=-eq-ok (len_bytes (length t)) (λ n. ok (6 ∷ (n ++ t))) h in
      let e : 6 ∷ (n ++ t) ≡ bs = cc in rw (← e) (omega arith)
  depth-lt (list l) bs h =
      let (n, en, h') =
        >>=-eq-ok (len_bytes (count_items l))
          (λ n. encode_items l >>= λ items. ok (7 ∷ (n ++ items))) h in
      let (items, ei, eb) = >>=-eq-ok (encode_items l) (λ items. ok (7 ∷ (n ++ items))) h' in
      let e : 7 ∷ (n ++ items) ≡ bs = cc in
      rw (← e) (omega (arith, depth_items-le l items ei, length-append {0} n items))
  depth-lt (map m) bs h =
      let (n, en, h') =
        >>=-eq-ok (len_bytes (count_fields m))
          (λ n. encode_fields m >>= λ entries. ok (8 ∷ (n ++ entries))) h in
      let (entries, ei, eb) = >>=-eq-ok (encode_fields m) (λ entries. ok (8 ∷ (n ++ entries))) h' in
      let e : 8 ∷ (n ++ entries) ≡ bs = cc in
      rw (← e) (omega (arith, depth_fields-le m entries ei, length-append {0} n entries))

  pub depth_items-le :
      {E : Type 0} (vs : Items) (bs : List ℕ)
      → encode_items {E = E} vs ≡ ok bs
      → depth_items vs ≤ 2 * length bs
  depth_items-le nil bs h = omega arith
  depth_items-le (cons v vs) bs h =
      let (x, ex, h') = >>=-eq-ok (encode v) (λ x. encode_items vs >>= λ xs. ok (x ++ xs)) h in
      let (xs, exs, eb) = >>=-eq-ok (encode_items vs) (λ xs. ok (x ++ xs)) h' in
      let e : x ++ xs ≡ bs = cc in
      rw (← e) (omega (arith, depth-lt v x ex, depth_items-le vs xs exs, length-append {0} x xs))

  pub depth_fields-le :
      {E : Type 0} (fs : Fields) (bs : List ℕ)
      → encode_fields {E = E} fs ≡ ok bs
      → depth_fields fs ≤ 2 * length bs
  depth_fields-le end bs h = omega arith
  depth_fields-le (field k v fs) bs h =
      let (n, en, h₁) =
        >>=-eq-ok (len_bytes (length k))
          (λ n. encode v >>= λ x. encode_fields fs >>= λ xs. ok (n ++ (k ++ (x ++ xs)))) h in
      let (x, ex, h₂) =
        >>=-eq-ok (encode v) (λ x. encode_fields fs >>= λ xs. ok (n ++ (k ++ (x ++ xs)))) h₁ in
      let (xs, exs, eb) = >>=-eq-ok (encode_fields fs) (λ xs. ok (n ++ (k ++ (x ++ xs)))) h₂ in
      let e : n ++ (k ++ (x ++ xs)) ≡ bs = cc in
      rw (← e) (
        omega (
          arith,
          depth-lt v x ex,
          depth_fields-le fs xs exs,
          length-append {0} n (k ++ (x ++ xs)),
          length-append {0} k (x ++ xs),
          length-append {0} x xs,
        ))
