-- ===== src/Api/RoundTrip.antt =====
-- `decode` reads back what `encode` wrote.
use mathlib.Core.List.{append_assoc}
use nervusdb.Base.{ℕ, zero, suc, ◌+◌, ◌*◌, ◌≤◌, ◌≡◌, refl, ap, ap₂, ◌∙◌, List, [], ◌∷◌, ◌++◌, arith}
use nervusdb.Base.{if◌then◌else◌, length, length-append}
use nervusdb.Base.{ok, ◌>>=◌, >>=-eq-ok}
use nervusdb.Base.Bytes.{le_bytes, length-le_bytes}
use nervusdb.Api.Property.{
  PropertyValue, Items, Fields, null, bool, int, float, string, date_time, blob, list, map, nil,
  cons, end, field,
}
use nervusdb.Api.Codec.{
  DecodeError, len_bytes, encode, encode_items, encode_fields, count_items, count_fields,
}
use nervusdb.Api.Decode.{slice_from, decode_recursive, decode_items, decode_fields, decode}
use nervusdb.Api.Words.{
  len_bytes-eq_ok, counted, decode_word-le_bytes, decode_string-counted, decode_blob-counted,
  decode_key-counted, decode_count-le_bytes,
}
use nervusdb.Api.Storable.{
  Below, IsStorable, AreStorable, AreEntries, depth, depth_items, depth_fields, append_fields,
  insert_field-last, Below-insert, append_fields_assoc, append_fields-end, slice_from-append,
  Decodes, bool-round_trip, depth_pos, headed_end, two_more,
}
use nervusdb.Api.Depth.{depth-lt}

mutual
  unfolding decode_recursive encode

  value-round_trip :
      {E : Type 0} (v : PropertyValue) (fuel : ℕ) (bs rest : List ℕ)
      → encode {E = E} v ≡ ok bs
      → IsStorable v
      → depth v ≤ suc fuel
      → Decodes (suc fuel) v bs rest
  value-round_trip null fuel bs rest h s d = let e : 0 ∷ [] ≡ bs = cc in rw (← e) refl
  value-round_trip (bool b) fuel bs rest h s d =
      let e : 1 ∷ (if b then 1 else 0) ∷ [] ≡ bs = cc in rw (← e) (bool-round_trip fuel b rest)
  value-round_trip (int i) fuel bs rest h s d =
      let e : 2 ∷ le_bytes 8 i ≡ bs = cc in
      rw (← e) (decode_word-le_bytes int 2 i rest s ∙ rw length-le_bytes refl)
  value-round_trip (float i) fuel bs rest h s d =
      let e : 3 ∷ le_bytes 8 i ≡ bs = cc in
      rw (← e) (decode_word-le_bytes float 3 i rest s ∙ rw length-le_bytes refl)
  value-round_trip (date_time i) fuel bs rest h s d =
      let e : 5 ∷ le_bytes 8 i ≡ bs = cc in
      rw (← e) (decode_word-le_bytes date_time 5 i rest s ∙ rw length-le_bytes refl)
  value-round_trip (string t) fuel bs rest h s d =
      let (n, en, eb) = >>=-eq-ok (len_bytes (length t)) (λ n. ok (4 ∷ (n ++ t))) h in
      let (e, short) = len_bytes-eq_ok (length t) n en in
      let eq : 4 ∷ counted t ≡ bs = cc in
      rw (← eq) (
        decode_string-counted t rest short 4 s
        ∙ ap (λ n. ok (string t, n)) (headed_end 4 (length t) t))
  value-round_trip (blob t) fuel bs rest h s d =
      let (n, en, eb) = >>=-eq-ok (len_bytes (length t)) (λ n. ok (6 ∷ (n ++ t))) h in
      let (e, short) = len_bytes-eq_ok (length t) n en in
      let eq : 6 ∷ counted t ≡ bs = cc in
      rw (← eq)
        (decode_blob-counted t rest short 6 ∙ ap (λ n. ok (blob t, n)) (headed_end 6 (length t) t))
  value-round_trip (list l) fuel bs rest h s d =
      let (n, en, h') =
        >>=-eq-ok (len_bytes (count_items l))
          (λ n. encode_items l >>= λ items. ok (7 ∷ (n ++ items))) h in
      let (items, ei, eb) = >>=-eq-ok (encode_items l) (λ items. ok (7 ∷ (n ++ items))) h' in
      let (e, short) = len_bytes-eq_ok (count_items l) n en in
      let head = le_bytes 4 (count_items l) in
      let eq : 7 ∷ (head ++ items) ≡ bs = cc in
      let r =
        items-round_trip l fuel items (7 ∷ head) rest 5 ei s (omega arith)
          (omega (arith, length-le_bytes 4 (count_items l))) in
      let c = decode_count-le_bytes (count_items l) 7 (items ++ rest) short in
      rw (← eq, append_assoc head items rest, c, r)
        (ap (λ n. ok (list l, n)) (headed_end 7 (count_items l) items))
  value-round_trip (map m) fuel bs rest h s d =
      let (n, en, h') =
        >>=-eq-ok (len_bytes (count_fields m))
          (λ n. encode_fields m >>= λ entries. ok (8 ∷ (n ++ entries))) h in
      let (entries, ei, eb) = >>=-eq-ok (encode_fields m) (λ entries. ok (8 ∷ (n ++ entries))) h' in
      let (e, short) = len_bytes-eq_ok (count_fields m) n en in
      let head = le_bytes 4 (count_fields m) in
      let eq : 8 ∷ (head ++ entries) ≡ bs = cc in
      let r =
        fields-round_trip m fuel entries (8 ∷ head) rest 5 end ei s tt (omega arith)
          (omega (arith, length-le_bytes 4 (count_fields m))) in
      let c = decode_count-le_bytes (count_fields m) 8 (entries ++ rest) short in
      rw (← eq, append_assoc head entries rest, c, r)
        (ap (λ n. ok (map m, n)) (headed_end 8 (count_fields m) entries))

  items-round_trip :
      {E : Type 0} (vs : Items) (fuel : ℕ) (bs pre rest : List ℕ) (pos : ℕ)
      → encode_items {E = E} vs ≡ ok bs
      → AreStorable vs
      → depth_items vs ≤ fuel
      → length pre ≡ pos
      → decode_items fuel (count_items vs) (pre ++ (bs ++ rest)) pos ≡ ok (vs, pos + length bs)
  items-round_trip nil zero bs pre rest pos h s d e =
      let eq : [] ≡ bs = cc in rw (← eq) (ap (λ n. ok (nil, n)) (omega arith))
  items-round_trip nil (suc fuel) bs pre rest pos h s d e =
      let eq : [] ≡ bs = cc in rw (← eq) (ap (λ n. ok (nil, n)) (omega arith))
  items-round_trip (cons v vs) fuel bs pre rest pos h s d e =
      let (x, ex, h') = >>=-eq-ok (encode v) (λ x. encode_items vs >>= λ xs. ok (x ++ xs)) h in
      let (xs, exs, eb) = >>=-eq-ok (encode_items vs) (λ xs. ok (x ++ xs)) h' in
      let (g, eg, dg) = two_more (depth v) fuel (depth_pos v) (omega arith) in
      let eq : x ++ xs ≡ bs = cc in
      let tail =
        items-round_trip vs (suc g) xs (pre ++ x) rest (pos + length x) exs s.1 (omega arith)
          (omega (arith, length-append {0} pre x)) in
      rw
        (
          ← eq,
          eg,
          append_assoc x xs rest,
          slice_from-append pre (x ++ (xs ++ rest)) pos e,
          value-round_trip v g x (xs ++ rest) ex s.0 dg,
          ← append_assoc pre x (xs ++ rest),
          tail,
        )
        (ap (λ n. ok (cons v vs, n)) (omega (arith, length-append {0} x xs)))

  fields-round_trip :
      {E : Type 0} (fs : Fields) (fuel : ℕ) (bs pre rest : List ℕ) (pos : ℕ) (m : Fields)
      → encode_fields {E = E} fs ≡ ok bs
      → AreEntries fs
      → Below m fs
      → depth_fields fs ≤ fuel
      → length pre ≡ pos
      → decode_fields fuel (count_fields fs) (pre ++ (bs ++ rest)) pos m
        ≡ ok (append_fields m fs, pos + length bs)
  fields-round_trip end zero bs pre rest pos m h s b d e =
      let eq : [] ≡ bs = cc in rw (← eq, append_fields-end m) (ap (λ n. ok (m, n)) (omega arith))
  fields-round_trip end (suc fuel) bs pre rest pos m h s b d e =
      let eq : [] ≡ bs = cc in rw (← eq, append_fields-end m) (ap (λ n. ok (m, n)) (omega arith))
  fields-round_trip (field k v fs) fuel bs pre rest pos m h s b d e =
      let (n, en, h₁) =
        >>=-eq-ok (len_bytes (length k))
          (λ n. encode v >>= λ x. encode_fields fs >>= λ xs. ok (n ++ (k ++ (x ++ xs)))) h in
      let (x, ex, h₂) =
        >>=-eq-ok (encode v) (λ x. encode_fields fs >>= λ xs. ok (n ++ (k ++ (x ++ xs)))) h₁ in
      let (xs, exs, eb) = >>=-eq-ok (encode_fields fs) (λ xs. ok (n ++ (k ++ (x ++ xs)))) h₂ in
      let (e₁, short) = len_bytes-eq_ok (length k) n en in
      let (g, eg, dg) = two_more (depth v) fuel (depth_pos v) (omega arith) in
      let eq : counted k ++ (x ++ xs) ≡ bs = rw append_assoc (cc) in
      let w = counted k in
      let start = pos + 4 + length k in
      let whole = pre ++ (w ++ (x ++ (xs ++ rest))) in
      let long : length w ≡ 4 + length k =
        omega (arith, length-append {0} (le_bytes 4 (length k)) k, length-le_bytes 4 (length k)) in
      let sl : slice_from whole start ≡ ok (x ++ (xs ++ rest)) =
        rw (append_assoc pre w (x ++ (xs ++ rest))) at (
          slice_from-append {E = DecodeError} (pre ++ w) (x ++ (xs ++ rest)) start
            (omega (arith, length-append {0} pre w))) in
      let m' = append_fields m (field k v end) in
      let tail : decode_fields (suc g) (count_fields fs) whole (start + length x) m'
          ≡ ok (append_fields m' fs, start + length x + length xs) =
        rw (append_assoc (pre ++ w) x (xs ++ rest), append_assoc pre w (x ++ (xs ++ rest))) at
          (fields-round_trip fs (suc g) xs ((pre ++ w) ++ x) rest (start + length x) m' exs s.3
            (Below-insert k v m fs b s.2) (omega arith)
            (omega (arith, length-append {0} (pre ++ w) x, length-append {0} pre w))) in
      rw
        (
          ← eq,
          eg,
          append_assoc w (x ++ xs) rest,
          append_assoc x xs rest,
          decode_key-counted k (x ++ (xs ++ rest)) short pre pos e s.0,
          sl,
          value-round_trip v g x (xs ++ rest) ex s.1 dg,
          insert_field-last k v m fs b,
          tail,
        )
        (ap₂ (λ t n. ok (t, n)) (append_fields_assoc m k v fs)
          (omega (arith, length-append {0} w (x ++ xs), length-append {0} x xs)))

-- A value whose numbers fit 64 bits, whose strings and keys are UTF-8 and whose maps have their keys in
-- ascending order is decoded to itself from its encoding, whatever bytes follow.
pub decode-encode :
    {E : Type 0} (v : PropertyValue) (bs rest : List ℕ)
    → IsStorable v
    → encode {E = E} v ≡ ok bs
    → decode (bs ++ rest) ≡ ok v
unfolding decode
decode-encode v bs rest s h =
    let enough : depth v ≤ suc (2 * length (bs ++ rest) + 1) =
      omega (arith, depth-lt v bs h, length-append {0} bs rest) in
    rw (value-round_trip v (2 * length (bs ++ rest) + 1) bs rest h s enough) refl
