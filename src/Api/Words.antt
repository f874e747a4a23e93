-- ===== src/Api/Words.antt =====
-- Reading back the fixed-width words, counts and strings that the encoders wrote.
use nervusdb.Base.{ℕ, ◌+◌, ◌^◌, ◌<◌, ◌≤◌, ◌≡◌, refl, ap, true, List, [], ◌∷◌, ◌++◌, arith}
use mathlib.Core.List.{append_assoc}
use nervusdb.Base.{leb, length, length-append}
use nervusdb.Base.{ok}
use nervusdb.Base.Bytes.{le_bytes, slice, slice-append, length-le_bytes, from_le_bytes-le_bytes}
use nervusdb.Api.Property.{PropertyValue, string, blob}
use nervusdb.Api.Codec.{len_bytes, is_utf8}
use nervusdb.Api.Decode.{
  u32_at, u64_at, decode_word, decode_string, decode_blob, decode_count, decode_key,
}

module _ {E : Type 0} (pre post : List ℕ) (a v : ℕ) (at : length pre ≡ a) where
  pub u32_at-le_bytes : v < 2 ^ 32 → u32_at {E = E} (pre ++ (le_bytes 4 v ++ post)) a ≡ ok v
  unfolding u32_at
  u32_at-le_bytes h =
      let s =
        slice-append {E = E} pre (le_bytes 4 v) post a (a + 4) at
          (omega (arith, length-le_bytes 4 v)) in
      rw s (ap ok (from_le_bytes-le_bytes 4 v h))

  pub u64_at-le_bytes : v < 2 ^ 64 → u64_at {E = E} (pre ++ (le_bytes 8 v ++ post)) a ≡ ok v
  unfolding u64_at
  u64_at-le_bytes h =
      let s =
        slice-append {E = E} pre (le_bytes 8 v) post a (a + 8) at
          (omega (arith, length-le_bytes 8 v)) in
      rw s (ap ok (from_le_bytes-le_bytes 8 v h))

pub fits : {a : ℕ} (bytes : List ℕ) → a ≤ length bytes → leb a (length bytes) ≡ true
fits bytes h = ground arith

-- A length that was encoded fits, and stands there as four bytes.
pub len_bytes-eq_ok :
    {E : Type 0} (n : ℕ) (bs : List ℕ)
    → len_bytes {E = E} n ≡ ok bs
    → (bs ≡ le_bytes 4 n) × (n < 2 ^ 32)
unfolding len_bytes
len_bytes-eq_ok n bs h = (ground arith, ground arith)

pub decode_word-le_bytes :
    (make : ℕ → PropertyValue) (ty i : ℕ) (rest : List ℕ)
    → i < 2 ^ 64
    → decode_word make (ty ∷ (le_bytes 8 i ++ rest)) ≡ ok (make i, 9)
unfolding decode_word
decode_word-le_bytes make ty i rest h =
    let long =
      fits {a = 9} (ty ∷ (le_bytes 8 i ++ rest))
        (omega (arith, length-append {0} (le_bytes 8 i) rest, length-le_bytes 8 i)) in
    rw (long, u64_at-le_bytes (ty ∷ []) rest 1 i refl h) refl

-- A length, as four bytes, and the bytes that it counts.
abbrev pub counted : List ℕ → List ℕ
counted s = le_bytes 4 (length s) ++ s

pub length-counted : (s rest : List ℕ) → length (counted s ++ rest) ≡ 4 + length s + length rest
length-counted s rest = omega (
  arith,
  length-append {0} (counted s) rest,
  length-append {0} (le_bytes 4 (length s)) s,
  length-le_bytes 4 (length s),
)

module _ (s rest : List ℕ) (short : length s < 2 ^ 32) (pre : List ℕ) (a : ℕ)
    (at : length pre ≡ a) where
  -- The length is read, and then the bytes.
  counted-len : {E : Type 0} → u32_at {E = E} (pre ++ (counted s ++ rest)) a ≡ ok (length s)
  counted-len = rw append_assoc (u32_at-le_bytes pre (s ++ rest) a (length s) at short)

  counted-slice :
      {E : Type 0} → slice {E = E} (pre ++ (counted s ++ rest)) (a + 4) (a + 4 + length s) ≡ ok s
  counted-slice =
      rw
        (
          append_assoc (le_bytes 4 (length s)) s rest,
          ← append_assoc pre (le_bytes 4 (length s)) (s ++ rest),
        )
        (slice-append (pre ++ le_bytes 4 (length s)) s rest (a + 4) (a + 4 + length s)
          (omega
            (arith, length-append {0} pre (le_bytes 4 (length s)), length-le_bytes 4 (length s)))
          refl)

  counted-fits : leb (a + 4 + length s) (length (pre ++ (counted s ++ rest))) ≡ true
  counted-fits =
      fits (pre ++ (counted s ++ rest))
        (omega (arith, length-append {0} pre (counted s ++ rest), length-counted s rest))

  counted-head_fits : leb (a + 4) (length (pre ++ (counted s ++ rest))) ≡ true
  counted-head_fits =
      fits (pre ++ (counted s ++ rest))
        (omega (arith, length-append {0} pre (counted s ++ rest), length-counted s rest))

  pub decode_key-counted :
      is_utf8 s ≡ true → decode_key (pre ++ (counted s ++ rest)) a ≡ ok (s, a + 4 + length s)
  unfolding decode_key
  decode_key-counted u = rw (counted-head_fits, counted-len, counted-fits, counted-slice, u) refl

module _ (s rest : List ℕ) (short : length s < 2 ^ 32) (ty : ℕ) where
  pub decode_blob-counted : decode_blob (ty ∷ (counted s ++ rest)) ≡ ok (blob s, 5 + length s)
  unfolding decode_blob
  decode_blob-counted =
      rw
        (
          counted-head_fits s rest short (ty ∷ []) 1 refl,
          counted-len s rest short (ty ∷ []) 1 refl,
          counted-fits s rest short (ty ∷ []) 1 refl,
          counted-slice s rest short (ty ∷ []) 1 refl,
        )
        refl

  pub decode_string-counted :
      is_utf8 s ≡ true → decode_string (ty ∷ (counted s ++ rest)) ≡ ok (string s, 5 + length s)
  unfolding decode_string
  decode_string-counted u =
      rw
        (
          counted-head_fits s rest short (ty ∷ []) 1 refl,
          counted-len s rest short (ty ∷ []) 1 refl,
          counted-fits s rest short (ty ∷ []) 1 refl,
          counted-slice s rest short (ty ∷ []) 1 refl,
          u,
        )
        refl

pub decode_count-le_bytes :
    (n ty : ℕ) (rest : List ℕ) → n < 2 ^ 32 → decode_count (ty ∷ (le_bytes 4 n ++ rest)) ≡ ok n
unfolding decode_count
decode_count-le_bytes n ty rest h =
    let long =
      fits {a = 5} (ty ∷ (le_bytes 4 n ++ rest))
        (omega (arith, length-append {0} (le_bytes 4 n) rest, length-le_bytes 4 n)) in
    rw (long, u32_at-le_bytes (ty ∷ []) rest 1 n refl h) refl
