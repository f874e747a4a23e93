-- ===== src/Wal/Framing.antt =====
-- One record of the log: read behind what was read, cut short, or too large.
use mathlib.Core.List.{append_assoc, append-nil}
use nervusdb.Base.{
  ℕ, zero, suc, ◌-◌, ◌+◌, ◌^◌, ◌<◌, ◌≤◌, ◌≡◌, refl, ap, ◌∙◌, true, false, List, [], ◌∷◌, ◌++◌, none,
  some, arith,
}
use nervusdb.Base.{leb, ltb, ==_refl, length, length-append, take, drop, take-append, drop-append}
use nervusdb.Base.{ok, err}
use nervusdb.Base.Bytes.{
  Word, words, le_bytes, length-le_bytes, from_le_bytes-le_bytes, length-words,
}
use nervusdb.Error.{wal_record_too_large}
use native.Mathlib.Decide.{dec_lt}
use Prim.Native.Nat.add
use nervusdb.Wal.Decode.{decode_body}
use nervusdb.Wal.{WalRecord}
use nervusdb.Wal.Log.{
  try_read_u32, max_wal_record_len, frame, next_body, next_crc, next_len, next_record,
}

pub try_read_u32-le_bytes :
    (v : ℕ) (rest : List ℕ) → v < 2 ^ 32 → try_read_u32 (le_bytes 4 v ++ rest) ≡ some (v, rest)
unfolding try_read_u32
try_read_u32-le_bytes v rest h =
    let long : leb 4 (length (le_bytes 4 v ++ rest)) ≡ true =
      ground (arith, length-append {0} (le_bytes 4 v) rest, length-le_bytes 4 v) in
    let n = length-le_bytes 4 v in
    let t : take 4 (le_bytes 4 v ++ rest) ≡ le_bytes 4 v =
      rw n at (take-append (le_bytes 4 v) rest) in
    let d : drop 4 (le_bytes 4 v ++ rest) ≡ rest = rw n at (drop-append (le_bytes 4 v) rest) in
    rw (long, t, d, from_le_bytes-le_bytes 4 v h) refl

pub try_read_u32-short : (file : List ℕ) → length file < 4 → try_read_u32 file ≡ none
unfolding try_read_u32
try_read_u32-short file h = ground arith

length-take_le : {A : Type 0} (k : ℕ) (xs : List A) → length (take k xs) ≤ k
length-take_le zero xs = omega arith
length-take_le (suc k) [] = omega arith
length-take_le (suc k) (x ∷ xs) = omega (arith, length-take_le k xs)

take-append_ge :
    {A : Type 0} (xs ys : List A) (n k : ℕ)
    → length xs ≡ n
    → take (n + k) (xs ++ ys) ≡ xs ++ take k ys
take-append_ge [] ys n k e = rw (← e, add.zero) refl
take-append_ge (x ∷ xs) ys n k e =
    rw (← e, add.suc) (ap (λ t. x ∷ t) (take-append_ge xs ys (length xs) k refl))

module _ (crc32 : List ℕ → ℕ) (crc32_fits : (bytes : List ℕ) → crc32 bytes < 2 ^ 32) where
  frame_eq :
      (body rest : List ℕ)
      → frame crc32 body ++ rest
        ≡ le_bytes 4 (length body) ++ (le_bytes 4 (crc32 body) ++ (body ++ rest))
  unfolding frame words
  frame_eq body rest =
      let n = le_bytes 4 (length body) in
      let c = le_bytes 4 (crc32 body) in
      append_assoc (n ++ (c ++ [])) body rest
      ∙ (append_assoc n (c ++ []) (body ++ rest)
          ∙ ap (λ t. n ++ (t ++ (body ++ rest))) (append-nil c))

  pub length-frame : (body : List ℕ) → length (frame crc32 body) ≡ 8 + length body
  unfolding frame
  length-frame body =
      let ws : List Word = (4, length body) ∷ (4, crc32 body) ∷ [] in
      omega (arith, length-append {0} (words ws) body, length-words ws)

  next_body-whole :
      (offset : ℕ) (r : WalRecord) (body rest : List ℕ)
      → decode_body body ≡ ok r
      → next_body crc32 offset (length body) (crc32 body) (body ++ rest)
        ≡ ok (some (offset, r, record { file = rest; offset = offset + (4 + 4 + length body) }))
  unfolding next_body
  next_body-whole offset r body rest d =
      let long : leb (length body) (length (body ++ rest)) ≡ true =
        ground (arith, length-append {0} body rest) in
      rw (long, take-append body rest, drop-append body rest, ==_refl (crc32 body), d) refl

  module _ (body : List ℕ) (small : length body ≤ max_wal_record_len) where
    -- A record that was appended is read, and the reader stands behind it.
    pub next_record-frame :
        (offset : ℕ) (r : WalRecord) (rest : List ℕ)
        → decode_body body ≡ ok r
        → next_record crc32 (record { file = frame crc32 body ++ rest; offset = offset })
          ≡ ok (some (offset, r, record { file = rest; offset = offset + (4 + 4 + length body) }))
    unfolding next_record next_len next_crc
    next_record-frame offset r rest d =
        let fit : ltb max_wal_record_len (length body) ≡ false = ground arith in
        rw
          (
            frame_eq body rest,
            try_read_u32-le_bytes (length body) (le_bytes 4 (crc32 body) ++ (body ++ rest))
                (omega arith),
            fit,
            try_read_u32-le_bytes (crc32 body) (body ++ rest) (crc32_fits body),
          )
          (next_body-whole offset r body rest d)

    take-frame_head :
        (j : ℕ)
        → take (4 + j) (frame crc32 body)
          ≡ le_bytes 4 (length body) ++ take j (le_bytes 4 (crc32 body) ++ body)
    take-frame_head j =
        let e : frame crc32 body ≡ le_bytes 4 (length body) ++ (le_bytes 4 (crc32 body) ++ body) =
          rw (append-nil (frame crc32 body), append-nil body) at (frame_eq body []) in
        rw e (
          take-append_ge (le_bytes 4 (length body)) (le_bytes 4 (crc32 body) ++ body) 4 j
            (length-le_bytes 4 (length body)))

    torn_body :
        (offset j : ℕ)
        → j < length body
        → next_body crc32 offset (length body) (crc32 body) (take j body) ≡ ok none
    unfolding next_body
    torn_body offset j h =
        let short : leb (length body) (length (take j body)) ≡ false =
          ground (arith, length-take_le j body) in
        rw short refl

    torn_crc :
        (offset j : ℕ)
        → j < 4 + length body
        → next_crc crc32 offset
            (length body)
            (try_read_u32 (take j (le_bytes 4 (crc32 body) ++ body)))
          ≡ ok none
    unfolding next_crc
    torn_crc offset j h = elim (dec_lt j 4) [
      | yes p ↦
          rw
            (try_read_u32-short (take j (le_bytes 4 (crc32 body) ++ body))
              (omega (arith, length-take_le j (le_bytes 4 (crc32 body) ++ body))))
            refl
      | no p ↦
          let e : 4 + (j - 4) ≡ j = omega arith in
          let t : take j (le_bytes 4 (crc32 body) ++ body)
              ≡ le_bytes 4 (crc32 body) ++ take (j - 4) body =
            rw e at (
              take-append_ge (le_bytes 4 (crc32 body)) body 4 (j - 4)
                (length-le_bytes 4 (crc32 body))) in
          rw (t, try_read_u32-le_bytes (crc32 body) (take (j - 4) body) (crc32_fits body))
            (torn_body offset (j - 4) (omega arith))
    ]

    -- A record of which only the first `k` bytes reached the file is the end of the log.
    pub next_record-torn :
        (offset k : ℕ)
        → k < 8 + length body
        → next_record crc32 (record { file = take k (frame crc32 body); offset = offset }) ≡ ok none
    unfolding next_record next_len
    next_record-torn offset k h = elim (dec_lt k 4) [
      | yes p ↦
          rw
            (try_read_u32-short (take k (frame crc32 body))
              (omega (arith, length-take_le k (frame crc32 body))))
            refl
      | no p ↦
          let fit : ltb max_wal_record_len (length body) ≡ false = ground arith in
          let e : 4 + (k - 4) ≡ k = omega arith in
          let t = rw e at (take-frame_head (k - 4)) in
          rw
            (
              t,
              try_read_u32-le_bytes (length body) (take (k - 4) (le_bytes 4 (crc32 body) ++ body))
                  (omega arith),
              fit,
            )
            (torn_crc offset (k - 4) (omega arith))
    ]

  -- A record of more than 1 MB, which `append` accepts, stops the reader with an error.
  pub next_record-too_large :
      (offset : ℕ) (body rest : List ℕ)
      → max_wal_record_len < length body
      → length body < 2 ^ 32
      → next_record crc32 (record { file = frame crc32 body ++ rest; offset = offset })
        ≡ err (wal_record_too_large (length body))
  unfolding next_record next_len
  next_record-too_large offset body rest large h =
      let over : ltb max_wal_record_len (length body) ≡ true = ground arith in
      rw
        (
          frame_eq body rest,
          try_read_u32-le_bytes (length body) (le_bytes 4 (crc32 body) ++ (body ++ rest)) h,
          over,
        )
        refl
