-- ===== src/Wal/Replay.antt =====
-- Reading a whole log: what the reader makes of the records that were appended, and of a torn one behind
-- them.
use mathlib.Core.List.{append_assoc, append-nil}
use nervusdb.Base.{
  ℕ, zero, suc, ◌+◌, ◌^◌, ◌<◌, ◌≤◌, ◌≡◌, refl, ap, sym, ◌∙◌, List, [], ◌∷◌, ◌++◌, none, some,
  Option, arith,
}
use nervusdb.Base.{All, ltb, length, length-append}
use nervusdb.Base.{ok, err, panic, ◌>>=◌, >>=-eq-ok, guard}
use nervusdb.Error.{Storage, wal_record_too_large}
use nervusdb.Wal.{WalRecord, encode_body, u32_max}
use nervusdb.Wal.Loggable.{IsLoggable}
use nervusdb.Wal.RoundTrip.{decode_body-encode_body}
use nervusdb.Wal.Log.{max_wal_record_len, frame, append, append_all, next_record, after, read_log}
use nervusdb.Wal.Framing.{length-frame, next_record-frame}

abbrev body_len : Storage (List ℕ) → ℕ
body_len (ok body) = length body
body_len (err e) = 0
body_len panic = 0

-- A record that the reader takes: its fields fit, and it has 1 MB at most.
abbrev pub IsReadable : WalRecord → Type 0
IsReadable r = IsLoggable r × (body_len (encode_body r) ≤ max_wal_record_len)

-- One step for each record, up to the first error.
abbrev pub steps : {S : Type 0} → (S → WalRecord → Storage S) → S → List WalRecord → Storage S
steps step s [] = ok s
steps step s (r ∷ rs) = step s r >>= λ s'. steps step s' rs

module _ (crc32 : List ℕ → ℕ) where
  -- The bytes of the records' frames.
  abbrev pub Frames : List WalRecord → List ℕ → Type 0
  Frames [] bs = bs ≡ []
  Frames (r ∷ rs) bs =
      (body : List ℕ) × (rest : List ℕ) × (encode_body r ≡ ok body)
      × (bs ≡ frame crc32 body ++ rest)
      × Frames rs rest

  append-eq_ok :
      (file : List ℕ) (r : WalRecord) (p : ℕ × List ℕ)
      → append crc32 file r ≡ ok p
      → (body : List ℕ) × (encode_body r ≡ ok body) × (p.1 ≡ file ++ frame crc32 body)
  unfolding append
  append-eq_ok file r p h =
      let (body, e, h₁) =
        >>=-eq-ok (encode_body r)
          (λ body. guard (ltb (length body) (2 ^ 32)) (wal_record_too_large u32_max) >>= λ _.
            ok (length file, file ++ frame crc32 body))
          h in
      let (u, g, h₂) =
        >>=-eq-ok (guard (ltb (length body) (2 ^ 32)) (wal_record_too_large u32_max))
          (λ _. ok (length file, file ++ frame crc32 body)) h₁ in
      let q : (length file, file ++ frame crc32 body) ≡ p = cc in (body, e, sym (ap (λ p. p.1) q))

  pub append_all-eq_ok :
      (file : List ℕ) (rs : List WalRecord) (log : List ℕ)
      → append_all crc32 file rs ≡ ok log
      → (bs : List ℕ) × (log ≡ file ++ bs) × Frames rs bs
  unfolding append_all
  append_all-eq_ok file [] log h =
      let e : file ≡ log = cc in ([], sym e ∙ sym (append-nil file), refl)
  append_all-eq_ok file (r ∷ rs) log h =
      let (p, ep, h') = >>=-eq-ok (append crc32 file r) (λ p. append_all crc32 p.1 rs) h in
      let (body, eb, e₁) = append-eq_ok file r p ep in
      let (bs, e₂, f) = append_all-eq_ok p.1 rs log h' in
      (
        frame crc32 body ++ bs,
        e₂ ∙ (ap (λ t. t ++ bs) e₁ ∙ append_assoc file (frame crc32 body) bs),
        (body, bs, eb, refl, f),
      )

  module _ {S : Type 0} (step : S → WalRecord → Storage S) where
    after-bind :
        (k : S → Option (Storage S)) (f : S → Storage S) (o : Storage S)
        → ((s : S) → k s ≡ some (f s))
        → after crc32 step k o ≡ some (o >>= f)
    after-bind k f (ok s) h = h s
    after-bind k f (err e) h = refl
    after-bind k f panic h = refl

    -- Frames with the end of a log behind them are read record by record.
    pub read_log-Frames :
        (crc32_fits : (bytes : List ℕ) → crc32 bytes < 2 ^ 32) (tail : List ℕ)
        (stops : (offset : ℕ)
          → next_record crc32 (record { file = tail; offset = offset }) ≡ ok none)
        (rs : List WalRecord) (bs : List ℕ) (fuel offset : ℕ) (s : S)
        → All IsReadable rs
        → Frames rs bs
        → length bs < fuel
        → read_log crc32 step fuel (record { file = bs ++ tail; offset = offset }) s
          ≡ some (steps step s rs)
    unfolding read_log
    read_log-Frames fits tail stops [] bs (suc fuel) offset s a f h = rw (f, stops offset) refl
    read_log-Frames fits tail stops (r ∷ rs) bs (suc fuel) offset s a (body, rest, e, eq, f) h =
        let small : length body ≤ max_wal_record_len = rw e at a.0.1 in
        let read =
          next_record-frame crc32 fits body small offset r (rest ++ tail)
            (decode_body-encode_body r body a.0.0 e) in
        let less : length rest < fuel = omega (
          arith,
          length-append {0} (frame crc32 body) rest,
          length-frame crc32 fits body,
          ap length eq,
        ) in
        rw (eq, append_assoc (frame crc32 body) rest tail, read)
          (after-bind
            (read_log crc32 step fuel
              (record { file = rest ++ tail; offset = offset + (4 + 4 + length body) }))
            (λ s'. steps step s' rs) (step s r)
            (λ s'.
              read_log-Frames fits tail stops rs rest fuel (offset + (4 + 4 + length body)) s' a.1 f
                less))
    read_log-Frames fits tail stops rs bs zero offset s a f h = absurd (omega arith)
