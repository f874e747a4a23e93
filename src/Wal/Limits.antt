-- ===== src/Wal/Limits.antt =====
-- Where the two sides of the log disagree: a record that is written and never read back, and a manifest
-- that is too short for its last word.
use nervusdb.Base.{
  ℕ, zero, suc, ◌-◌, ◌+◌, ◌*◌, ◌^◌, ◌<◌, ◌≤◌, ◌≡◌, refl, true, false, List, [], ◌∷◌, ◌++◌, arith,
}
use nervusdb.Base.{leb, ltb, length, take, drop}
use nervusdb.Base.{ok, err, panic}
use nervusdb.Base.Bytes.{slice, from_le_bytes}
use nervusdb.Api.Words.{fits}
use nervusdb.Api.Decode.{u32_at, u64_at}
use nervusdb.Error.{Error, wal_record_too_large}
use nervusdb.Wal.{WalRecord, SegmentPointer, encode_body}
use nervusdb.Wal.Decode.{decode_segments, decode_manifest_switch}
use nervusdb.Wal.Log.{max_wal_record_len, frame, append, next_record}
use nervusdb.Wal.Framing.{next_record-too_large}

-- A record whose body is longer than 1 MB (and shorter than 4 GB) is appended without an error, and the
-- reader answers with an error when it comes to it.
pub append-next_record-too_large :
    (crc32 : List ℕ → ℕ) (crc32_fits : (bytes : List ℕ) → crc32 bytes < 2 ^ 32) (file : List ℕ)
    (r : WalRecord) (body rest : List ℕ) (offset : ℕ)
    → encode_body r ≡ ok body
    → max_wal_record_len < length body
    → length body < 2 ^ 32
    → (append crc32 file r ≡ ok (length file, file ++ frame crc32 body))
      × (next_record crc32 (record { file = frame crc32 body ++ rest; offset = offset })
          ≡ err (wal_record_too_large (length body)))
unfolding append
append-next_record-too_large crc32 crc32_fits file r body rest offset e large short =
    let fit : ltb (length body) (2 ^ 32) ≡ true = ground arith in
    (rw (e, fit) refl, next_record-too_large crc32 crc32_fits offset body rest large short)

module _ (payload : List ℕ) where
  u64_at-ok : (a : ℕ) → a + 8 ≤ length payload → (v : ℕ) × (u64_at {E = Error} payload a ≡ ok v)
  unfolding u64_at slice
  u64_at-ok a h =
      (from_le_bytes (take (a + 8 - a) (drop a payload)), rw (fits {a = a + 8} payload h) refl)

  u64_at-panic : (a : ℕ) → length payload < a + 8 → u64_at {E = Error} payload a ≡ panic
  unfolding u64_at slice
  u64_at-panic a h =
      let short : leb (a + 8) (length payload) ≡ false = ground arith in rw short refl

  decode_segments-ok :
      (count offset : ℕ)
      → offset + count * 16 ≤ length payload
      → (segs : List SegmentPointer) × (decode_segments count payload offset ≡ ok segs)
  unfolding decode_segments
  decode_segments-ok zero offset h = ([], refl)
  decode_segments-ok (suc count) offset h =
      let (id, e₁) = u64_at-ok offset (omega arith) in
      let (meta, e₂) = u64_at-ok (offset + 8) (omega arith) in
      let (segs, e₃) = decode_segments-ok count (offset + 16) (omega arith) in
      (record { id = id; meta_page_id = meta } ∷ segs, rw (e₁, e₂, e₃) refl)

-- A manifest switch of `count` segments whose payload ends before the word of `stats_root` does, though
-- behind the word before it, passes the length checks and then panics.
pub decode_manifest_switch-panic :
    (payload : List ℕ) (count : ℕ)
    → u32_at {E = Error} payload 8 ≡ ok count
    → 28 ≤ length payload
    → 12 + count * 16 + 8 ≤ length payload
    → length payload < 12 + count * 16 + 16
    → decode_manifest_switch payload ≡ panic
unfolding decode_manifest_switch
decode_manifest_switch-panic payload count c head long short =
    let (epoch, e₁) = u64_at-ok payload 0 (omega arith) in
    let (segs, e₂) = decode_segments-ok payload count 12 (omega arith) in
    let (props, e₃) = u64_at-ok payload (12 + count * 16) long in
    rw
      (
        fits {a = 28} payload head,
        e₁,
        c,
        fits {a = 12 + count * 16 + 8} payload long,
        e₂,
        e₃,
        u64_at-panic payload (12 + count * 16 + 8) (omega arith),
      )
      refl
