-- ===== src/LogExamples.antt =====
-- Runs of the write-ahead log on small inputs, each an instance of a general theorem.
use nervusdb.Base.{
  ℕ, zero, suc, ◌+◌, ◌*◌, ◌%◌, ◌^◌, ◌<◌, ◌≡◌, refl, true, none, some, List, [], ◌∷◌, ◌++◌, arith,
}
use nervusdb.Base.{All, take, length, length-append, ltb, ok, err, panic}
use nervusdb.Base.Bytes.{le_bytes, words, length-words, slice, from_le_bytes}
use nervusdb.Api.Property.{int}
use nervusdb.Api.Codec.{encode, is_utf8}
use nervusdb.Api.Decode.{u32_at}
use nervusdb.Error.{Error, wal_record_too_large}
use nervusdb.Wal.{
  checkpoint, create_edge, tombstone_node, set_node_property, create_label, encode_body,
}
use nervusdb.Wal.Decode.{decode_body, decode_manifest_switch}
use nervusdb.Wal.Replay.{IsReadable}
use nervusdb.Wal.RoundTrip.{decode_body-encode_body}
use nervusdb.Wal.Log.{
  append, append_all, frame, replay_committed, latest_checkpoint_info, next_record,
  max_wal_record_len,
}
use nervusdb.Wal.Session.{
  Logged, committed, unfinished, committed_txs, records_of, last_checkpoint,
  replay_committed-append_all, latest_checkpoint_info-append_all,
}
use nervusdb.Wal.Limits.{append-next_record-too_large, decode_manifest_switch-panic}

-- A checksum to run the log with.
unfoldable checksum : List ℕ → ℕ
checksum [] = 0
checksum (b ∷ bs) = (b + 3 * checksum bs) % 2 ^ 32

checksum_fits : (bytes : List ℕ) → checksum bytes < 2 ^ 32
unfolding checksum
checksum_fits [] = omega arith
checksum_fits (b ∷ bs) = omega arith

abbrev session : List Logged
session =
    committed 1 (create_edge 1 7 2 ∷ set_node_property 1 (110 ∷ []) (int 5) ∷ [])
    ∷ unfinished 2 (tombstone_node 3 ∷ [])
    ∷ committed 3 (checkpoint 2 1 0 0 ∷ [])
    ∷ []

abbrev log : List ℕ
log =
    9 ∷ 0 ∷ 0 ∷ 0 ∷ 4 ∷ 0 ∷ 0 ∷ 0 ∷ 1 ∷ 1 ∷ 0 ∷ 0 ∷ 0 ∷ 0 ∷ 0 ∷ 0 ∷ 0 ∷ 13 ∷ 0 ∷ 0 ∷ 0 ∷ 116 ∷ 160
    ∷ 0 ∷ 0 ∷ 6 ∷ 1 ∷ 0 ∷ 0 ∷ 0 ∷ 7 ∷ 0 ∷ 0 ∷ 0 ∷ 2 ∷ 0 ∷ 0 ∷ 0 ∷ 19 ∷ 0 ∷ 0 ∷ 0 ∷ 196 ∷ 91 ∷ 48 ∷ 0
    ∷ 11 ∷ 1 ∷ 0 ∷ 0 ∷ 0 ∷ 1 ∷ 0 ∷ 0 ∷ 0 ∷ 110 ∷ 2 ∷ 5 ∷ 0 ∷ 0 ∷ 0 ∷ 0 ∷ 0 ∷ 0 ∷ 0 ∷ 9 ∷ 0 ∷ 0 ∷ 0
    ∷ 5 ∷ 0 ∷ 0 ∷ 0 ∷ 2 ∷ 1 ∷ 0 ∷ 0 ∷ 0 ∷ 0 ∷ 0 ∷ 0 ∷ 0 ∷ 9 ∷ 0 ∷ 0 ∷ 0 ∷ 7 ∷ 0 ∷ 0 ∷ 0 ∷ 1 ∷ 2 ∷ 0
    ∷ 0 ∷ 0 ∷ 0 ∷ 0 ∷ 0 ∷ 0 ∷ 5 ∷ 0 ∷ 0 ∷ 0 ∷ 16 ∷ 0 ∷ 0 ∷ 0 ∷ 7 ∷ 3 ∷ 0 ∷ 0 ∷ 0 ∷ 9 ∷ 0 ∷ 0 ∷ 0
    ∷ 10 ∷ 0 ∷ 0 ∷ 0 ∷ 1 ∷ 3 ∷ 0 ∷ 0 ∷ 0 ∷ 0 ∷ 0 ∷ 0 ∷ 0 ∷ 33 ∷ 0 ∷ 0 ∷ 0 ∷ 243 ∷ 76 ∷ 0 ∷ 0 ∷ 10
    ∷ 2 ∷ 0 ∷ 0 ∷ 0 ∷ 0 ∷ 0 ∷ 0 ∷ 0 ∷ 1 ∷ 0 ∷ 0 ∷ 0 ∷ 0 ∷ 0 ∷ 0 ∷ 0 ∷ 0 ∷ 0 ∷ 0 ∷ 0 ∷ 0 ∷ 0 ∷ 0 ∷ 0
    ∷ 0 ∷ 0 ∷ 0 ∷ 0 ∷ 0 ∷ 0 ∷ 0 ∷ 0 ∷ 9 ∷ 0 ∷ 0 ∷ 0 ∷ 11 ∷ 0 ∷ 0 ∷ 0 ∷ 2 ∷ 3 ∷ 0 ∷ 0 ∷ 0 ∷ 0 ∷ 0 ∷ 0
    ∷ 0 ∷ []

log_written : append_all checksum [] (records_of session) ≡ ok log
unfolding append_all checksum le_bytes words frame encode encode_body
log_written = refl

-- All of the session's records have few bytes.
session-IsReadable : All IsReadable (records_of session)
unfolding encode_body le_bytes words encode is_utf8
session-IsReadable = (
  (omega arith, omega arith),
  (
    ((omega arith, omega arith, omega arith), omega arith),
    (
      ((omega arith, refl, omega arith), omega arith),
      (
        (omega arith, omega arith),
        (
          (omega arith, omega arith),
          (
            (omega arith, omega arith),
            (
              (omega arith, omega arith),
              (
                ((omega arith, omega arith, omega arith, omega arith), omega arith),
                ((omega arith, omega arith), tt),
              ),
            ),
          ),
        ),
      ),
    ),
  ),
)

torn : List ℕ
torn = 7 ∷ 3 ∷ 0 ∷ 0 ∷ 0 ∷ []

replay_committed-append_all_example :
    replay_committed checksum (log ++ take 10 (frame checksum torn))
    ≡ some (ok (committed_txs session))
unfolding torn
replay_committed-append_all_example =
    replay_committed-append_all checksum checksum_fits session log torn 10
      ((refl, (refl, tt)), ((refl, tt), ((refl, tt), tt))) session-IsReadable log_written
      (omega arith) (omega arith)

latest_checkpoint_info-append_all_example :
    latest_checkpoint_info checksum (log ++ take 10 (frame checksum torn))
    ≡ some (ok (last_checkpoint none (records_of session)))
unfolding torn
latest_checkpoint_info-append_all_example =
    latest_checkpoint_info-append_all checksum checksum_fits (records_of session) log torn 10
      session-IsReadable log_written (omega arith) (omega arith)

decode_body-encode_body_example :
    decode_body (10 ∷ words ((8, 2) ∷ (8, 1) ∷ (8, 0) ∷ (8, 0) ∷ [])) ≡ ok (checkpoint 2 1 0 0)
unfolding encode_body
decode_body-encode_body_example =
    decode_body-encode_body (checkpoint 2 1 0 0)
      (10 ∷ words ((8, 2) ∷ (8, 1) ∷ (8, 0) ∷ (8, 0) ∷ []))
      (omega arith, omega arith, omega arith, omega arith) refl

unfoldable zeros : ℕ → List ℕ
zeros zero = []
zeros (suc n) = 0 ∷ zeros n

length-zeros : (n : ℕ) → length (zeros n) ≡ n
unfolding zeros
length-zeros zero = refl
length-zeros (suc n) = omega (arith, length-zeros n)

-- A label name of 1 MB.
abbrev long_name : List ℕ
long_name = zeros max_wal_record_len

unfoldable long_head : List ℕ
long_head = words ((4, 0) ∷ (4, length long_name) ∷ [])

long_encoded : encode_body (create_label long_name 0) ≡ ok (15 ∷ (long_head ++ long_name))
unfolding encode_body long_head
long_encoded =
    let short : ltb (length long_name) (2 ^ 32) ≡ true =
      ground (arith, length-zeros max_wal_record_len) in
    rw short refl

length-long : length (15 ∷ (long_head ++ long_name)) ≡ 9 + max_wal_record_len
unfolding long_head
length-long = omega (
  arith,
  length-append {0} long_head long_name,
  length-words ((4, 0) ∷ (4, length long_name) ∷ []),
  length-zeros max_wal_record_len,
)

append-next_record-too_large_example :
    (append checksum log (create_label long_name 0)
      ≡ ok (length log, log ++ frame checksum (15 ∷ (long_head ++ long_name))))
    × (next_record checksum
          (record { file = frame checksum (15 ∷ (long_head ++ long_name)) ++ []; offset = 0 })
        ≡ err (wal_record_too_large (length (15 ∷ (long_head ++ long_name)))))
append-next_record-too_large_example =
    append-next_record-too_large checksum checksum_fits log (create_label long_name 0)
      (15 ∷ (long_head ++ long_name)) [] 0 long_encoded (omega (arith, length-long))
      (omega (arith, length-long))

-- One segment, and six bytes of the last word missing.
abbrev short_manifest : List ℕ
short_manifest =
    0 ∷ 0 ∷ 0 ∷ 0 ∷ 0 ∷ 0 ∷ 0 ∷ 0 ∷ 1 ∷ 0 ∷ 0 ∷ 0 ∷ 0 ∷ 0 ∷ 0 ∷ 0 ∷ 0 ∷ 0 ∷ 0 ∷ 0 ∷ 0 ∷ 0 ∷ 0 ∷ 0
    ∷ 0 ∷ 0 ∷ 0 ∷ 0 ∷ 0 ∷ 0 ∷ 0 ∷ 0 ∷ 0 ∷ 0 ∷ 0 ∷ 0 ∷ 0 ∷ 0 ∷ []

one_segment : u32_at {E = Error} short_manifest 8 ≡ ok 1
unfolding u32_at slice from_le_bytes
one_segment = refl

decode_manifest_switch-panic_example : decode_manifest_switch short_manifest ≡ panic
decode_manifest_switch-panic_example =
    decode_manifest_switch-panic short_manifest 1 one_segment (omega arith) (omega arith)
      (omega arith)
