-- ===== src/Wal/Log.antt =====
-- `Wal::append`, `WalReader` and the replay of the log, nervusdb-storage/src/wal.rs. The file is the list
-- of its bytes; reads and writes of an open file succeed. `crc32` is crc32fast's hash, a parameter.
use mathlib.Core.Option
use nervusdb.Base.{
  ℕ, zero, suc, ◌+◌, ◌*◌, ◌^◌, Bool, true, false, List, [], ◌∷◌, ◌++◌, Option, none, some,
}
use nervusdb.Base.{if◌then◌else◌, leb, ltb, ◌==◌, length, take, drop}
use nervusdb.Base.{ok, err, panic, ◌>>=◌, ◌>>◌, guard}
use nervusdb.Base.Bytes.{words, from_le_bytes}
use nervusdb.Error.{Storage, wal_record_too_large, wal_protocol}
use nervusdb.Wal.{WalRecord, begin_tx, commit_tx, checkpoint, encode_body, u32_max}
use nervusdb.Wal.Decode.{decode_body}

abbrev pub max_wal_record_len : ℕ
max_wal_record_len = 1024 * 1024

-- `file` holds what is not read yet.
pub record WalReader : Type 0 where
  pub file : List ℕ
  pub offset : ℕ

unfoldable pub try_read_u32 : List ℕ → Option (ℕ × List ℕ)
try_read_u32 file =
    if leb 4 (length file) then some (from_le_bytes (take 4 file), drop 4 file) else none

pub record CommittedTx : Type 0 where
  pub txid : ℕ
  pub ops : List WalRecord

-- The locals of `replay_committed_from_path`.
pub record Replay : Type 0 where
  pub current_txid : Option ℕ
  pub pending : List WalRecord
  pub out : List CommittedTx

abbrev pub start : Replay
start = record { current_txid = none; pending = []; out = [] }

-- `Ok(out)`
abbrev pub committed_of : Storage Replay → Storage (List CommittedTx)
committed_of s = do state ← s; ok state.out

abbrev pub is_current : Option ℕ → ℕ → Bool
is_current none txid = false
is_current (some t) txid = t == txid

abbrev is_some : Option ℕ → Bool
is_some none = false
is_some (some t) = true

-- `match record` in `replay_committed_from_path`
unfoldable pub replay_record : Replay → WalRecord → Storage Replay
replay_record s (begin_tx txid) = ok (record s { current_txid = some txid; pending = [] })
replay_record s (commit_tx txid) = do
  guard (is_current s.current_txid txid) (wal_protocol "CommitTx without matching BeginTx")
  let tx : CommittedTx = record { txid = txid; ops = s.pending }
  ok (record { current_txid = none; pending = []; out = s.out ++ (tx ∷ []) })
replay_record s other = do
  guard (is_some s.current_txid) (wal_protocol "op outside tx")
  ok (record s { pending = s.pending ++ (other ∷ []) })

-- `if let WalRecord::Checkpoint` in `latest_checkpoint_info`
unfoldable pub note_checkpoint : Option (ℕ × ℕ) → WalRecord → Storage (Option (ℕ × ℕ))
note_checkpoint last (checkpoint up_to_txid epoch properties_root stats_root) =
    ok (some (up_to_txid, epoch))
note_checkpoint last other = ok last

module _ (crc32 : List ℕ → ℕ) where
  -- What is written for a body: its length, its checksum and itself.
  unfoldable pub frame : List ℕ → List ℕ
  frame body = words ((4, length body) ∷ (4, crc32 body) ∷ []) ++ body

  -- The offset where the record begins, and the file behind it.
  unfoldable pub append : List ℕ → WalRecord → Storage (ℕ × List ℕ)
  append file r = do
    body ← encode_body r
    guard (ltb (length body) (2 ^ 32)) (wal_record_too_large u32_max)
    ok (length file, file ++ frame body)

  -- After the end of the log no caller reads on, so there is no reader then.
  unfoldable pub next_body : ℕ → ℕ → ℕ → List ℕ → Storage (Option (ℕ × WalRecord × WalReader))
  next_body offset len crc file =
      let body = take len file in
      let read : Storage (Option (ℕ × WalRecord × WalReader)) = (do
        r ← decode_body body
        ok (some (offset, r, record { file = drop len file; offset = offset + (4 + 4 + len) }))) in
      if leb len (length file) then (if crc32 body == crc then read else ok none) else ok none

  unfoldable pub next_crc :
      ℕ → ℕ → Option (ℕ × List ℕ) → Storage (Option (ℕ × WalRecord × WalReader))
  unfolding next_body
  next_crc offset len none = ok none
  next_crc offset len (some (crc, file)) = next_body offset len crc file

  unfoldable pub next_len : ℕ → Option (ℕ × List ℕ) → Storage (Option (ℕ × WalRecord × WalReader))
  unfolding next_crc try_read_u32
  next_len offset none = ok none
  next_len offset (some (len, file)) =
      if ltb max_wal_record_len len
      then err (wal_record_too_large len)
      else next_crc offset len (try_read_u32 file)

  unfoldable pub next_record : WalReader → Storage (Option (ℕ × WalRecord × WalReader))
  unfolding next_len try_read_u32
  next_record reader = next_len reader.offset (try_read_u32 reader.file)

  -- `while let Some((_offset, record)) = reader.next_record()?`, none when the fuel is spent.
  module _ {S : Type 0} (step : S → WalRecord → Storage S) where
    abbrev pub after : (S → Option (Storage S)) → Storage S → Option (Storage S)
    after k (ok s) = k s
    after k (err e) = some (err e)
    after k panic = some panic

    abbrev pub consume :
        (WalReader → S → Option (Storage S))
        → S
        → Storage (Option (ℕ × WalRecord × WalReader))
        → Option (Storage S)
    consume k s (ok none) = some (ok s)
    consume k s (ok (some (offset, r, reader))) = after (k reader) (step s r)
    consume k s (err e) = some (err e)
    consume k s panic = some panic

    unfoldable pub read_log : ℕ → WalReader → S → Option (Storage S)
    unfolding next_record
    read_log zero reader s = none
    read_log (suc fuel) reader s = consume (read_log fuel) s (next_record reader)

  -- Every record takes eight bytes at least.
  unfoldable pub replay_committed : List ℕ → Option (Storage (List CommittedTx))
  unfolding read_log replay_record
  replay_committed file =
      Option.map committed_of
        (read_log replay_record (suc (length file)) (record { file = file; offset = 0 }) start)

  unfoldable pub latest_checkpoint_info : List ℕ → Option (Storage (Option (ℕ × ℕ)))
  unfolding read_log note_checkpoint
  latest_checkpoint_info file =
      read_log note_checkpoint (suc (length file)) (record { file = file; offset = 0 }) none

  -- Records appended one after the other.
  unfoldable pub append_all : List ℕ → List WalRecord → Storage (List ℕ)
  unfolding append
  append_all file [] = ok file
  append_all file (r ∷ rs) = do appended ← append file r; append_all appended.1 rs
