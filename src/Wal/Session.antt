-- ===== src/Wal/Session.antt =====
-- What a replay makes of a log: the transactions that were committed, in their order.
use mathlib.Core.List.{append_assoc, append-nil}
use nervusdb.Base.{
  ℕ, suc, ◌+◌, ◌^◌, ◌<◌, ◌≤◌, ◌≡◌, refl, ap, sym, ◌∙◌, Bool, true, false, List, [], ◌∷◌, ◌++◌, none,
  some, Option, arith,
}
use nervusdb.Base.{==_refl, All, length, length-append, take}
use nervusdb.Base.{ok}
use nervusdb.Wal.{WalRecord, checkpoint, begin_tx, commit_tx}
use nervusdb.Wal.Log.{
  CommittedTx, Replay, start, committed_of, replay_record, replay_committed, append_all, frame,
  max_wal_record_len, note_checkpoint, latest_checkpoint_info,
}
use nervusdb.Wal.Framing.{next_record-torn}
use nervusdb.Wal.Replay.{IsReadable, steps, append_all-eq_ok, read_log-Frames}

-- A transaction as it was logged: with its commit, or without.
pub data Logged : Type 0 where
  committed unfinished : ℕ → List WalRecord → Logged

abbrev is_op : WalRecord → Bool
is_op (begin_tx txid) = false
is_op (commit_tx txid) = false
is_op other = true

abbrev ops_of : Logged → List WalRecord
ops_of (committed txid ops) = ops
ops_of (unfinished txid ops) = ops

-- A transaction's operations are no markers.
abbrev pub HasOps : Logged → Type 0
HasOps tx = All (λ r. is_op r ≡ true) (ops_of tx)

abbrev pub records_of : List Logged → List WalRecord
records_of [] = []
records_of (committed txid ops ∷ txs) = begin_tx txid ∷ (ops ++ (commit_tx txid ∷ records_of txs))
records_of (unfinished txid ops ∷ txs) = begin_tx txid ∷ (ops ++ records_of txs)

abbrev pub committed_txs : List Logged → List CommittedTx
committed_txs [] = []
committed_txs (committed txid ops ∷ txs) = record { txid = txid; ops = ops } ∷ committed_txs txs
committed_txs (unfinished txid ops ∷ txs) = committed_txs txs

abbrev within : ℕ → List WalRecord → List CommittedTx → Replay
within txid pending out = record { current_txid = some txid; pending = pending; out = out }

replay_record-op :
    (txid : ℕ) (p : List WalRecord) (out : List CommittedTx) (r : WalRecord)
    → is_op r ≡ true
    → replay_record (within txid p out) r ≡ ok (within txid (p ++ (r ∷ [])) out)
unfolding replay_record
replay_record-op txid p out (begin_tx t) h = cc
replay_record-op txid p out (commit_tx t) h = cc
replay_record-op txid p out r h = refl

-- Operations inside a transaction are kept, in order.
steps-ops :
    (txid : ℕ) (ops p : List WalRecord) (out : List CommittedTx) (rest : List WalRecord)
    → All (λ r. is_op r ≡ true) ops
    → steps replay_record (within txid p out) (ops ++ rest)
      ≡ steps replay_record (within txid (p ++ ops) out) rest
steps-ops txid [] p out rest a = rw (append-nil p) refl
steps-ops txid (r ∷ ops) p out rest a = rw (replay_record-op txid p out r a.0) (
    steps-ops txid ops (p ++ (r ∷ [])) out rest a.1
    ∙ ap (λ q. steps replay_record (within txid q out) rest) (append_assoc p (r ∷ []) ops))

steps-records_of :
    (txs : List Logged) (s : Replay)
    → All HasOps txs
    → committed_of (steps replay_record s (records_of txs)) ≡ ok (s.out ++ committed_txs txs)
unfolding replay_record
steps-records_of [] s a = ap ok (sym (append-nil s.out))
steps-records_of (committed txid ops ∷ txs) s a =
    let tx : CommittedTx = record { txid = txid; ops = ops } in
    let next : Replay = record { current_txid = none; pending = []; out = s.out ++ (tx ∷ []) } in
    let rest = commit_tx txid ∷ records_of txs in
    let inner : committed_of (steps replay_record (within txid ops s.out) rest)
        ≡ ok (s.out ++ (tx ∷ committed_txs txs)) =
      rw (==_refl txid) (
        steps-records_of txs next a.1 ∙ ap ok (append_assoc s.out (tx ∷ []) (committed_txs txs))) in
    ap committed_of (steps-ops txid ops [] s.out rest a.0) ∙ inner
steps-records_of (unfinished txid ops ∷ txs) s a =
    ap committed_of (steps-ops txid ops [] s.out (records_of txs) a.0)
    ∙ steps-records_of txs (within txid ops s.out) a.1

module _ (crc32 : List ℕ → ℕ) (crc32_fits : (bytes : List ℕ) → crc32 bytes < 2 ^ 32) where
  -- Transactions whose records can be read (1 MB at most, fields that fit) were logged to an empty file,
  -- and of the frame of one more body of 1 MB at most only the first bytes, if any,
  -- reached it: the replay gives the committed transactions, each with its operations, and no error.
  pub replay_committed-append_all :
      (txs : List Logged) (log body : List ℕ) (k : ℕ)
      → All HasOps txs
      → All IsReadable (records_of txs)
      → append_all crc32 [] (records_of txs) ≡ ok log
      → length body ≤ max_wal_record_len
      → k < 8 + length body
      → replay_committed crc32 (log ++ take k (frame crc32 body)) ≡ some (ok (committed_txs txs))
  unfolding replay_committed
  replay_committed-append_all txs log body k ops readable written small cut =
      let tail = take k (frame crc32 body) in
      let (bs, e, frames) = append_all-eq_ok crc32 [] (records_of txs) log written in
      let read =
        read_log-Frames crc32 replay_record crc32_fits tail
          (λ offset. next_record-torn crc32 crc32_fits body small offset k cut) (records_of txs) bs
          (suc (length (bs ++ tail))) 0 start readable frames
          (omega (arith, length-append {0} bs tail)) in
      rw (e, read) (ap some (steps-records_of txs start ops))

-- The last checkpoint among the records, `last` where there is none.
abbrev pub last_checkpoint : Option (ℕ × ℕ) → List WalRecord → Option (ℕ × ℕ)
last_checkpoint last [] = last
last_checkpoint last (checkpoint up_to_txid epoch properties_root stats_root ∷ rs) =
    last_checkpoint (some (up_to_txid, epoch)) rs
last_checkpoint last (r ∷ rs) = last_checkpoint last rs

steps-note_checkpoint :
    (last : Option (ℕ × ℕ)) (rs : List WalRecord)
    → steps note_checkpoint last rs ≡ ok (last_checkpoint last rs)
unfolding note_checkpoint
steps-note_checkpoint last [] = refl
steps-note_checkpoint last (checkpoint up_to_txid epoch properties_root stats_root ∷ rs) =
    steps-note_checkpoint (some (up_to_txid, epoch)) rs
steps-note_checkpoint last (r ∷ rs) = steps-note_checkpoint last rs

module _ (crc32 : List ℕ → ℕ) (crc32_fits : (bytes : List ℕ) → crc32 bytes < 2 ^ 32) where
  -- Of records that can be read (1 MB at most, fields that fit), which were appended to an empty file, and
  -- a torn frame behind them, the scan gives the last
  -- checkpoint's transaction and epoch, and no error.
  pub latest_checkpoint_info-append_all :
      (rs : List WalRecord) (log body : List ℕ) (k : ℕ)
      → All IsReadable rs
      → append_all crc32 [] rs ≡ ok log
      → length body ≤ max_wal_record_len
      → k < 8 + length body
      → latest_checkpoint_info crc32 (log ++ take k (frame crc32 body))
        ≡ some (ok (last_checkpoint none rs))
  unfolding latest_checkpoint_info
  latest_checkpoint_info-append_all rs log body k readable written small cut =
      let tail = take k (frame crc32 body) in
      let (bs, e, frames) = append_all-eq_ok crc32 [] rs log written in
      let read =
        read_log-Frames crc32 note_checkpoint crc32_fits tail
          (λ offset. next_record-torn crc32 crc32_fits body small offset k cut) rs bs
          (suc (length (bs ++ tail))) 0 none readable frames
          (omega (arith, length-append {0} bs tail)) in
      rw (e, read) (ap some (steps-note_checkpoint none rs))
