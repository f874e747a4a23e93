-- ===== src/Wal/PageReplay.antt =====
-- `replay_into` and `apply_op` of nervusdb-storage/src/wal.rs: the page records of a log applied to a pager.
-- Of its statistics the numbers of records and transactions, without the last offset.
use mathlib.Core.Option
use mathlib.Core.List.{append_assoc, append-nil}
use nervusdb.Base.{
  ℕ, suc, ◌+◌, ◌^◌, ◌<◌, ◌≤◌, ◌≡◌, refl, ap, ◌∙◌, Bool, true, false, Option, none, some, List, [],
  ◌∷◌, ◌++◌, arith,
}
use nervusdb.Base.{==_refl, All, length, length-append, take, ok, err, panic, ◌>>=◌, ◌>>◌, guard}
use nervusdb.Error.{Storage, wal_protocol}
use nervusdb.Pager.{Pager, ensure_allocated, write_page, free_page}
use nervusdb.Wal.{WalRecord, begin_tx, commit_tx, page_write, page_free}
use nervusdb.Wal.Log.{is_current, read_log, append_all, frame, max_wal_record_len}
use nervusdb.Wal.Framing.{next_record-torn}
use nervusdb.Wal.Replay.{IsReadable, steps, append_all-eq_ok, read_log-Frames}
use nervusdb.Wal.Session.{Logged, committed, unfinished, records_of}

unfoldable pub apply_op : Pager → WalRecord → Storage Pager
unfolding ensure_allocated write_page free_page
apply_op p (page_write page_id page) = do q ← ensure_allocated page_id p; write_page page_id page q
apply_op p (page_free page_id) = free_page page_id p
apply_op p (begin_tx txid) = err (wal_protocol "unexpected tx marker inside apply_op")
apply_op p (commit_tx txid) = err (wal_protocol "unexpected tx marker inside apply_op")
apply_op p other = err (wal_protocol "unexpected wal record in apply_op")

unfoldable pub apply_ops : Pager → List WalRecord → Storage Pager
unfolding apply_op
apply_ops p [] = ok p
apply_ops p (r ∷ rs) = do q ← apply_op p r; apply_ops q rs

-- The locals of `replay_into`, with its pager.
pub record PageReplay : Type 0 where
  pub current_txid : Option ℕ
  pub pending : List WalRecord
  pub pager : Pager
  pub records : ℕ
  pub committed_txs : ℕ

abbrev is_open : Option ℕ → Bool
is_open none = false
is_open (some t) = true

-- A page operation, behind the guard that a transaction is open
abbrev push_op : PageReplay → WalRecord → Storage PageReplay
push_op s r = do
  guard (is_open s.current_txid) (wal_protocol "page op outside tx")
  ok (record s { pending = s.pending ++ (r ∷ []); records = s.records + 1 })

-- `match record` in `replay_into`
unfoldable pub replay_page_record : PageReplay → WalRecord → Storage PageReplay
unfolding apply_ops
replay_page_record s (begin_tx txid) =
    ok (record s { current_txid = some txid; pending = []; records = s.records + 1 })
replay_page_record s (commit_tx txid) = do
  guard (is_current s.current_txid txid) (wal_protocol "CommitTx without matching BeginTx")
  pager ← apply_ops s.pager s.pending
  ok (record {
    current_txid = none;
    pending = [];
    pager = pager;
    records = s.records + 1;
    committed_txs = s.committed_txs + 1;
  })
replay_page_record s (page_write page_id page) = push_op s (page_write page_id page)
replay_page_record s (page_free page_id) = push_op s (page_free page_id)
replay_page_record s other = err (wal_protocol "non-page wal record in replay_into")

abbrev pub replay_start : Pager → PageReplay
replay_start p = record {
  current_txid = none;
  pending = [];
  pager = p;
  records = 0;
  committed_txs = 0;
}

-- The pager after the committed transactions.
abbrev pub apply_committed : Pager → List Logged → Storage Pager
apply_committed p [] = ok p
apply_committed p (committed txid ops ∷ txs) = apply_ops p ops >>= λ q. apply_committed q txs
apply_committed p (unfinished txid ops ∷ txs) = apply_committed p txs

abbrev is_page_op : WalRecord → Bool
is_page_op (page_write page_id page) = true
is_page_op (page_free page_id) = true
is_page_op r = false

abbrev ops_in : Logged → List WalRecord
ops_in (committed txid ops) = ops
ops_in (unfinished txid ops) = ops

abbrev pub HasPageOps : Logged → Type 0
HasPageOps tx = All (λ r. is_page_op r ≡ true) (ops_in tx)

abbrev pub pager_of : Storage PageReplay → Storage Pager
pager_of s = do state ← s; ok state.pager

abbrev within : ℕ → List WalRecord → Pager → ℕ → ℕ → PageReplay
within txid pending p n m = record {
  current_txid = some txid;
  pending = pending;
  pager = p;
  records = n;
  committed_txs = m;
}

steps-page_ops :
    (txid : ℕ) (ops pending : List WalRecord) (p : Pager) (n m : ℕ) (rest : List WalRecord)
    → All (λ r. is_page_op r ≡ true) ops
    → steps replay_page_record (within txid pending p n m) (ops ++ rest)
      ≡ steps replay_page_record (within txid (pending ++ ops) p (n + length ops) m) rest
unfolding replay_page_record
steps-page_ops txid [] pending p n m rest a =
    let same : n ≡ n + 0 = omega arith in
    rw (append-nil pending)
      (ap (λ k. steps replay_page_record (within txid pending p k m) rest) same)
steps-page_ops txid (page_write page_id page ∷ ops) pending p n m rest a =
    let r = page_write page_id page in
    let count : n + 1 + length ops ≡ n + length (r ∷ ops) = omega arith in
    steps-page_ops txid ops (pending ++ (r ∷ [])) p (n + 1) m rest a.1
    ∙ (ap (λ q. steps replay_page_record (within txid q p (n + 1 + length ops) m) rest)
          (append_assoc pending (r ∷ []) ops)
        ∙ ap (λ k. steps replay_page_record (within txid (pending ++ (r ∷ ops)) p k m) rest) count)
steps-page_ops txid (page_free page_id ∷ ops) pending p n m rest a =
    let r = page_free page_id in
    let count : n + 1 + length ops ≡ n + length (r ∷ ops) = omega arith in
    steps-page_ops txid ops (pending ++ (r ∷ [])) p (n + 1) m rest a.1
    ∙ (ap (λ q. steps replay_page_record (within txid q p (n + 1 + length ops) m) rest)
          (append_assoc pending (r ∷ []) ops)
        ∙ ap (λ k. steps replay_page_record (within txid (pending ++ (r ∷ ops)) p k m) rest) count)
steps-page_ops txid (r ∷ ops) pending p n m rest a = absurd (let h = a.0 in cc)

after_commit :
    (o : Storage Pager) (f : Pager → PageReplay) (rest : List WalRecord) (g : Pager → Storage Pager)
    → ((q : Pager) → pager_of (steps replay_page_record (f q) rest) ≡ g q)
    → pager_of ((o >>= λ q. ok (f q)) >>= λ s. steps replay_page_record s rest) ≡ (o >>= g)
after_commit (ok q) f rest g h = h q
after_commit (err e) f rest g h = refl
after_commit panic f rest g h = refl

steps-page_records :
    (txs : List Logged) (s : PageReplay)
    → All HasPageOps txs
    → pager_of (steps replay_page_record s (records_of txs)) ≡ apply_committed s.pager txs
unfolding replay_page_record
steps-page_records [] s a = refl
steps-page_records (committed txid ops ∷ txs) s a =
    let n = s.records + 1 in
    let m = s.committed_txs in
    let done : Pager → PageReplay = λ q. record {
      current_txid = none;
      pending = [];
      pager = q;
      records = n + length ops + 1;
      committed_txs = m + 1;
    } in
    let commit : pager_of (
          steps replay_page_record (within txid ops s.pager (n + length ops) m)
            (commit_tx txid ∷ records_of txs))
        ≡ (apply_ops s.pager ops >>= λ q. apply_committed q txs) =
      rw (==_refl txid) (
        after_commit (apply_ops s.pager ops) done (records_of txs) (λ q. apply_committed q txs)
          (λ q. steps-page_records txs (done q) a.1)) in
    ap pager_of (steps-page_ops txid ops [] s.pager n m (commit_tx txid ∷ records_of txs) a.0)
    ∙ commit
steps-page_records (unfinished txid ops ∷ txs) s a =
    let n = s.records + 1 in
    let m = s.committed_txs in
    ap pager_of (steps-page_ops txid ops [] s.pager n m (records_of txs) a.0)
    ∙ steps-page_records txs (within txid ops s.pager (n + length ops) m) a.1

module _ (crc32 : List ℕ → ℕ) where
  unfoldable pub replay_into : List ℕ → Pager → Option (Storage PageReplay)
  unfolding read_log replay_page_record
  replay_into file p =
      read_log crc32 replay_page_record (suc (length file)) (record { file = file; offset = 0 })
        (replay_start p)

module _ (crc32 : List ℕ → ℕ) (crc32_fits : (bytes : List ℕ) → crc32 bytes < 2 ^ 32) where
  -- Transactions of page operations whose records can be read were logged to an empty file, and of one more
  -- frame only the first bytes, if any, reached it: the replay leaves the pager that the operations of the
  -- committed transactions make, in their order, or has the first error among them.
  pub replay_into-append_all :
      (txs : List Logged) (p : Pager) (log body : List ℕ) (k : ℕ)
      → All HasPageOps txs
      → All IsReadable (records_of txs)
      → append_all crc32 [] (records_of txs) ≡ ok log
      → length body ≤ max_wal_record_len
      → k < 8 + length body
      → Option.map pager_of (replay_into crc32 (log ++ take k (frame crc32 body)) p)
        ≡ some (apply_committed p txs)
  unfolding replay_into
  replay_into-append_all txs p log body k ops readable written small cut =
      let tail = take k (frame crc32 body) in
      let (bs, e, frames) = append_all-eq_ok crc32 [] (records_of txs) log written in
      let read =
        read_log-Frames crc32 replay_page_record crc32_fits tail
          (λ offset. next_record-torn crc32 crc32_fits body small offset k cut) (records_of txs) bs
          (suc (length (bs ++ tail))) 0 (replay_start p) readable frames
          (omega (arith, length-append {0} bs tail)) in
      rw (e, read) (ap some (steps-page_records txs (replay_start p) ops))
