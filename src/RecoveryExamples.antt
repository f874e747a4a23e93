-- ===== src/RecoveryExamples.antt =====
-- The recovery of a commit, of labels and of pages at concrete inputs.
use mathlib.Core.Option
use nervusdb.Base.{
  ℕ, ◌+◌, ◌*◌, ◌%◌, ◌^◌, ◌<◌, ◌≡◌, ◌⊎◌, refl, none, some, List, [], ◌∷◌, ◌++◌, arith,
}
use nervusdb.Base.{All, take, ok, err, panic}
use nervusdb.Base.Bytes.{le_bytes, words}
use nervusdb.Error.{Storage}
use nervusdb.Api.Property.{Text, int}
use nervusdb.Api.Codec.{encode}
use nervusdb.Api.Edge.{EdgeKey}
use nervusdb.MemTable.{
  GraphOp, add_edge, bury_edge, set_node, unset_node, set_edge, empty, apply_all,
}
use nervusdb.Run.Effect.{node_history, edge_history, node_effect, edge_effect}
use nervusdb.Pager.{
  create, allocate_page, read_page, write_page, set_i2e_start_page, set_next_internal_id,
  set_i2e_len,
}
use nervusdb.Pager.Bitmap.{page_size, zeros, find_free_in_range}
use nervusdb.IdMap.{bare}
use nervusdb.LabelInterner.{new}
use nervusdb.Wal.{manifest_switch, checkpoint, page_free, encode_body}
use nervusdb.Wal.Log.{CommittedTx, append_all, frame}
use nervusdb.Wal.Replay.{IsReadable}
use nervusdb.Wal.Session.{Logged, committed, unfinished, records_of}
use nervusdb.Wal.PageReplay.{replay_into, pager_of, apply_committed, replay_into-append_all}
use nervusdb.Recovery.{Replayed, Pending, node_records, replay_ops, commit_ops, scan_recovery_state}
use nervusdb.Recovery.Newest.{epochs, all_ops, Newest}
use nervusdb.Recovery.Scan.{greatest_txid, HasManifest, scan_recovery_state-newest}
use nervusdb.Recovery.Labels.{
  label_session, replay_label_transactions, replay_label_transactions-label_session,
}
use nervusdb.Recovery.Recovered.{replay_ops-commit_ops}
use nervusdb.Recovery.Restart.{Done, Taken, logged, made, replay_graph_transactions-commit_all}
use nervusdb.ReadPath.{node_property_from_runs, edge_property_from_runs}
use nervusdb.Run.{L0Run, sort_edges}
use nervusdb.Engine.{commit_all}
use nervusdb.IdMap.{IdMap}
use nervusdb.Pager.{Pager}
use nervusdb.Csr.{neighbors, rel_matches}
use nervusdb.Csr.Build.{build_segment_from_runs, visible_edges}
use nervusdb.Csr.Built.{neighbors-build_segment_from_runs}
use nervusdb.Csr.Counts.{count_of, shown_count}
use nervusdb.Csr.Ordered.{AreInOrder}
use nervusdb.Api.Edge.{edge_eq}
use nervusdb.Base.{if◌then◌else◌, ◌==◌, ◌&&◌}
use nervusdb.Csr.{incoming_neighbors, bucket, index_at}
use nervusdb.Csr.Build.{segment_of_edges}
use mathlib.Core.List.{map, reverse}
use nervusdb.Recovery.{replay_graph_transactions}

abbrev some_calls : List GraphOp
some_calls =
    add_edge 0 7 1
    ∷ set_node 0 (110 ∷ []) (int 5)
    ∷ set_node 0 (110 ∷ []) (int 6)
    ∷ unset_node 1 (110 ∷ [])
    ∷ set_edge (record { src = 0; rel = 7; dst = 1 }) (119 ∷ []) (int 1)
    ∷ []

abbrev one_created : Pending
one_created = record {
  created_nodes = (100, 7, 0) ∷ [];
  label_additions = (0, 8) ∷ [];
  label_removals = [];
}

abbrev started : Replayed
started = record {
  idmap = bare none 0;
  pager = create (record { pages = 0; page = λ i. zeros page_size });
  memtable = empty;
}

abbrev result_of : Storage Replayed → Replayed
result_of (ok r) = r
result_of (err e) = started
result_of panic = started

node_records-ok :
    replay_ops (node_records one_created) started
    ≡ ok (result_of (replay_ops (node_records one_created) started))
unfolding replay_ops find_free_in_range create allocate_page read_page set_i2e_start_page write_page
    set_next_internal_id set_i2e_len
node_records-ok = refl

replay_ops-commit_ops_example :
    (r : Replayed) × (replay_ops (commit_ops 1 one_created (apply_all some_calls empty)) started
      ≡ ok r)
    × ((n : ℕ) (k : Text) → node_effect r.memtable n k ≡ node_history some_calls n k)
    × ((e : EdgeKey) (k : Text) → edge_effect r.memtable e k ≡ edge_history some_calls e k)
replay_ops-commit_ops_example =
    replay_ops-commit_ops some_calls 1 one_created started
      (result_of (replay_ops (node_records one_created) started)) refl node_records-ok

abbrev some_txs : List CommittedTx
some_txs =
    record {
      txid = 4;
      ops =
          manifest_switch 2 (record { id = 1; meta_page_id = 9 } ∷ []) 0 0
          ∷ checkpoint 3 2 0 0
          ∷ [];
    }
    ∷ record { txid = 7; ops = manifest_switch 1 [] 0 0 ∷ [] }
    ∷ []

scan_recovery_state-newest_example :
    ((scan_recovery_state some_txs).max_txid ≡ greatest_txid some_txs)
    × (((epochs (all_ops some_txs) ≡ [])
          × HasManifest (scan_recovery_state some_txs) 0 [] (0, 0) (all_ops some_txs))
        ⊎ ((n : Newest (all_ops some_txs)) × HasManifest
              (scan_recovery_state some_txs)
              n.epoch
              n.segments
              (n.properties_root, n.stats_root)
              n.after))
scan_recovery_state-newest_example = scan_recovery_state-newest some_txs

abbrev some_names : List (ℕ × Text)
some_names = (1, 65 ∷ []) ∷ (2, 66 ∷ []) ∷ (3, 65 ∷ []) ∷ []

replay_label_transactions-label_session_example :
    replay_label_transactions (label_session some_names new).0 new
    ≡ some (ok (label_session some_names new).1)
replay_label_transactions-label_session_example =
    replay_label_transactions-label_session some_names new

-- A checksum to run the log with.
unfoldable checksum : List ℕ → ℕ
checksum [] = 0
checksum (b ∷ bs) = (b + 3 * checksum bs) % 2 ^ 32

checksum_fits : (bytes : List ℕ) → checksum bytes < 2 ^ 32
unfolding checksum
checksum_fits [] = omega arith
checksum_fits (b ∷ bs) = omega arith

abbrev page_session : List Logged
page_session = committed 1 (page_free 2 ∷ []) ∷ unfinished 2 (page_free 3 ∷ []) ∷ []

abbrev log_of : Storage (List ℕ) → List ℕ
log_of (ok log) = log
log_of (err e) = []
log_of panic = []

page_log : List ℕ
page_log = log_of (append_all checksum [] (records_of page_session))

page_log-written : append_all checksum [] (records_of page_session) ≡ ok page_log
unfolding page_log append_all checksum le_bytes words frame encode encode_body
page_log-written = refl

page_session-IsReadable : All IsReadable (records_of page_session)
unfolding encode_body le_bytes words encode
page_session-IsReadable = (
  (omega arith, omega arith),
  (
    (omega arith, omega arith),
    ((omega arith, omega arith), ((omega arith, omega arith), ((omega arith, omega arith), tt))),
  ),
)

replay_into-append_all_example :
    Option.map pager_of
      (replay_into checksum (page_log ++ take 3 (frame checksum (7 ∷ []))) started.pager)
    ≡ some (apply_committed started.pager page_session)
replay_into-append_all_example =
    replay_into-append_all checksum checksum_fits page_session started.pager page_log (7 ∷ []) 3
      ((refl, tt), ((refl, tt), tt)) page_session-IsReadable page_log-written (omega arith)
      (omega arith)

abbrev done_txs : List Done
done_txs = (1, one_created, some_calls) ∷ []

done_txs-Taken : Taken 0 started.idmap started.pager done_txs
unfolding Taken
done_txs-Taken =
    (omega arith, (result_of (replay_ops (node_records one_created) started), node_records-ok, tt))

replay_graph_transactions-commit_all_example :
    (n : IdMap) × (q : Pager) × (rs : List L0Run) × (replay_graph_transactions
        (map logged done_txs)
        0
        started.idmap
        started.pager
        []
      ≡ ok (n, q, rs))
    × ((v : ℕ) (k : Text)
        → node_property_from_runs (reverse rs) v k
          ≡ node_property_from_runs (commit_all (map made done_txs) []) v k)
    × ((e : EdgeKey) (k : Text)
        → edge_property_from_runs (reverse rs) e k
          ≡ edge_property_from_runs (commit_all (map made done_txs) []) e k)
replay_graph_transactions-commit_all_example =
    replay_graph_transactions-commit_all done_txs 0 started.idmap started.pager done_txs-Taken

abbrev edge_runs : List L0Run
edge_runs =
    commit_all
      ((1, add_edge 0 7 1 ∷ add_edge 2 7 0 ∷ add_edge 0 6 2 ∷ [])
        ∷ (2, bury_edge 0 7 1 ∷ add_edge 0 5 2 ∷ [])
        ∷ [])
      []

neighbors-build_segment_from_runs_example :
    (keys : List EdgeKey) × (neighbors (build_segment_from_runs 1 edge_runs) 0 none ≡ ok keys)
    × ((e : EdgeKey)
        → count_of (edge_eq e) keys
          ≡ (if e.src == 0 && rel_matches none e.rel then shown_count e edge_runs else 0))
    × AreInOrder keys
neighbors-build_segment_from_runs_example = neighbors-build_segment_from_runs 1 0 none edge_runs

-- A compaction of runs without edges leaves a segment whose incoming lookup of node 0 panics.
incoming_of_empty : incoming_neighbors (build_segment_from_runs 1 []) 0 none ≡ panic
unfolding incoming_neighbors build_segment_from_runs segment_of_edges sort_edges visible_edges
    bucket index_at
incoming_of_empty = refl
