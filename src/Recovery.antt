-- ===== src/Recovery.antt =====
-- nervusdb-storage/src/engine.rs: the records that `WriteTxn::commit` appends to the log, and what
-- `replay_graph_transactions`, `replay_label_transactions` and `scan_recovery_state` make of them on start.
-- The listings are of nervusdb-storage/src/memtable.rs.
pub mod Listings
pub mod Newest
pub mod Scan
pub mod Labels
pub mod Ordered
pub mod Replay
pub mod Taken
pub mod Effects
pub mod NodeEffects
pub mod EdgeEffects
pub mod Recovered
pub mod Restart
use mathlib.Core.List.{map}
use nervusdb.Base.{
  ℕ, zero, suc, ◌+◌, ◌-◌, ◌/◌, ◌%◌, Bool, not, Option, none, some, List, [], ◌∷◌, ◌++◌,
}
use nervusdb.Base.{if◌then◌else◌, leb, ltb, ◌==◌, ok, err, panic, ◌>>=◌, ◌>>◌, guard}
use nervusdb.Base.OrdMap.{Map, Set}
use nervusdb.Api.Property.{Text, PropertyValue}
use nervusdb.Api.Edge.{EdgeKey}
use nervusdb.Error.{Storage, wal_protocol}
use nervusdb.MemTable.{
  MemTable, PropertyMap, GraphOp, add_edge, bury_node, bury_edge, set_node, set_edge, unset_node,
  unset_edge, empty, apply,
}
use nervusdb.Run.{L0Run, freeze_into_run, run_is_empty, iter_edges}
use nervusdb.Wal.{
  WalRecord, SegmentPointer, begin_tx, commit_tx, create_label, create_node, add_node_label,
  remove_node_label, tombstone_node, tombstone_edge, create_edge, manifest_switch, checkpoint,
  set_node_property, set_edge_property, remove_node_property, remove_edge_property,
}
use nervusdb.Wal.Log.{CommittedTx}
use nervusdb.Pager.{Pager}
use nervusdb.IdMap.{IdMap, lookup, apply_create_node, apply_add_label, apply_remove_label}
use nervusdb.LabelInterner.{LabelInterner, get_id, next_id, get_or_create}

-- The owners of a map with each of their properties, or removed keys.
unfoldable pub properties_for_wal :
    {K : Type 0} → Map K PropertyMap → List (K × Text × PropertyValue)
properties_for_wal [] = []
properties_for_wal ((owner, props) ∷ m) = map (λ e. (owner, e.0, e.1)) props ++ properties_for_wal m

unfoldable pub removed_for_wal : {K : Type 0} → Map K (Set Text) → List (K × Text)
removed_for_wal [] = []
removed_for_wal ((owner, keys) ∷ m) = map (λ key. (owner, key)) keys ++ removed_for_wal m

-- The nodes and label changes that a transaction has collected beside its memtable: external id, label
-- and number of the created nodes, and pairs of a node and a label.
pub record Pending : Type 0 where
  pub created_nodes : List (ℕ × ℕ × ℕ)
  pub label_additions : List (ℕ × ℕ)
  pub label_removals : List (ℕ × ℕ)

-- The listed properties as records.
abbrev pub node_set : ℕ × Text × PropertyValue → WalRecord
node_set (node, key, value) = set_node_property node key value

abbrev pub node_unset : ℕ × Text → WalRecord
node_unset (node, key) = remove_node_property node key

abbrev pub edge_set : EdgeKey × Text × PropertyValue → WalRecord
edge_set (e, key, value) = set_edge_property e.src e.rel e.dst key value

abbrev pub edge_unset : EdgeKey × Text → WalRecord
edge_unset (e, key) = remove_edge_property e.src e.rel e.dst key

abbrev pub property_records : MemTable → List WalRecord
property_records t =
    map node_set (properties_for_wal t.node_properties)
    ++ (map node_unset (removed_for_wal t.removed_node_properties)
        ++ (map edge_set (properties_for_wal t.edge_properties)
            ++ map edge_unset (removed_for_wal t.removed_edge_properties)))

-- The edges of the run and what it buries, in the log's order
abbrev pub graph_records : L0Run → List WalRecord
graph_records run =
    map (λ (e : EdgeKey). create_edge e.src e.rel e.dst) (iter_edges run)
    ++ (map tombstone_node run.tombstoned_nodes
        ++ map (λ (e : EdgeKey). tombstone_edge e.src e.rel e.dst) run.tombstoned_edges)

abbrev pub node_records : Pending → List WalRecord
node_records pending =
    map
      (λ ((external_id, label_id, internal_id) : ℕ × ℕ × ℕ).
        create_node external_id label_id internal_id)
      pending.created_nodes
    ++ (map (λ ((node, label_id) : ℕ × ℕ). add_node_label node label_id) pending.label_additions
        ++ map (λ ((node, label_id) : ℕ × ℕ). remove_node_label node label_id)
            pending.label_removals)

-- What `commit` appends between its two markers.
unfoldable pub commit_ops : ℕ → Pending → MemTable → List WalRecord
unfolding properties_for_wal removed_for_wal freeze_into_run iter_edges
commit_ops txid pending t =
    node_records pending ++ (graph_records (freeze_into_run txid t) ++ property_records t)

unfoldable pub commit_records : ℕ → Pending → MemTable → List WalRecord
unfolding commit_ops
commit_records txid pending t = begin_tx txid ∷ (commit_ops txid pending t ++ (commit_tx txid ∷ []))

-- What the replay of a transaction changes.
pub record Replayed : Type 0 where
  pub idmap : IdMap
  pub pager : Pager
  pub memtable : MemTable

abbrev with_memtable : GraphOp → Replayed → Storage Replayed
with_memtable op s = ok (record s { memtable = apply op s.memtable })

-- `match op` in `replay_graph_transactions`
unfoldable pub replay_op : Replayed → WalRecord → Storage Replayed
unfolding lookup apply_create_node apply_add_label apply_remove_label apply
replay_op s (create_node external_id label_id internal_id) = elim (lookup s.idmap external_id) [
  | some existing ↦ (do guard (existing == internal_id) (wal_protocol "external id remapped"); ok s)
  | none ↦ (do
    made ← apply_create_node external_id label_id internal_id s.idmap s.pager
    ok (record s { idmap = made.0; pager = made.1 }))
]
replay_op s (add_node_label node label_id) = do
  idmap ← apply_add_label node label_id s.idmap
  ok (record s { idmap = idmap })
replay_op s (remove_node_label node label_id) = do
  idmap ← apply_remove_label node label_id s.idmap
  ok (record s { idmap = idmap })
replay_op s (create_edge src rel dst) = with_memtable (add_edge src rel dst) s
replay_op s (tombstone_node node) = with_memtable (bury_node node) s
replay_op s (tombstone_edge src rel dst) = with_memtable (bury_edge src rel dst) s
replay_op s (set_node_property node key value) = with_memtable (set_node node key value) s
replay_op s (set_edge_property src rel dst key value) =
    with_memtable (set_edge (record { src = src; rel = rel; dst = dst }) key value) s
replay_op s (remove_node_property node key) = with_memtable (unset_node node key) s
replay_op s (remove_edge_property src rel dst key) =
    with_memtable (unset_edge (record { src = src; rel = rel; dst = dst }) key) s
replay_op s other = ok s

unfoldable pub replay_ops : List WalRecord → Replayed → Storage Replayed
unfolding replay_op
replay_ops [] s = ok s
replay_ops (r ∷ rs) s = do next ← replay_op s r; replay_ops rs next

-- The runs that are pushed, oldest first, behind those that are there.
unfoldable pub replay_graph_transactions :
    List CommittedTx → ℕ → IdMap → Pager → List L0Run → Storage (IdMap × Pager × List L0Run)
unfolding replay_ops freeze_into_run run_is_empty
replay_graph_transactions [] checkpoint_txid idmap pager out_runs = ok (idmap, pager, out_runs)
replay_graph_transactions (tx ∷ txs) checkpoint_txid idmap pager out_runs =
    let skipped = replay_graph_transactions txs checkpoint_txid idmap pager out_runs in
    let replayed = (do
      s ← replay_ops tx.ops (record { idmap = idmap; pager = pager; memtable = empty })
      let run = freeze_into_run tx.txid s.memtable
      let runs = if run_is_empty run then out_runs else out_runs ++ (run ∷ [])
      replay_graph_transactions txs checkpoint_txid s.idmap s.pager runs) in
    if leb tx.txid checkpoint_txid then skipped else replayed

pub record RecoveryState : Type 0 where
  pub manifest_epoch : ℕ
  pub manifest_segments : List SegmentPointer
  pub checkpoint_txid : ℕ
  pub max_txid : ℕ
  pub properties_root : ℕ
  pub stats_root : ℕ

abbrev pub no_state : RecoveryState
no_state = record {
  manifest_epoch = 0;
  manifest_segments = [];
  checkpoint_txid = 0;
  max_txid = 0;
  properties_root = 0;
  stats_root = 0;
}

abbrev pub max : ℕ → ℕ → ℕ
max a b = if ltb a b then b else a

unfoldable pub scan_op : RecoveryState → WalRecord → RecoveryState
scan_op s (manifest_switch epoch segments properties_root stats_root) =
    if leb s.manifest_epoch epoch
    then record s {
      manifest_epoch = epoch;
      manifest_segments = segments;
      checkpoint_txid = 0;
      properties_root = properties_root;
      stats_root = stats_root;
    }
    else s
scan_op s (checkpoint up_to_txid epoch properties_root stats_root) =
    if epoch == s.manifest_epoch
    then record s {
      checkpoint_txid = max s.checkpoint_txid up_to_txid;
      properties_root = properties_root;
      stats_root = stats_root;
    }
    else s
scan_op s other = s

unfoldable pub scan_ops : RecoveryState → List WalRecord → RecoveryState
unfolding scan_op
scan_ops s [] = s
scan_ops s (r ∷ rs) = scan_ops (scan_op s r) rs

unfoldable pub scan_from : RecoveryState → List CommittedTx → RecoveryState
unfolding scan_ops
scan_from s [] = s
scan_from s (tx ∷ txs) =
    scan_from (scan_ops (record s { max_txid = max s.max_txid tx.txid }) tx.ops) txs

unfoldable pub scan_recovery_state : List CommittedTx → RecoveryState
unfolding scan_from
scan_recovery_state txs = scan_from no_state txs
