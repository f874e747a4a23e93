-- ===== src/Recovery/Restart.antt =====
-- What is read of properties after a restart is what was read before it.
use mathlib.Core.List.{map, reverse, reverse-append}
use nervusdb.Base.{ℕ, ◌<◌, ◌≡◌, refl, sym, ap, ◌∙◌, false, inl, inr, List, [], ◌∷◌, ◌++◌, arith}
use nervusdb.Base.{if◌then◌else◌, leb, ok, Bool-cases}
use nervusdb.Api.Property.{Text}
use nervusdb.Api.Edge.{EdgeKey}
use nervusdb.MemTable.{GraphOp, empty, apply_all}
use nervusdb.Run.{L0Run, freeze_into_run, run_is_empty}
use nervusdb.Run.Effect.{node_history, edge_history, value_after}
use nervusdb.ReadPath.{node_property_from_runs, edge_property_from_runs}
use nervusdb.ReadPath.History.{
  all_ops, node_property-commit_all, edge_property-commit_all, node_history-append,
  edge_history-append,
}
use nervusdb.Engine.{publish_unless_empty, run_of, commit_all}
use nervusdb.Wal.Log.{CommittedTx}
use nervusdb.Pager.{Pager}
use nervusdb.IdMap.{IdMap}
use nervusdb.Recovery.{
  Pending, Replayed, node_records, commit_ops, replay_ops, replay_graph_transactions,
}
use nervusdb.Recovery.Replay.{calls_of, memtable_of}
use nervusdb.Recovery.Taken.{commit_ops-taken}
use nervusdb.Recovery.Ordered.{apply_all-IsOrdered, empty-IsOrdered}
use nervusdb.Recovery.Recovered.{listed-node, listed-edge, node_effect-calls, edge_effect-calls}

-- A transaction: its number, its nodes and labels, and the calls that went to its memtable.
abbrev pub Done : Type 0
Done = ℕ × Pending × List GraphOp

abbrev pub logged : Done → CommittedTx
logged (txid, pending, ops) = record {
  txid = txid;
  ops = commit_ops txid pending (apply_all ops empty);
}

abbrev pub made : Done → ℕ × List GraphOp
made (txid, pending, ops) = (txid, ops)

abbrev replayed : Done → ℕ × List GraphOp
replayed (txid, pending, ops) = (txid, calls_of (commit_ops txid pending (apply_all ops empty)))

abbrev fresh : IdMap → Pager → Replayed
fresh m p = record { idmap = m; pager = p; memtable = empty }

-- The records of nodes and labels are taken, one transaction after another, which are all later than the
-- checkpoint.
unfoldable pub Taken : ℕ → IdMap → Pager → List Done → Type 0
Taken checkpoint m p [] = Unit
Taken checkpoint m p ((txid, pending, ops) ∷ txs) =
    (checkpoint < txid)
    × ((next : Replayed) × (replay_ops (node_records pending) (fresh m p) ≡ ok next)
        × Taken checkpoint next.idmap next.pager txs)

reverse_snoc : (runs : List L0Run) (run : L0Run) → reverse (runs ++ (run ∷ [])) ≡ run ∷ reverse runs
reverse_snoc runs run = reverse-append runs (run ∷ [])

pushed : L0Run → List L0Run → List L0Run
pushed run out = if run_is_empty run then out else out ++ (run ∷ [])

reverse-pushed :
    (run : L0Run) (out : List L0Run)
    → reverse (pushed run out) ≡ publish_unless_empty run (reverse out)
unfolding pushed publish_unless_empty
reverse-pushed run out = elim (Bool-cases (run_is_empty run)) [
  | inl e ↦ rw e refl
  | inr e ↦ rw e (reverse_snoc out run)
]

replayed_runs :
    (txs : List Done) (checkpoint : ℕ) (m : IdMap) (p : Pager) (out : List L0Run)
    → Taken checkpoint m p txs
    → (n : IdMap) × (q : Pager) × (rs : List L0Run) × (replay_graph_transactions
          (map logged txs)
          checkpoint
          m
          p
          out
        ≡ ok (n, q, rs))
      × (reverse rs ≡ commit_all (map replayed txs) (reverse out))
unfolding Taken replay_graph_transactions commit_all run_of pushed
replayed_runs [] checkpoint m p out h = (m, p, out, refl, refl)
replayed_runs ((txid, pending, ops) ∷ txs) checkpoint m p out (later, (next, e, rest)) =
    let t = apply_all ops empty in
    let calls = calls_of (commit_ops txid pending t) in
    let (r, run_ok, same_map, same_pager) = commit_ops-taken txid pending t (fresh m p) next e in
    let table : r.memtable ≡ apply_all calls empty =
      memtable_of (commit_ops txid pending t) (fresh m p) r run_ok in
    let run = freeze_into_run txid r.memtable in
    let same_run : run ≡ freeze_into_run txid (apply_all calls empty) =
      ap (freeze_into_run txid) table in
    let on : Taken checkpoint r.idmap r.pager txs = rw (same_map, same_pager) rest in
    let (n, q, rs, done, back) = replayed_runs txs checkpoint r.idmap r.pager (pushed run out) on in
    let not_skipped : leb txid checkpoint ≡ false = ground (arith, later) in
    (
      n,
      q,
      rs,
      rw (not_skipped, run_ok) done,
      back
          ∙ ap (commit_all (map replayed txs))
              (reverse-pushed run out ∙ ap (λ x. publish_unless_empty x (reverse out)) same_run),
    )

-- The calls of the replay do to properties what the transactions' calls did.
same_node_history :
    (txs : List Done) (n : ℕ) (k : Text)
    → node_history (all_ops (map replayed txs)) n k ≡ node_history (all_ops (map made txs)) n k
same_node_history [] n k = refl
same_node_history ((txid, pending, ops) ∷ txs) n k =
    let t = apply_all ops empty in
    let o = apply_all-IsOrdered ops empty empty-IsOrdered in
    let here = listed-node t txid pending n k o ∙ node_effect-calls ops n k in
    node_history-append (calls_of (commit_ops txid pending t)) (all_ops (map replayed txs)) n k
    ∙ (rw (here, same_node_history txs n k)
        (sym (node_history-append ops (all_ops (map made txs)) n k)))

same_edge_history :
    (txs : List Done) (e : EdgeKey) (k : Text)
    → edge_history (all_ops (map replayed txs)) e k ≡ edge_history (all_ops (map made txs)) e k
same_edge_history [] e k = refl
same_edge_history ((txid, pending, ops) ∷ txs) e k =
    let t = apply_all ops empty in
    let o = apply_all-IsOrdered ops empty empty-IsOrdered in
    let here = listed-edge t txid pending e k o ∙ edge_effect-calls ops e k in
    edge_history-append (calls_of (commit_ops txid pending t)) (all_ops (map replayed txs)) e k
    ∙ (rw (here, same_edge_history txs e k)
        (sym (edge_history-append ops (all_ops (map made txs)) e k)))

-- Transactions were committed from an engine without runs, and their log is replayed, where the id map
-- takes the records of their nodes and labels and the checkpoint is before them all: the replay ends without
-- an error, and every property of a node and of an edge is read from its runs, newest first, as it was
-- from the runs that were published.
pub replay_graph_transactions-commit_all :
    (txs : List Done) (checkpoint : ℕ) (m : IdMap) (p : Pager)
    → Taken checkpoint m p txs
    → (n : IdMap) × (q : Pager) × (rs : List L0Run) × (replay_graph_transactions
          (map logged txs)
          checkpoint
          m
          p
          []
        ≡ ok (n, q, rs))
      × ((v : ℕ) (k : Text)
          → node_property_from_runs (reverse rs) v k
            ≡ node_property_from_runs (commit_all (map made txs) []) v k)
      × ((e : EdgeKey) (k : Text)
          → edge_property_from_runs (reverse rs) e k
            ≡ edge_property_from_runs (commit_all (map made txs) []) e k)
replay_graph_transactions-commit_all txs checkpoint m p h =
    let (n, q, rs, done, back) = replayed_runs txs checkpoint m p [] h in
    (
      n,
      q,
      rs,
      done,
      (λ v k. rw back (
          node_property-commit_all (map replayed txs) [] v k
          ∙ (ap (λ x. value_after x (node_property_from_runs [] v k)) (same_node_history txs v k)
              ∙ sym (node_property-commit_all (map made txs) [] v k)))),
      λ e k. rw back (
          edge_property-commit_all (map replayed txs) [] e k
          ∙ (ap (λ x. value_after x (edge_property_from_runs [] e k)) (same_edge_history txs e k)
              ∙ sym (edge_property-commit_all (map made txs) [] e k))),
    )
