-- ===== src/Nodes/Buried.antt =====
-- A node is hidden just when a committed transaction has buried it.
use nervusdb.Base.{
  ℕ, zero, suc, ◌+◌, ◌≡◌, refl, ◌∙◌, Bool, false, not, ◌&&◌, ◌||◌, List, [], ◌∷◌, ◌++◌, arith,
}
use native.Mathlib.Decide.{ℕ_discrete}
use nervusdb.Base.{◌==◌, leb, ltb, any, retain}
use nervusdb.Base.OrdMap.{Set, add, contains, contains-add}
use nervusdb.Api.Edge.{node_key}
use nervusdb.MemTable.{
  MemTable, GraphOp, bury_node, empty, apply, apply_all, create_edge, tombstone_node,
  tombstone_edge, set_node_property, remove_node_property, set_edge_property, remove_edge_property,
}
use nervusdb.Run.{L0Run, freeze_into_run, run_is_empty}
use nervusdb.Engine.{publish_unless_empty, run_of, commit_all}
use nervusdb.ReadPath.History.{all_ops}
use nervusdb.Nodes.{
  is_tombstoned_node_in_runs, range_from, live_node_ids, collect_nodes, collect_from,
  collect_tombstoned_nodes,
}

-- The calls bury the node.
abbrev op_buries : GraphOp → ℕ → Bool
op_buries (bury_node m) n = m == n
op_buries _ n = false

unfoldable pub buries : List GraphOp → ℕ → Bool
buries [] n = false
buries (op ∷ ops) n = let rest = buries ops n in op_buries op n || rest

buries-append : (xs ys : List GraphOp) (n : ℕ) → buries (xs ++ ys) n ≡ (buries xs n || buries ys n)
unfolding buries
buries-append [] ys n = refl
buries-append (op ∷ xs) ys n = ground (arith, buries-append xs ys n)

any-contains : (s : Set ℕ) (n : ℕ) → any (λ m. m == n) s ≡ contains n s
unfolding contains
any-contains [] n = refl
any-contains (m ∷ s) n = ground (arith, any-contains s n)

contains-apply :
    (op : GraphOp) (t : MemTable) (n : ℕ)
    → contains n (apply op t).tombstoned_nodes ≡ (op_buries op n || contains n t.tombstoned_nodes)
unfolding apply create_edge tombstone_node tombstone_edge set_node_property remove_node_property
    set_edge_property remove_edge_property
contains-apply (bury_node m) t n = contains-add m n t.tombstoned_nodes
contains-apply _ t n = refl

contains-apply_all :
    (ops : List GraphOp) (t : MemTable) (n : ℕ)
    → contains n (apply_all ops t).tombstoned_nodes
      ≡ (buries ops n || contains n t.tombstoned_nodes)
unfolding apply_all buries
contains-apply_all [] t n = refl
contains-apply_all (op ∷ ops) t n =
    ground (arith, contains-apply_all ops (apply op t) n, contains-apply op t n)

publish_unless_empty-buries :
    (txid : ℕ) (ops : List GraphOp) (runs : List L0Run) (n : ℕ)
    → is_tombstoned_node_in_runs (publish_unless_empty (run_of txid ops) runs) n
      ≡ (buries ops n || is_tombstoned_node_in_runs runs n)
unfolding publish_unless_empty run_of freeze_into_run run_is_empty is_tombstoned_node_in_runs
    contains
publish_unless_empty-buries txid ops runs n =
    ground
      (arith, contains-apply_all ops empty n, any-contains (apply_all ops empty).tombstoned_nodes n)

-- After any transactions were committed over any runs, a node is hidden just when a call of theirs buried
-- it or it was hidden before.
pub is_tombstoned-commit_all :
    (txs : List (ℕ × List GraphOp)) (runs : List L0Run) (n : ℕ)
    → is_tombstoned_node_in_runs (commit_all txs runs) n
      ≡ (buries (all_ops txs) n || is_tombstoned_node_in_runs runs n)
unfolding commit_all
is_tombstoned-commit_all [] runs n = unfold buries in refl
is_tombstoned-commit_all ((txid, ops) ∷ txs) runs n =
    is_tombstoned-commit_all txs (publish_unless_empty (run_of txid ops) runs) n
    ∙ ground (arith, publish_unless_empty-buries txid ops runs n, buries-append ops (all_ops txs) n)

collect_nodes_lem :
    (ns : List ℕ) (s : Set ℕ) (n : ℕ)
    → contains n (collect_nodes ns s) ≡ (any (λ m. m == n) ns || contains n s)
unfolding collect_nodes
collect_nodes_lem [] s n = refl
collect_nodes_lem (m ∷ ns) s n =
    ground (arith, collect_nodes_lem ns (add m s) n, contains-add m n s)

collect_from_lem :
    (runs : List L0Run) (s : Set ℕ) (n : ℕ)
    → contains n (collect_from runs s) ≡ (is_tombstoned_node_in_runs runs n || contains n s)
unfolding collect_from is_tombstoned_node_in_runs
collect_from_lem [] s n = refl
collect_from_lem (run ∷ runs) s n = ground (
  arith,
  collect_from_lem runs (collect_nodes run.tombstoned_nodes s) n,
  collect_nodes_lem run.tombstoned_nodes s n,
)

live_from :
    (p : ℕ → Bool) (from count n : ℕ)
    → any (λ m. m == n) (retain p (range_from from count))
      ≡ (leb from n && ltb n (from + count) && p n)
unfolding range_from
live_from p from zero n = ground arith
live_from p from (suc count) n = elim (ℕ_discrete from n) [
  | yes e ↦ rw (← e) (ground (arith, live_from p (suc from) count from))
  | no d ↦ ground (arith, live_from p (suc from) count n)
]

contains-nil : (n : ℕ) → contains n [] ≡ false
unfolding contains
contains-nil n = refl

-- The collected set of buried nodes has a node just when the scan of the runs finds it buried, and the
-- live nodes below `max_id` are those that it does not find.
pub live_node_ids-collect_tombstoned_nodes :
    (max_id : ℕ) (runs : List L0Run) (n : ℕ)
    → (contains n (collect_tombstoned_nodes runs) ≡ is_tombstoned_node_in_runs runs n)
      × (any (λ m. m == n) (live_node_ids max_id runs)
          ≡ (ltb n max_id && not (contains n (collect_tombstoned_nodes runs))))
unfolding collect_tombstoned_nodes live_node_ids
live_node_ids-collect_tombstoned_nodes max_id runs n =
    let c = collect_from_lem runs [] n in
    (
      ground (arith, c, contains-nil n),
      ground (
        arith,
        c,
        contains-nil n,
        live_from (λ i. not (is_tombstoned_node_in_runs runs i)) 0 max_id n,
      ),
    )
