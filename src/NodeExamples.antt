-- ===== src/NodeExamples.antt =====
-- Hidden and live nodes on a small history, instances of the general theorems.
use nervusdb.Base.{ℕ, ◌≡◌, not, ◌&&◌, ◌||◌, List, [], ◌∷◌, ltb, ◌==◌, any}
use nervusdb.Base.OrdMap.{contains}
use nervusdb.Api.Edge.{node_key}
use nervusdb.MemTable.{GraphOp, add_edge, bury_node}
use nervusdb.Engine.{commit_all}
use nervusdb.ReadPath.History.{all_ops}
use nervusdb.Nodes.{is_tombstoned_node_in_runs, live_node_ids, collect_tombstoned_nodes}
use nervusdb.Nodes.Buried.{buries, is_tombstoned-commit_all, live_node_ids-collect_tombstoned_nodes}

abbrev burials : List (ℕ × List GraphOp)
burials = (1, add_edge 0 7 1 ∷ bury_node 2 ∷ []) ∷ (2, bury_node 0 ∷ []) ∷ []

is_tombstoned-commit_all_example :
    is_tombstoned_node_in_runs (commit_all burials []) 2
    ≡ (buries (all_ops burials) 2 || is_tombstoned_node_in_runs [] 2)
is_tombstoned-commit_all_example = is_tombstoned-commit_all burials [] 2

live_node_ids-collect_tombstoned_nodes_example :
    (contains 1 (collect_tombstoned_nodes (commit_all burials []))
      ≡ is_tombstoned_node_in_runs (commit_all burials []) 1)
    × (any (λ m. m == 1) (live_node_ids 4 (commit_all burials []))
        ≡ (ltb 1 4 && not (contains 1 (collect_tombstoned_nodes (commit_all burials [])))))
live_node_ids-collect_tombstoned_nodes_example =
    live_node_ids-collect_tombstoned_nodes 4 (commit_all burials []) 1
