-- ===== src/Nodes.antt =====
-- Which nodes are visible: nervusdb-storage/src/read_path_nodes.rs and read_path_tombstones.rs.
pub mod Buried
use nervusdb.Base.{ℕ, zero, suc, ◌+◌, Bool, not, List, [], ◌∷◌, ◌++◌}
use nervusdb.Base.{◌==◌, any, retain}
use nervusdb.Base.OrdMap.{Set, add}
use nervusdb.Api.Edge.{node_key}
use nervusdb.Run.{L0Run}

unfoldable pub is_tombstoned_node_in_runs : List L0Run → ℕ → Bool
is_tombstoned_node_in_runs runs iid =
    any (λ run. any (λ node. node == iid) run.tombstoned_nodes) runs

-- The numbers from `from` on, `count` of them.
unfoldable pub range_from : ℕ → ℕ → List ℕ
range_from from zero = []
range_from from (suc count) = from ∷ range_from (suc from) count

unfoldable pub live_node_ids : ℕ → List L0Run → List ℕ
unfolding range_from is_tombstoned_node_in_runs
live_node_ids max_id runs =
    retain (λ iid. not (is_tombstoned_node_in_runs runs iid)) (range_from 0 max_id)

-- `flat_map(..).collect()`
unfoldable pub collect_nodes : List ℕ → Set ℕ → Set ℕ
collect_nodes [] s = s
collect_nodes (n ∷ ns) s = collect_nodes ns (add n s)

unfoldable pub collect_from : List L0Run → Set ℕ → Set ℕ
unfolding collect_nodes
collect_from [] s = s
collect_from (run ∷ runs) s = collect_from runs (collect_nodes run.tombstoned_nodes s)

unfoldable pub collect_tombstoned_nodes : List L0Run → Set ℕ
unfolding collect_from
collect_tombstoned_nodes runs = collect_from runs []
