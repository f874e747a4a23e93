-- ===== src/ReadPath.antt =====
-- Property reads over all published runs, newest first: nervusdb-storage/src/read_path_overlay.rs.
pub mod History
pub mod Merged
use nervusdb.Base.{ℕ, Option, none, some, List, [], ◌∷◌, if◌then◌else◌}
use nervusdb.Base.{is_empty}
use nervusdb.Base.OrdMap.{Key, Map, Set, get_or, insert, contains, add}
use nervusdb.Api.Property.{Text, PropertyValue}
use nervusdb.Api.Edge.{EdgeKey, node_key, edge_key, text_key}
use nervusdb.MemTable.{PropertyMap}
use nervusdb.Run.{L0Run, is_removed, node_property_in_run, edge_property_in_run}

unfoldable pub node_property_from_runs : List L0Run → ℕ → Text → Option PropertyValue
unfolding is_removed
node_property_from_runs [] node key = none
node_property_from_runs (run ∷ runs) node key =
    let rest = node_property_from_runs runs node key in
    if is_removed run.tombstoned_node_properties node key
    then none
    else elim (node_property_in_run run node key) [ some value ↦ some value | none ↦ rest ]

unfoldable pub edge_property_from_runs : List L0Run → EdgeKey → Text → Option PropertyValue
unfolding is_removed
edge_property_from_runs [] edge key = none
edge_property_from_runs (run ∷ runs) edge key =
    let rest = edge_property_from_runs runs edge key in
    if is_removed run.tombstoned_edge_properties edge key
    then none
    else elim (edge_property_in_run run edge key) [ some value ↦ some value | none ↦ rest ]

-- The loop state of the merges: what is merged so far, and the keys that are decided.
pub record Merge : Type 0 where
  pub merged : PropertyMap
  pub resolved : Set Text

-- `for key in deleted_keys { resolved.insert(key) }`
unfoldable pub resolve_all : Set Text → Set Text → Set Text
resolve_all [] resolved = resolved
resolve_all (key ∷ keys) resolved = resolve_all keys (add key resolved)

-- `resolved.insert(key)` is true when the key was not in it.
unfoldable pub merge_entry : Text → PropertyValue → Merge → Merge
merge_entry key value s = record {
  merged = if contains key s.resolved then s.merged else insert key value s.merged;
  resolved = add key s.resolved;
}

unfoldable pub merge_props : PropertyMap → Merge → Merge
unfolding merge_entry
merge_props [] s = s
merge_props ((key, value) ∷ props) s = merge_props props (merge_entry key value s)

unfoldable pub merge_run :
    {K : Type 0} ⦃k : Key K⦄ → K → Map K (Set Text) → Map K PropertyMap → Merge → Merge
unfolding resolve_all merge_props
merge_run owner deleted properties s =
    merge_props (get_or [] owner properties)
      (record s { resolved = resolve_all (get_or [] owner deleted) s.resolved })

unfoldable pub merge_node_runs : List L0Run → ℕ → Merge → Merge
unfolding merge_run
merge_node_runs [] node s = s
merge_node_runs (run ∷ runs) node s =
    merge_node_runs runs node (merge_run node run.tombstoned_node_properties run.node_properties s)

unfoldable pub merge_edge_runs : List L0Run → EdgeKey → Merge → Merge
unfolding merge_run
merge_edge_runs [] edge s = s
merge_edge_runs (run ∷ runs) edge s =
    merge_edge_runs runs edge (merge_run edge run.tombstoned_edge_properties run.edge_properties s)

abbrev pub finish : Merge → Option PropertyMap
finish s = if is_empty s.merged then none else some s.merged

abbrev pub merge_start : Merge
merge_start = record { merged = []; resolved = [] }

unfoldable pub merge_node_properties_from_runs : List L0Run → ℕ → Option PropertyMap
unfolding merge_node_runs
merge_node_properties_from_runs runs node = finish (merge_node_runs runs node merge_start)

unfoldable pub merge_edge_properties_from_runs : List L0Run → EdgeKey → Option PropertyMap
unfolding merge_edge_runs
merge_edge_properties_from_runs runs edge = finish (merge_edge_runs runs edge merge_start)
