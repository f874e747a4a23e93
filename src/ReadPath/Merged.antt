-- ===== src/ReadPath/Merged.antt =====
-- The merged property maps of read_path_overlay.rs against the reads of single keys.
use nervusdb.Base.{
  ℕ, ◌≡◌, refl, ◌∙◌, Bool, true, false, ◌||◌, Option, none, some, List, [], ◌∷◌, arith,
}
use nervusdb.Base.{if◌then◌else◌}
use nervusdb.Base.OrdMap.{Key, Map, Set, get, get_or, contains, add, get-insert, contains-add}
use nervusdb.Api.Property.{Text, PropertyValue}
use nervusdb.Api.Edge.{EdgeKey, bytes_eq_iff, node_key, edge_key, text_key}
use nervusdb.MemTable.{PropertyMap}
use nervusdb.Run.{L0Run, is_removed, property_in, node_property_in_run, edge_property_in_run}
use nervusdb.ReadPath.{
  Merge, resolve_all, merge_entry, merge_props, merge_run, merge_node_runs, merge_edge_runs,
  node_property_from_runs, edge_property_from_runs, merge_node_properties_from_runs,
  merge_edge_properties_from_runs, merge_start, finish,
}

abbrev or_else : Option PropertyValue → Option PropertyValue → Option PropertyValue
or_else (some v) o = some v
or_else none o = o

abbrev is_some : Option PropertyValue → Bool
is_some (some v) = true
is_some none = false

contains-resolve_all :
    (keys r : Set Text) (key : Text)
    → contains key (resolve_all keys r) ≡ (contains key keys || contains key r)
unfolding resolve_all contains
contains-resolve_all [] r key = refl
contains-resolve_all (j ∷ keys) r key =
    ground (arith, contains-resolve_all keys (add j r) key, contains-add j key r)

merge_props_lem :
    (props : PropertyMap) (s : Merge) (key : Text)
    → (contains key (merge_props props s).resolved
        ≡ (contains key s.resolved || is_some (get key props)))
      × (get key (merge_props props s).merged ≡ (
          if contains key s.resolved
          then get key s.merged
          else or_else (get key props) (get key s.merged)))
unfolding merge_props merge_entry get
merge_props_lem [] s key = (ground arith, ground arith)
merge_props_lem ((j, v) ∷ props) s key =
    let ih = merge_props_lem props (merge_entry j v s) key in
    let law = get-insert j key v s.merged in
    let known = contains-add j key s.resolved in
    (
      ground (arith, ih, known, bytes_eq_iff j key),
      ground (arith, ih, law, known, bytes_eq_iff j key),
    )

module _ {K : Type 0} ⦃k : Key K⦄ where
  merge_run_lem :
      (o : K) (deleted : Map K (Set Text)) (props : Map K PropertyMap) (s : Merge) (key : Text)
      → (contains key (merge_run o deleted props s).resolved ≡ (
          contains key s.resolved || is_removed deleted o key || is_some (property_in props o key)))
        × (get key (merge_run o deleted props s).merged ≡ (
            if contains key s.resolved || is_removed deleted o key
            then get key s.merged
            else or_else (property_in props o key) (get key s.merged)))
  unfolding merge_run is_removed property_in get_or
  merge_run_lem o deleted props s key =
      let gone = get_or [] o deleted in
      let start : Merge = record s { resolved = resolve_all gone s.resolved } in
      let ih = merge_props_lem (get_or [] o props) start key in
      let known = contains-resolve_all gone s.resolved key in
      (ground (arith, ih, known), ground (arith, ih, known))

merge_node_runs_lem :
    (runs : List L0Run) (n : ℕ) (s : Merge) (key : Text)
    → get key (merge_node_runs runs n s).merged ≡ (
        if contains key s.resolved
        then get key s.merged
        else or_else (node_property_from_runs runs n key) (get key s.merged))
unfolding merge_node_runs node_property_from_runs node_property_in_run
merge_node_runs_lem [] n s key = ground arith
merge_node_runs_lem (run ∷ runs) n s key =
    let deleted = run.tombstoned_node_properties in
    let props = run.node_properties in
    ground (
      arith,
      merge_node_runs_lem runs n (merge_run n deleted props s) key,
      merge_run_lem n deleted props s key,
    )

merge_edge_runs_lem :
    (runs : List L0Run) (e : EdgeKey) (s : Merge) (key : Text)
    → get key (merge_edge_runs runs e s).merged ≡ (
        if contains key s.resolved
        then get key s.merged
        else or_else (edge_property_from_runs runs e key) (get key s.merged))
unfolding merge_edge_runs edge_property_from_runs edge_property_in_run
merge_edge_runs_lem [] e s key = ground arith
merge_edge_runs_lem (run ∷ runs) e s key =
    let deleted = run.tombstoned_edge_properties in
    let props = run.edge_properties in
    ground (
      arith,
      merge_edge_runs_lem runs e (merge_run e deleted props s) key,
      merge_run_lem e deleted props s key,
    )

-- A key in what a merge returns: `None` stands for the empty map.
abbrev pub merged_get : Text → Option PropertyMap → Option PropertyValue
merged_get key none = none
merged_get key (some m) = get key m

or_else-none : (o : Option PropertyValue) → or_else o none ≡ o
or_else-none none = refl
or_else-none (some v) = refl

merged_get-finish : (s : Merge) (key : Text) → merged_get key (finish s) ≡ get key s.merged
unfolding get
merged_get-finish s key = ground arith

-- The map of all of a node's properties has, for every key, the value that the read of that one key gives.
pub node_properties_agree :
    (runs : List L0Run) (n : ℕ) (key : Text)
    → merged_get key (merge_node_properties_from_runs runs n) ≡ node_property_from_runs runs n key
unfolding merge_node_properties_from_runs contains get
node_properties_agree runs n key =
    merged_get-finish (merge_node_runs runs n merge_start) key
    ∙ merge_node_runs_lem runs n merge_start key
    ∙ or_else-none (node_property_from_runs runs n key)

-- The map of all of an edge's properties has, for every key, the value that the read of that one key gives.
pub edge_properties_agree :
    (runs : List L0Run) (e : EdgeKey) (key : Text)
    → merged_get key (merge_edge_properties_from_runs runs e) ≡ edge_property_from_runs runs e key
unfolding merge_edge_properties_from_runs contains get
edge_properties_agree runs e key =
    merged_get-finish (merge_edge_runs runs e merge_start) key
    ∙ merge_edge_runs_lem runs e merge_start key
    ∙ or_else-none (edge_property_from_runs runs e key)
