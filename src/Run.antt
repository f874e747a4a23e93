-- ===== src/Run.antt =====
-- `L0Run` of nervusdb-storage/src/snapshot.rs, with read_path_run_state.rs, read_path_run_edges.rs,
-- read_path_run_props.rs, read_path_run_property_maps.rs and read_path_run_iters.rs, and
-- `freeze_into_run` of memtable.rs, which makes a run of a memtable.
pub mod Properties
pub mod Effect
use nervusdb.Base.{ℕ, not, Bool, ◌&&◌, ◌||◌, Option, none, some, List, [], ◌∷◌, ◌++◌, if◌then◌else◌}
use nervusdb.Base.{is_empty}
use nervusdb.Base.OrdMap.{Key, Map, Set, get, get_or, contains}
use nervusdb.Api.Property.{Text, PropertyValue}
use nervusdb.Api.Edge.{EdgeKey, edge_lt, node_key, edge_key, text_key}
use nervusdb.MemTable.{MemTable, Buckets, PropertyMap}

pub record L0Run : Type 0 where
  pub txid : ℕ
  pub edges_by_src : Buckets
  pub edges_by_dst : Buckets
  pub tombstoned_nodes : Set ℕ
  pub tombstoned_edges : Set EdgeKey
  pub node_properties : Map ℕ PropertyMap
  pub edge_properties : Map EdgeKey PropertyMap
  pub tombstoned_node_properties : Map ℕ (Set Text)
  pub tombstoned_edge_properties : Map EdgeKey (Set Text)

-- `Vec::sort` of edges
unfoldable pub insert_edge : EdgeKey → List EdgeKey → List EdgeKey
insert_edge e [] = e ∷ []
insert_edge e (x ∷ xs) = let rest = insert_edge e xs in if edge_lt x e then x ∷ rest else e ∷ x ∷ xs

unfoldable pub sort_edges : List EdgeKey → List EdgeKey
unfolding insert_edge
sort_edges [] = []
sort_edges (x ∷ xs) = insert_edge x (sort_edges xs)

unfoldable pub sort_buckets : Buckets → Buckets
unfolding sort_edges
sort_buckets [] = []
sort_buckets ((node, edges) ∷ m) = (node, sort_edges edges) ∷ sort_buckets m

unfoldable pub freeze_into_run : ℕ → MemTable → L0Run
unfolding sort_buckets
freeze_into_run txid t = record {
  txid = txid;
  edges_by_src = sort_buckets t.out;
  edges_by_dst = sort_buckets t.in_;
  tombstoned_nodes = t.tombstoned_nodes;
  tombstoned_edges = t.tombstoned_edges;
  node_properties = t.node_properties;
  edge_properties = t.edge_properties;
  tombstoned_node_properties = t.removed_node_properties;
  tombstoned_edge_properties = t.removed_edge_properties;
}

unfoldable pub edges_for_src : L0Run → ℕ → List EdgeKey
edges_for_src run src = get_or [] src run.edges_by_src

unfoldable pub edges_for_dst : L0Run → ℕ → List EdgeKey
edges_for_dst run dst = get_or [] dst run.edges_by_dst

unfoldable pub run_has_properties : L0Run → Bool
run_has_properties run =
    not (is_empty run.node_properties)
    || not (is_empty run.edge_properties)
    || not (is_empty run.tombstoned_node_properties)
    || not (is_empty run.tombstoned_edge_properties)

unfoldable pub run_is_empty : L0Run → Bool
run_is_empty run =
    is_empty run.edges_by_src
    && is_empty run.edges_by_dst
    && is_empty run.tombstoned_nodes
    && is_empty run.tombstoned_edges
    && is_empty run.node_properties
    && is_empty run.edge_properties
    && is_empty run.tombstoned_node_properties
    && is_empty run.tombstoned_edge_properties

-- `edges_by_src.values().flat_map(..)`
unfoldable pub all_edges : Buckets → List EdgeKey
all_edges [] = []
all_edges ((node, edges) ∷ m) = edges ++ all_edges m

unfoldable pub iter_edges : L0Run → List EdgeKey
unfolding all_edges
iter_edges run = all_edges run.edges_by_src

module _ {K : Type 0} ⦃k : Key K⦄ where
  -- `tombstoned.get(&owner)` is there and contains the key
  unfoldable pub is_removed : Map K (Set Text) → K → Text → Bool
  is_removed m owner key = contains key (get_or [] owner m)

  unfoldable pub property_in : Map K PropertyMap → K → Text → Option PropertyValue
  property_in m owner key = elim (get owner m) [ none ↦ none | some props ↦ get key props ]

unfoldable pub node_property_in_run : L0Run → ℕ → Text → Option PropertyValue
unfolding is_removed property_in
node_property_in_run run node key =
    if is_removed run.tombstoned_node_properties node key
    then none
    else property_in run.node_properties node key

unfoldable pub edge_property_in_run : L0Run → EdgeKey → Text → Option PropertyValue
unfolding is_removed property_in
edge_property_in_run run edge key =
    if is_removed run.tombstoned_edge_properties edge key
    then none
    else property_in run.edge_properties edge key
