-- ===== src/MemTable.antt =====
-- nervusdb-storage/src/memtable.rs: the mutations that one write transaction has collected, and the
-- calls of `WriteTxn` (nervusdb-storage/src/engine.rs) that fill it.
use nervusdb.Base.{ℕ, not, none, some, List, [], ◌∷◌, ◌++◌, if◌then◌else◌}
use nervusdb.Base.{retain, is_empty}
use nervusdb.Base.OrdMap.{Key, Map, Set, get, get_or, insert, remove, add, erase}
use nervusdb.Api.Property.{Text, PropertyValue}
use nervusdb.Api.Edge.{EdgeKey, edge_eq, node_key, edge_key, text_key}

abbrev pub Buckets : Type 0
Buckets = Map ℕ (List EdgeKey)

abbrev pub PropertyMap : Type 0
PropertyMap = Map Text PropertyValue

pub record MemTable : Type 0 where
  pub out : Buckets
  pub in_ : Buckets
  pub tombstoned_nodes : Set ℕ
  pub tombstoned_edges : Set EdgeKey
  pub node_properties : Map ℕ PropertyMap
  pub edge_properties : Map EdgeKey PropertyMap
  pub removed_node_properties : Map ℕ (Set Text)
  pub removed_edge_properties : Map EdgeKey (Set Text)

-- `MemTable::default()`
abbrev pub empty : MemTable
empty = record {
  out = [];
  in_ = [];
  tombstoned_nodes = [];
  tombstoned_edges = [];
  node_properties = [];
  edge_properties = [];
  removed_node_properties = [];
  removed_edge_properties = [];
}

-- `entry(node).or_default().push(key)`
unfoldable pub push_edge : ℕ → EdgeKey → Buckets → Buckets
push_edge node key m = insert node (get_or [] node m ++ key ∷ []) m

unfoldable pub create_edge : ℕ → ℕ → ℕ → MemTable → MemTable
unfolding push_edge
create_edge src rel dst t =
    let key : EdgeKey = record { src = src; rel = rel; dst = dst } in
    record t { out = push_edge src key t.out; in_ = push_edge dst key t.in_ }

unfoldable pub tombstone_node : ℕ → MemTable → MemTable
tombstone_node node t = record t { tombstoned_nodes = add node t.tombstoned_nodes }

-- `retain(|edge| *edge != key)`, and the bucket goes when nothing is left in it.
unfoldable pub drop_edge : ℕ → EdgeKey → Buckets → Buckets
drop_edge node key m = elim (get node m) [
  | none ↦ m
  | some edges ↦
      let kept = retain (λ e. not (edge_eq e key)) edges in
      if is_empty kept then remove node m else insert node kept m
]

unfoldable pub tombstone_edge : ℕ → ℕ → ℕ → MemTable → MemTable
unfolding drop_edge
tombstone_edge src rel dst t =
    let key : EdgeKey = record { src = src; rel = rel; dst = dst } in
    record t {
      out = drop_edge src key t.out;
      in_ = drop_edge dst key t.in_;
      tombstoned_edges = add key t.tombstoned_edges;
    }

-- The property maps of nodes and those of edges are handled alike.
module _ {K : Type 0} ⦃k : Key K⦄ where
  unfoldable pub put_property : K → Text → PropertyValue → Map K PropertyMap → Map K PropertyMap
  put_property owner key value m = insert owner (insert key value (get_or [] owner m)) m

  unfoldable pub unmark_removed : K → Text → Map K (Set Text) → Map K (Set Text)
  unmark_removed owner key m = elim (get owner m) [
    | none ↦ m
    | some removed ↦ insert owner (erase key removed) m
  ]

  unfoldable pub drop_property : K → Text → Map K PropertyMap → Map K PropertyMap
  drop_property owner key m = elim (get owner m) [
    | none ↦ m
    | some props ↦
        let kept = remove key props in if is_empty kept then remove owner m else insert owner kept m
  ]

  unfoldable pub mark_removed : K → Text → Map K (Set Text) → Map K (Set Text)
  mark_removed owner key m = insert owner (add key (get_or [] owner m)) m

unfoldable pub set_node_property : ℕ → Text → PropertyValue → MemTable → MemTable
set_node_property node key value t = record t {
  node_properties = put_property node key value t.node_properties;
  removed_node_properties = unmark_removed node key t.removed_node_properties;
}

unfoldable pub remove_node_property : ℕ → Text → MemTable → MemTable
remove_node_property node key t = record t {
  node_properties = drop_property node key t.node_properties;
  removed_node_properties = mark_removed node key t.removed_node_properties;
}

unfoldable pub set_edge_property : EdgeKey → Text → PropertyValue → MemTable → MemTable
set_edge_property edge key value t = record t {
  edge_properties = put_property edge key value t.edge_properties;
  removed_edge_properties = unmark_removed edge key t.removed_edge_properties;
}

unfoldable pub remove_edge_property : EdgeKey → Text → MemTable → MemTable
remove_edge_property edge key t = record t {
  edge_properties = drop_property edge key t.edge_properties;
  removed_edge_properties = mark_removed edge key t.removed_edge_properties;
}

-- The mutating calls of a `WriteTxn` that go to its memtable.
pub data GraphOp : Type 0 where
  add_edge : ℕ → ℕ → ℕ → GraphOp
  bury_node : ℕ → GraphOp
  bury_edge : ℕ → ℕ → ℕ → GraphOp
  set_node : ℕ → Text → PropertyValue → GraphOp
  set_edge : EdgeKey → Text → PropertyValue → GraphOp
  unset_node : ℕ → Text → GraphOp
  unset_edge : EdgeKey → Text → GraphOp

unfoldable pub apply : GraphOp → MemTable → MemTable
apply (add_edge src rel dst) t = create_edge src rel dst t
apply (bury_node node) t = tombstone_node node t
apply (bury_edge src rel dst) t = tombstone_edge src rel dst t
apply (set_node node key value) t = set_node_property node key value t
apply (set_edge edge key value) t = set_edge_property edge key value t
apply (unset_node node key) t = remove_node_property node key t
apply (unset_edge edge key) t = remove_edge_property edge key t

unfoldable pub apply_all : List GraphOp → MemTable → MemTable
unfolding apply
apply_all [] t = t
apply_all (op ∷ ops) t = apply_all ops (apply op t)
