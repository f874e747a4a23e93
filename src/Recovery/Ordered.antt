-- ===== src/Recovery/Ordered.antt =====
-- The maps of a memtable are sorted after any calls.
use nervusdb.Base.{◌≡◌, inl, inr, some, List, [], ◌∷◌}
use nervusdb.Base.{All, is_empty, Bool-cases, Option-cases}
use nervusdb.Base.OrdMap.{Key, Map, Set, get, get_or, insert, remove, add, erase}
use nervusdb.Base.OrdMap.Sorted.{IsSorted, insert-IsSorted, remove-IsSorted}
use nervusdb.Api.Property.{Text, PropertyValue}
use nervusdb.Api.Edge.{text_key, node_key, edge_key}
use nervusdb.MemTable.{
  MemTable, PropertyMap, GraphOp, set_node, set_edge, unset_node, unset_edge, empty, apply,
  apply_all, put_property, unmark_removed, drop_property, mark_removed, create_edge, tombstone_node,
  tombstone_edge, set_node_property, remove_node_property, set_edge_property, remove_edge_property,
}
use nervusdb.Recovery.Listings.{AllSorted}

module _ {K : Type 0} ⦃k : Key K⦄ where
  Inner : Map K PropertyMap → Type 0
  Inner m = All (λ e. IsSorted (e.1)) m

  insert-Inner :
      (owner : K) (props : PropertyMap) (m : Map K PropertyMap)
      → IsSorted props
      → Inner m
      → Inner (insert owner props m)
  unfolding insert Inner
  insert-Inner owner props [] s a = (s, a)
  insert-Inner owner props ((j, v) ∷ m) s a = elim (Bool-cases (k.eq j owner)) [
    | inl e ↦ rw e (s, a.1)
    | inr e ↦ elim (Bool-cases (k.lt owner j)) [
      | inl f ↦ rw (e, f) (s, a)
      | inr f ↦ rw (e, f) (a.0, insert-Inner owner props m s a.1)
    ]
  ]

  remove-Inner : (owner : K) (m : Map K PropertyMap) → Inner m → Inner (remove owner m)
  unfolding remove Inner
  remove-Inner owner [] a = a
  remove-Inner owner ((j, v) ∷ m) a = elim (Bool-cases (k.eq j owner)) [
    | inl e ↦ rw e (remove-Inner owner m a.1)
    | inr e ↦ rw e (a.0, remove-Inner owner m a.1)
  ]

  get-Inner :
      (owner : K) (m : Map K PropertyMap) (props : PropertyMap)
      → Inner m
      → get owner m ≡ some props
      → IsSorted props
  unfolding get Inner
  get-Inner owner [] props a e = absurd (cc)
  get-Inner owner ((j, v) ∷ m) props a e = elim (Bool-cases (k.eq j owner)) [
    | inl b ↦ let same : some v ≡ some props = rw b at e in let eq : v ≡ props = cc in rw (← eq) a.0
    | inr b ↦ get-Inner owner m props a.1 (rw b at e)
  ]

  get_or-Inner : (owner : K) (m : Map K PropertyMap) → Inner m → IsSorted (get_or [] owner m)
  unfolding get_or IsSorted
  get_or-Inner owner m a = elim (Option-cases (get owner m)) [
    | inl e ↦ rw (e, get_or) tt
    | inr (props, e) ↦ rw (e, get_or) (get-Inner owner m props a e)
  ]

  put_property-AllSorted :
      (owner : K) (key : Text) (value : PropertyValue) (m : Map K PropertyMap)
      → AllSorted m
      → AllSorted (put_property owner key value m)
  unfolding put_property Inner
  put_property-AllSorted owner key value m (s, a) =
      let props = insert-IsSorted key value (get_or [] owner m) (get_or-Inner owner m a) in
      (
        insert-IsSorted owner (insert key value (get_or [] owner m)) m s,
        insert-Inner owner (insert key value (get_or [] owner m)) m props a,
      )

  drop_property-AllSorted :
      (owner : K) (key : Text) (m : Map K PropertyMap)
      → AllSorted m
      → AllSorted (drop_property owner key m)
  unfolding drop_property Inner
  drop_property-AllSorted owner key m (s, a) = elim (Option-cases (get owner m)) [
    | inl e ↦ rw (e, drop_property) (s, a)
    | inr (props, e) ↦
        let kept = remove-IsSorted key props (get-Inner owner m props a e) in
        elim (Bool-cases (is_empty (remove key props))) [
          | inl b ↦ rw (e, drop_property, b) (remove-IsSorted owner m s, remove-Inner owner m a)
          | inr b ↦
              rw (e, drop_property, b)
                (
                  insert-IsSorted owner (remove key props) m s,
                  insert-Inner owner (remove key props) m kept a,
                )
        ]
  ]

  unmark_removed-IsSorted :
      (owner : K) (key : Text) (m : Map K (Set Text))
      → IsSorted m
      → IsSorted (unmark_removed owner key m)
  unfolding unmark_removed
  unmark_removed-IsSorted owner key m s = elim (Option-cases (get owner m)) [
    | inl e ↦ rw (e, unmark_removed) s
    | inr (removed, e) ↦ rw (e, unmark_removed) (insert-IsSorted owner (erase key removed) m s)
  ]

  mark_removed-IsSorted :
      (owner : K) (key : Text) (m : Map K (Set Text))
      → IsSorted m
      → IsSorted (mark_removed owner key m)
  unfolding mark_removed
  mark_removed-IsSorted owner key m s = insert-IsSorted owner (add key (get_or [] owner m)) m s

pub record IsOrdered (t : MemTable) : Type 0 where
  pub nodes : AllSorted t.node_properties
  pub edges : AllSorted t.edge_properties
  pub removed_nodes : IsSorted t.removed_node_properties
  pub removed_edges : IsSorted t.removed_edge_properties

apply-IsOrdered : (op : GraphOp) (t : MemTable) → IsOrdered t → IsOrdered (apply op t)
unfolding apply create_edge tombstone_node tombstone_edge set_node_property remove_node_property
    set_edge_property remove_edge_property
apply-IsOrdered (set_node n key value) t o = record {
  nodes = put_property-AllSorted n key value t.node_properties o.nodes;
  edges = o.edges;
  removed_nodes = unmark_removed-IsSorted n key t.removed_node_properties o.removed_nodes;
  removed_edges = o.removed_edges;
}
apply-IsOrdered (set_edge e key value) t o = record {
  nodes = o.nodes;
  edges = put_property-AllSorted e key value t.edge_properties o.edges;
  removed_nodes = o.removed_nodes;
  removed_edges = unmark_removed-IsSorted e key t.removed_edge_properties o.removed_edges;
}
apply-IsOrdered (unset_node n key) t o = record {
  nodes = drop_property-AllSorted n key t.node_properties o.nodes;
  edges = o.edges;
  removed_nodes = mark_removed-IsSorted n key t.removed_node_properties o.removed_nodes;
  removed_edges = o.removed_edges;
}
apply-IsOrdered (unset_edge e key) t o = record {
  nodes = o.nodes;
  edges = drop_property-AllSorted e key t.edge_properties o.edges;
  removed_nodes = o.removed_nodes;
  removed_edges = mark_removed-IsSorted e key t.removed_edge_properties o.removed_edges;
}
apply-IsOrdered _ t o = record {
  nodes = o.nodes;
  edges = o.edges;
  removed_nodes = o.removed_nodes;
  removed_edges = o.removed_edges;
}

pub apply_all-IsOrdered :
    (ops : List GraphOp) (t : MemTable) → IsOrdered t → IsOrdered (apply_all ops t)
unfolding apply_all
apply_all-IsOrdered [] t o = o
apply_all-IsOrdered (op ∷ ops) t o = apply_all-IsOrdered ops (apply op t) (apply-IsOrdered op t o)

pub empty-IsOrdered : IsOrdered empty
unfolding IsSorted
empty-IsOrdered = record {
  nodes = (tt, tt);
  edges = (tt, tt);
  removed_nodes = tt;
  removed_edges = tt;
}
