-- ===== src/Run/Effect.antt =====
-- What a list of `WriteTxn` calls does to one property, read off the calls alone, and the proof that
-- the memtable of those calls says the same.
use nervusdb.Base.{ℕ, ◌≡◌, refl, ◌∙◌, Bool, ◌&&◌, Option, none, some, List, [], ◌∷◌, arith}
use nervusdb.Base.{if◌then◌else◌, ◌==◌}
use nervusdb.Api.Property.{Text, PropertyValue}
use nervusdb.Api.Edge.{EdgeKey, edge_eq, bytes_eq, node_key, edge_key, text_key}
use nervusdb.MemTable.{
  MemTable, GraphOp, set_node, set_edge, unset_node, unset_edge, apply, apply_all, create_edge,
  tombstone_node, tombstone_edge, set_node_property, remove_node_property, set_edge_property,
  remove_edge_property,
}
use nervusdb.Run.{is_removed, property_in}
use nervusdb.Run.Properties.{is_removed-mark, is_removed-unmark, property_in-put, property_in-drop}

-- A property is left as it was, set, or removed.
pub data Effect : Type 0 where
  stays : Effect
  becomes : PropertyValue → Effect
  gone : Effect

abbrev pub effect_of : Bool → Option PropertyValue → Effect
effect_of removed value = if removed then gone else elim value [ none ↦ stays | some v ↦ becomes v ]

-- The later effect counts, unless it is none.
abbrev pub followed_by : Effect → Effect → Effect
followed_by e stays = e
followed_by e (becomes v) = becomes v
followed_by e gone = gone

abbrev pub value_after : Effect → Option PropertyValue → Option PropertyValue
value_after stays before = before
value_after (becomes v) before = some v
value_after gone before = none

unfoldable pub op_on_node : GraphOp → ℕ → Text → Effect
op_on_node (set_node m j v) n k = if m == n && bytes_eq j k then becomes v else stays
op_on_node (unset_node m j) n k = if m == n && bytes_eq j k then gone else stays
op_on_node _ n k = stays

unfoldable pub op_on_edge : GraphOp → EdgeKey → Text → Effect
op_on_edge (set_edge d j v) e k = if edge_eq d e && bytes_eq j k then becomes v else stays
op_on_edge (unset_edge d j) e k = if edge_eq d e && bytes_eq j k then gone else stays
op_on_edge _ e k = stays

unfoldable pub node_history : List GraphOp → ℕ → Text → Effect
unfolding op_on_node
node_history [] n k = stays
node_history (op ∷ ops) n k = followed_by (op_on_node op n k) (node_history ops n k)

unfoldable pub edge_history : List GraphOp → EdgeKey → Text → Effect
unfolding op_on_edge
edge_history [] e k = stays
edge_history (op ∷ ops) e k = followed_by (op_on_edge op e k) (edge_history ops e k)

-- The effect as the memtable records it.
abbrev pub node_effect : MemTable → ℕ → Text → Effect
node_effect t n k =
    effect_of (is_removed t.removed_node_properties n k) (property_in t.node_properties n k)

abbrev pub edge_effect : MemTable → EdgeKey → Text → Effect
edge_effect t e k =
    effect_of (is_removed t.removed_edge_properties e k) (property_in t.edge_properties e k)

pub followed_by_assoc :
    (a b c : Effect) → followed_by (followed_by a b) c ≡ followed_by a (followed_by b c)
followed_by_assoc a b stays = refl
followed_by_assoc a b (becomes v) = refl
followed_by_assoc a b gone = refl

ruleset property_laws = (is_removed-mark, is_removed-unmark, property_in-put, property_in-drop)

node_effect-apply :
    (op : GraphOp) (t : MemTable) (n : ℕ) (k : Text)
    → node_effect (apply op t) n k ≡ followed_by (node_effect t n k) (op_on_node op n k)
unfolding apply op_on_node set_node_property remove_node_property set_edge_property
    remove_edge_property create_edge tombstone_node tombstone_edge
node_effect-apply (set_node m j v) t n k = simp property_laws (ground arith)
node_effect-apply (unset_node m j) t n k = simp property_laws (ground arith)
node_effect-apply _ t n k = refl

edge_effect-apply :
    (op : GraphOp) (t : MemTable) (e : EdgeKey) (k : Text)
    → edge_effect (apply op t) e k ≡ followed_by (edge_effect t e k) (op_on_edge op e k)
unfolding apply op_on_edge set_node_property remove_node_property set_edge_property
    remove_edge_property create_edge tombstone_node tombstone_edge
edge_effect-apply (set_edge d j v) t e k = simp property_laws (ground arith)
edge_effect-apply (unset_edge d j) t e k = simp property_laws (ground arith)
edge_effect-apply _ t e k = refl

-- After any calls, the memtable says of a node's property what the last of them on it did, and what it said
-- before where there is none.
pub node_effect-apply_all :
    (ops : List GraphOp) (t : MemTable) (n : ℕ) (k : Text)
    → node_effect (apply_all ops t) n k ≡ followed_by (node_effect t n k) (node_history ops n k)
unfolding apply_all node_history
node_effect-apply_all [] t n k = refl
node_effect-apply_all (op ∷ ops) t n k =
    node_effect-apply_all ops (apply op t) n k
    ∙ rw (node_effect-apply op t n k)
        (followed_by_assoc (node_effect t n k) (op_on_node op n k) (node_history ops n k))

-- After any calls, the memtable says of an edge's property what the last of them on it did, and what it said
-- before where there is none.
pub edge_effect-apply_all :
    (ops : List GraphOp) (t : MemTable) (e : EdgeKey) (k : Text)
    → edge_effect (apply_all ops t) e k ≡ followed_by (edge_effect t e k) (edge_history ops e k)
unfolding apply_all edge_history
edge_effect-apply_all [] t e k = refl
edge_effect-apply_all (op ∷ ops) t e k =
    edge_effect-apply_all ops (apply op t) e k
    ∙ rw (edge_effect-apply op t e k)
        (followed_by_assoc (edge_effect t e k) (op_on_edge op e k) (edge_history ops e k))
