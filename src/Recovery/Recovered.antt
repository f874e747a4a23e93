-- ===== src/Recovery/Recovered.antt =====
-- What a replayed transaction does to properties is what its calls did.
use nervusdb.Base.{ℕ, ◌≡◌, refl, ap, ◌∙◌, Bool, true, false, Option, List}
use nervusdb.Base.{if◌then◌else◌, ok}
use nervusdb.Base.OrdMap.{get, get_or, contains}
use nervusdb.Recovery.Effects.{stays_first}
use nervusdb.Api.Property.{Text, PropertyValue}
use nervusdb.Api.Edge.{EdgeKey, node_key, edge_key}
use nervusdb.MemTable.{MemTable, GraphOp, empty, apply_all}
use nervusdb.Run.{is_removed, property_in}
use nervusdb.Run.Effect.{
  stays, gone, effect_of, followed_by, node_history, edge_history, node_effect, edge_effect,
  node_effect-apply_all, edge_effect-apply_all,
}
use nervusdb.Recovery.Taken.{commit_ops-taken}
use nervusdb.Recovery.{node_records, Replayed, Pending, replay_ops, commit_ops}
use nervusdb.Recovery.Listings.{sets-properties_for_wal, unsets-removed_for_wal}
use nervusdb.Recovery.Ordered.{IsOrdered, apply_all-IsOrdered, empty-IsOrdered}
use nervusdb.Recovery.Replay.{calls_of, memtable_of}
use nervusdb.Recovery.NodeEffects.{of_node-commit_ops}
use nervusdb.Recovery.EdgeEffects.{of_edge-commit_ops}

set_then_removed :
    (removed : Bool) (value : Option PropertyValue)
    → followed_by (effect_of false value) (if removed then gone else stays)
      ≡ effect_of removed value
set_then_removed true value = refl
set_then_removed false value = refl

empty-node_effect : (n : ℕ) (k : Text) → node_effect empty n k ≡ stays
unfolding is_removed property_in get get_or contains
empty-node_effect n k = refl

empty-edge_effect : (e : EdgeKey) (k : Text) → edge_effect empty e k ≡ stays
unfolding is_removed property_in get get_or contains
empty-edge_effect e k = refl

-- The effect of calls on an empty memtable.
pub node_effect-calls :
    (ops : List GraphOp) (n : ℕ) (k : Text)
    → node_effect (apply_all ops empty) n k ≡ node_history ops n k
node_effect-calls ops n k =
    node_effect-apply_all ops empty n k
    ∙ rw (empty-node_effect n k) (stays_first (node_history ops n k))

pub edge_effect-calls :
    (ops : List GraphOp) (e : EdgeKey) (k : Text)
    → edge_effect (apply_all ops empty) e k ≡ edge_history ops e k
edge_effect-calls ops e k =
    edge_effect-apply_all ops empty e k
    ∙ rw (empty-edge_effect e k) (stays_first (edge_history ops e k))

-- The listings of a memtable whose maps are sorted.
pub listed-node :
    (t : MemTable) (txid : ℕ) (pending : Pending) (n : ℕ) (k : Text)
    → IsOrdered t
    → node_history (calls_of (commit_ops txid pending t)) n k ≡ node_effect t n k
listed-node t txid pending n k o =
    of_node-commit_ops n k txid pending t
    ∙ rw
        (
          sets-properties_for_wal t.node_properties n k o.nodes,
          unsets-removed_for_wal t.removed_node_properties n k o.removed_nodes,
        )
        (set_then_removed (is_removed t.removed_node_properties n k)
          (property_in t.node_properties n k))

pub listed-edge :
    (t : MemTable) (txid : ℕ) (pending : Pending) (e : EdgeKey) (k : Text)
    → IsOrdered t
    → edge_history (calls_of (commit_ops txid pending t)) e k ≡ edge_effect t e k
listed-edge t txid pending e k o =
    of_edge-commit_ops e k txid pending t
    ∙ rw
        (
          sets-properties_for_wal t.edge_properties e k o.edges,
          unsets-removed_for_wal t.removed_edge_properties e k o.removed_edges,
        )
        (set_then_removed (is_removed t.removed_edge_properties e k)
          (property_in t.edge_properties e k))

properties_replayed :
    (ops : List GraphOp) (txid : ℕ) (pending : Pending) (s r : Replayed)
    → s.memtable ≡ empty
    → replay_ops (commit_ops txid pending (apply_all ops empty)) s ≡ ok r
    → ((n : ℕ) (k : Text) → node_effect r.memtable n k ≡ node_history ops n k)
      × ((e : EdgeKey) (k : Text) → edge_effect r.memtable e k ≡ edge_history ops e k)
properties_replayed ops txid pending s r start e =
    let t = apply_all ops empty in
    let o = apply_all-IsOrdered ops empty empty-IsOrdered in
    let rs = commit_ops txid pending t in
    let whole : r.memtable ≡ apply_all (calls_of rs) empty =
      memtable_of rs s r e ∙ ap (apply_all (calls_of rs)) start in
    (
      λ n k. rw whole (
          node_effect-calls (calls_of rs) n k
          ∙ (listed-node t txid pending n k o ∙ node_effect-calls ops n k)),
      λ d k. rw whole (
          edge_effect-calls (calls_of rs) d k
          ∙ (listed-edge t txid pending d k o ∙ edge_effect-calls ops d k)),
    )

-- A transaction made the calls `ops`, and its log records are replayed into an empty memtable. Where the
-- records of its nodes and labels are taken, the replay ends without an error, and the memtable says of
-- each property of a node and of an edge what the last of the calls on it did.
pub replay_ops-commit_ops :
    (ops : List GraphOp) (txid : ℕ) (pending : Pending) (s next : Replayed)
    → s.memtable ≡ empty
    → replay_ops (node_records pending) s ≡ ok next
    → (r : Replayed) × (replay_ops (commit_ops txid pending (apply_all ops empty)) s ≡ ok r)
      × ((n : ℕ) (k : Text) → node_effect r.memtable n k ≡ node_history ops n k)
      × ((e : EdgeKey) (k : Text) → edge_effect r.memtable e k ≡ edge_history ops e k)
replay_ops-commit_ops ops txid pending s next start taken =
    let (r, e, same_map, same_pager) =
      commit_ops-taken txid pending (apply_all ops empty) s next taken in
    let (nodes, edges) = properties_replayed ops txid pending s r start e in (r, e, nodes, edges)
