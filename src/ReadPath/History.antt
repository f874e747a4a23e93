-- ===== src/ReadPath/History.antt =====
-- A property read over the published runs gives what the history of committed calls says.
use nervusdb.Base.{ℕ, ◌≡◌, refl, ◌∙◌, Option, none, List, [], ◌∷◌, ◌++◌, arith, false}
use nervusdb.Base.OrdMap.{Key, get_or, contains, get}
use nervusdb.Api.Property.{Text, PropertyValue}
use nervusdb.Api.Edge.{EdgeKey, node_key, edge_key}
use nervusdb.MemTable.{GraphOp, empty}
use nervusdb.Run.{L0Run, freeze_into_run, run_is_empty, is_removed, property_in}
use nervusdb.Run.{node_property_in_run, edge_property_in_run}
use nervusdb.Run.Effect.{
  Effect, stays, becomes, gone, followed_by, value_after, node_history, edge_history,
  followed_by_assoc, node_effect-apply_all, edge_effect-apply_all,
}
use nervusdb.ReadPath.{node_property_from_runs, edge_property_from_runs}
use nervusdb.Engine.{publish_unless_empty, run_of, commit_all}

module _ {K : Type 0} ⦃k : Key K⦄ (o : K) (key : Text) where
  is_removed-nil : is_removed [] o key ≡ false
  unfolding is_removed get_or get contains
  is_removed-nil = refl

  property_in-nil : property_in [] o key ≡ none
  unfolding property_in get
  property_in-nil = refl

node_property-publish_unless_empty :
    (txid : ℕ) (ops : List GraphOp) (runs : List L0Run) (n : ℕ) (key : Text)
    → node_property_from_runs (publish_unless_empty (run_of txid ops) runs) n key
      ≡ value_after (node_history ops n key) (node_property_from_runs runs n key)
unfolding publish_unless_empty run_of freeze_into_run run_is_empty node_property_from_runs
    node_property_in_run
node_property-publish_unless_empty txid ops runs n key =
    ground
      (arith, node_effect-apply_all ops empty n key, is_removed-nil n key, property_in-nil n key)

edge_property-publish_unless_empty :
    (txid : ℕ) (ops : List GraphOp) (runs : List L0Run) (e : EdgeKey) (key : Text)
    → edge_property_from_runs (publish_unless_empty (run_of txid ops) runs) e key
      ≡ value_after (edge_history ops e key) (edge_property_from_runs runs e key)
unfolding publish_unless_empty run_of freeze_into_run run_is_empty edge_property_from_runs
    edge_property_in_run
edge_property-publish_unless_empty txid ops runs e key =
    ground
      (arith, edge_effect-apply_all ops empty e key, is_removed-nil e key, property_in-nil e key)

-- The calls of all transactions, in the order in which they were made.
abbrev pub all_ops : List (ℕ × List GraphOp) → List GraphOp
all_ops [] = []
all_ops ((txid, ops) ∷ txs) = ops ++ all_ops txs

pub node_history-append :
    (xs ys : List GraphOp) (n : ℕ) (key : Text)
    → node_history (xs ++ ys) n key ≡ followed_by (node_history xs n key) (node_history ys n key)
unfolding node_history
node_history-append [] ys n key = ground arith
node_history-append (op ∷ xs) ys n key = rw (node_history-append xs ys n key, followed_by_assoc)

pub edge_history-append :
    (xs ys : List GraphOp) (e : EdgeKey) (key : Text)
    → edge_history (xs ++ ys) e key ≡ followed_by (edge_history xs e key) (edge_history ys e key)
unfolding edge_history
edge_history-append [] ys e key = ground arith
edge_history-append (op ∷ xs) ys e key = rw (edge_history-append xs ys e key, followed_by_assoc)

value_after-followed_by :
    (a b : Effect) (before : Option PropertyValue)
    → value_after (followed_by a b) before ≡ value_after b (value_after a before)
value_after-followed_by a stays before = refl
value_after-followed_by a (becomes v) before = refl
value_after-followed_by a gone before = refl

-- After any transactions were committed over any runs, a node's property read over the published runs is
-- what the last call on it in their history made of it, and what was read before where there is none.
pub node_property-commit_all :
    (txs : List (ℕ × List GraphOp)) (runs : List L0Run) (n : ℕ) (key : Text)
    → node_property_from_runs (commit_all txs runs) n key
      ≡ value_after (node_history (all_ops txs) n key) (node_property_from_runs runs n key)
unfolding commit_all
node_property-commit_all [] runs n key = unfold node_history in refl
node_property-commit_all ((txid, ops) ∷ txs) runs n key =
    node_property-commit_all txs (publish_unless_empty (run_of txid ops) runs) n key
    ∙ rw (
      node_property-publish_unless_empty txid ops runs n key,
      node_history-append ops (all_ops txs) n key,
      value_after-followed_by,
    )

-- After any transactions were committed over any runs, an edge's property read over the published runs is
-- what the last call on it in their history made of it, and what was read before where there is none.
pub edge_property-commit_all :
    (txs : List (ℕ × List GraphOp)) (runs : List L0Run) (e : EdgeKey) (key : Text)
    → edge_property_from_runs (commit_all txs runs) e key
      ≡ value_after (edge_history (all_ops txs) e key) (edge_property_from_runs runs e key)
unfolding commit_all
edge_property-commit_all [] runs e key = unfold edge_history in refl
edge_property-commit_all ((txid, ops) ∷ txs) runs e key =
    edge_property-commit_all txs (publish_unless_empty (run_of txid ops) runs) e key
    ∙ rw (
      edge_property-publish_unless_empty txid ops runs e key,
      edge_history-append ops (all_ops txs) e key,
      value_after-followed_by,
    )
