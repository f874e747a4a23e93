-- ===== src/Recovery/NodeEffects.antt =====
-- The effect of a commit's records on a property of a node.
use mathlib.Core.List.{map}
use nervusdb.Base.{ℕ, ◌≡◌, refl, ap, ◌∙◌, true, ◌&&◌, List, [], ◌∷◌, ◌++◌}
use nervusdb.Base.{if◌then◌else◌, ◌==◌}
use nervusdb.Api.Property.{Text, PropertyValue}
use nervusdb.Api.Edge.{EdgeKey, bytes_eq, node_key, edge_key}
use nervusdb.MemTable.{MemTable}
use nervusdb.Run.Effect.{Effect, stays, becomes, gone, followed_by, op_on_node, node_history}
use nervusdb.Wal.{
  WalRecord, create_node, add_node_label, remove_node_label, tombstone_node, tombstone_edge,
  create_edge,
}
use nervusdb.Recovery.{
  node_set, node_unset, edge_set, edge_unset, Pending, commit_ops, properties_for_wal,
  removed_for_wal,
}
use nervusdb.Recovery.Listings.{sets, unsets}
use nervusdb.Recovery.Replay.{calls_of, calls_of-append}
use nervusdb.Recovery.Effects.{node_history-append, structural, silent, skip, commit_ops-properties}

-- The effect of records on one property of a node.
module _ (n : ℕ) (k : Text) where
  abbrev pub of_node : List WalRecord → Effect
  of_node rs = node_history (calls_of rs) n k

  of_node-append :
      (xs ys : List WalRecord) → of_node (xs ++ ys) ≡ followed_by (of_node xs) (of_node ys)
  of_node-append xs ys =
      ap (λ ops. node_history ops n k) (calls_of-append xs ys)
      ∙ node_history-append (calls_of xs) (calls_of ys) n k

  of_node-quiet : (r : WalRecord) → structural r ≡ true → of_node (r ∷ []) ≡ stays
  unfolding node_history op_on_node calls_of
  of_node-quiet (create_node x l i) h = refl
  of_node-quiet (add_node_label m l) h = refl
  of_node-quiet (remove_node_label m l) h = refl
  of_node-quiet (create_edge s r d) h = refl
  of_node-quiet (tombstone_node m) h = refl
  of_node-quiet (tombstone_edge s r d) h = refl
  of_node-quiet r h = absurd (cc)

  of_node-nil : of_node [] ≡ stays
  unfolding node_history calls_of
  of_node-nil = refl

  of_node-sets : (xs : List (ℕ × Text × PropertyValue)) → of_node (map node_set xs) ≡ sets xs n k
  unfolding node_history op_on_node calls_of sets
  of_node-sets [] = refl
  of_node-sets ((m, j, v) ∷ xs) =
      ap (followed_by (if m == n && bytes_eq j k then becomes v else stays)) (of_node-sets xs)

  of_node-unsets : (xs : List (ℕ × Text)) → of_node (map node_unset xs) ≡ unsets xs n k
  unfolding node_history op_on_node calls_of unsets
  of_node-unsets [] = refl
  of_node-unsets ((m, j) ∷ xs) =
      ap (followed_by (if m == n && bytes_eq j k then gone else stays)) (of_node-unsets xs)

  set_quiet : (x : EdgeKey × Text × PropertyValue) → of_node (edge_set x ∷ []) ≡ stays
  unfolding node_history op_on_node calls_of
  set_quiet x = refl

  unset_quiet : (x : EdgeKey × Text) → of_node (edge_unset x ∷ []) ≡ stays
  unfolding node_history op_on_node calls_of
  unset_quiet x = refl

  -- A commit's records do to a node's property what the two listings of nodes say.
  pub of_node-commit_ops :
      (txid : ℕ) (pending : Pending) (t : MemTable)
      → of_node (commit_ops txid pending t)
        ≡ followed_by
            (sets (properties_for_wal t.node_properties) n k)
            (unsets (removed_for_wal t.removed_node_properties) n k)
  of_node-commit_ops txid pending t =
      let s = map node_set (properties_for_wal t.node_properties) in
      let u = map node_unset (removed_for_wal t.removed_node_properties) in
      let es = map edge_set (properties_for_wal t.edge_properties) in
      let eu = map edge_unset (removed_for_wal t.removed_edge_properties) in
      let edges : of_node (es ++ eu) ≡ stays =
        skip of_node of_node-append of_node-nil es eu (
          silent of_node of_node-append of_node-nil edge_set set_quiet
            (properties_for_wal t.edge_properties))
        ∙ silent of_node of_node-append of_node-nil edge_unset unset_quiet
            (removed_for_wal t.removed_edge_properties) in
      let unset : of_node (u ++ (es ++ eu)) ≡ of_node u =
        of_node-append u (es ++ eu) ∙ rw edges refl in
      commit_ops-properties of_node of_node-append of_node-nil of_node-quiet txid pending t
      ∙ (of_node-append s (u ++ (es ++ eu))
          ∙ rw
              (
                of_node-sets (properties_for_wal t.node_properties),
                unset,
                of_node-unsets (removed_for_wal t.removed_node_properties),
              )
              refl)
