-- ===== src/Recovery/EdgeEffects.antt =====
-- The effect of a commit's records on a property of an edge.
use mathlib.Core.List.{map}
use nervusdb.Base.{ℕ, ◌≡◌, refl, ap, ◌∙◌, true, ◌&&◌, List, [], ◌∷◌, ◌++◌}
use nervusdb.Base.{if◌then◌else◌}
use nervusdb.Api.Property.{Text, PropertyValue}
use nervusdb.Api.Edge.{EdgeKey, edge_eq, bytes_eq, node_key, edge_key}
use nervusdb.MemTable.{MemTable}
use nervusdb.Run.Effect.{Effect, stays, becomes, gone, followed_by, op_on_edge, edge_history}
use nervusdb.Wal.{
  WalRecord, create_node, add_node_label, remove_node_label, tombstone_node, tombstone_edge,
  create_edge,
}
use nervusdb.Recovery.{
  node_set, node_unset, edge_set, edge_unset, Pending, commit_ops, properties_for_wal,
  removed_for_wal,
}
use nervusdb.Recovery.Listings.{sets, unsets}
use nervusdb.Recovery.Replay.{calls_of, calls_of-append}
use nervusdb.Recovery.Effects.{edge_history-append, structural, silent, skip, commit_ops-properties}

-- The effect of records on one property of an edge.
module _ (e : EdgeKey) (k : Text) where
  abbrev pub of_edge : List WalRecord → Effect
  of_edge rs = edge_history (calls_of rs) e k

  of_edge-append :
      (xs ys : List WalRecord) → of_edge (xs ++ ys) ≡ followed_by (of_edge xs) (of_edge ys)
  of_edge-append xs ys =
      ap (λ ops. edge_history ops e k) (calls_of-append xs ys)
      ∙ edge_history-append (calls_of xs) (calls_of ys) e k

  of_edge-quiet : (r : WalRecord) → structural r ≡ true → of_edge (r ∷ []) ≡ stays
  unfolding edge_history op_on_edge calls_of
  of_edge-quiet (create_node x l i) h = refl
  of_edge-quiet (add_node_label m l) h = refl
  of_edge-quiet (remove_node_label m l) h = refl
  of_edge-quiet (create_edge s r d) h = refl
  of_edge-quiet (tombstone_node m) h = refl
  of_edge-quiet (tombstone_edge s r d) h = refl
  of_edge-quiet r h = absurd (cc)

  of_edge-nil : of_edge [] ≡ stays
  unfolding edge_history calls_of
  of_edge-nil = refl

  of_edge-sets :
      (xs : List (EdgeKey × Text × PropertyValue)) → of_edge (map edge_set xs) ≡ sets xs e k
  unfolding edge_history op_on_edge calls_of sets
  of_edge-sets [] = refl
  of_edge-sets ((m, j, v) ∷ xs) =
      ap (followed_by (if edge_eq m e && bytes_eq j k then becomes v else stays)) (of_edge-sets xs)

  of_edge-unsets : (xs : List (EdgeKey × Text)) → of_edge (map edge_unset xs) ≡ unsets xs e k
  unfolding edge_history op_on_edge calls_of unsets
  of_edge-unsets [] = refl
  of_edge-unsets ((m, j) ∷ xs) =
      ap (followed_by (if edge_eq m e && bytes_eq j k then gone else stays)) (of_edge-unsets xs)

  set_quiet : (x : ℕ × Text × PropertyValue) → of_edge (node_set x ∷ []) ≡ stays
  unfolding edge_history op_on_edge calls_of
  set_quiet x = refl

  unset_quiet : (x : ℕ × Text) → of_edge (node_unset x ∷ []) ≡ stays
  unfolding edge_history op_on_edge calls_of
  unset_quiet x = refl

  -- A commit's records do to an edge's property what the two listings of edges say.
  pub of_edge-commit_ops :
      (txid : ℕ) (pending : Pending) (t : MemTable)
      → of_edge (commit_ops txid pending t)
        ≡ followed_by
            (sets (properties_for_wal t.edge_properties) e k)
            (unsets (removed_for_wal t.removed_edge_properties) e k)
  of_edge-commit_ops txid pending t =
      let s = map node_set (properties_for_wal t.node_properties) in
      let u = map node_unset (removed_for_wal t.removed_node_properties) in
      let es = map edge_set (properties_for_wal t.edge_properties) in
      let eu = map edge_unset (removed_for_wal t.removed_edge_properties) in
      commit_ops-properties of_edge of_edge-append of_edge-nil of_edge-quiet txid pending t
      ∙ (skip of_edge of_edge-append of_edge-nil s (u ++ (es ++ eu)) (
            silent of_edge of_edge-append of_edge-nil node_set set_quiet
              (properties_for_wal t.node_properties))
          ∙ (skip of_edge of_edge-append of_edge-nil u (es ++ eu) (
                silent of_edge of_edge-append of_edge-nil node_unset unset_quiet
                  (removed_for_wal t.removed_node_properties))
              ∙ (of_edge-append es eu
                  ∙ rw
                      (
                        of_edge-sets (properties_for_wal t.edge_properties),
                        of_edge-unsets (removed_for_wal t.removed_edge_properties),
                      )
                      refl)))
