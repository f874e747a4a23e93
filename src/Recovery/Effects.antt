-- ===== src/Recovery/Effects.antt =====
-- The effect on a property of the records of a commit: only those of the properties count.
use mathlib.Core.List.{map}
use nervusdb.Base.{ℕ, ◌≡◌, refl, sym, ◌∙◌, Bool, true, false, List, [], ◌∷◌, ◌++◌}
use nervusdb.Api.Property.{Text}
use nervusdb.Api.Edge.{EdgeKey, node_key, edge_key}
use nervusdb.MemTable.{MemTable, GraphOp}
use nervusdb.Run.{freeze_into_run, iter_edges}
use nervusdb.Run.Effect.{
  Effect, stays, becomes, gone, followed_by, followed_by_assoc, op_on_node, op_on_edge,
  node_history, edge_history,
}
use nervusdb.Wal.{
  WalRecord, create_node, add_node_label, remove_node_label, tombstone_node, tombstone_edge,
  create_edge,
}
use nervusdb.Recovery.{Pending, commit_ops, node_records, graph_records, property_records}

pub stays_first : (e : Effect) → followed_by stays e ≡ e
stays_first stays = refl
stays_first (becomes v) = refl
stays_first gone = refl

pub node_history-append :
    (xs ys : List GraphOp) (n : ℕ) (k : Text)
    → node_history (xs ++ ys) n k ≡ followed_by (node_history xs n k) (node_history ys n k)
unfolding node_history
node_history-append [] ys n k = sym (stays_first (node_history ys n k))
node_history-append (op ∷ xs) ys n k =
    rw (node_history-append xs ys n k)
      (sym (followed_by_assoc (op_on_node op n k) (node_history xs n k) (node_history ys n k)))

pub edge_history-append :
    (xs ys : List GraphOp) (e : EdgeKey) (k : Text)
    → edge_history (xs ++ ys) e k ≡ followed_by (edge_history xs e k) (edge_history ys e k)
unfolding edge_history
edge_history-append [] ys e k = sym (stays_first (edge_history ys e k))
edge_history-append (op ∷ xs) ys e k =
    rw (edge_history-append xs ys e k)
      (sym (followed_by_assoc (op_on_edge op e k) (edge_history xs e k) (edge_history ys e k)))

-- The records that are about no property.
abbrev pub structural : WalRecord → Bool
structural (create_node x l i) = true
structural (add_node_label n l) = true
structural (remove_node_label n l) = true
structural (create_edge s r d) = true
structural (tombstone_node n) = true
structural (tombstone_edge s r d) = true
structural r = false

-- An effect of records that composes, and that those records do not have.
module _ (H : List WalRecord → Effect)
    (H_append : (xs ys : List WalRecord) → H (xs ++ ys) ≡ followed_by (H xs) (H ys))
    (H_nil : H [] ≡ stays) where
  pub silent :
      {A : Type 0} (f : A → WalRecord)
      → ((a : A) → H (f a ∷ []) ≡ stays)
      → (xs : List A) → H (map f xs) ≡ stays
  silent f h [] = H_nil
  silent f h (x ∷ xs) = H_append (f x ∷ []) (map f xs) ∙ rw (h x, silent f h xs) refl

  pub skip : (xs ys : List WalRecord) → H xs ≡ stays → H (xs ++ ys) ≡ H ys
  skip xs ys h = H_append xs ys ∙ rw h (stays_first (H ys))

  -- Of a commit's records only the properties' count.
  pub commit_ops-properties :
      ((r : WalRecord) → structural r ≡ true → H (r ∷ []) ≡ stays)
      → (txid : ℕ) (pending : Pending) (t : MemTable)
      → H (commit_ops txid pending t) ≡ H (property_records t)
  unfolding commit_ops
  commit_ops-properties quiet txid pending t =
      let run = freeze_into_run txid t in
      let created : ℕ × ℕ × ℕ → WalRecord = λ ((x, l, i) : ℕ × ℕ × ℕ). create_node x l i in
      let added : ℕ × ℕ → WalRecord = λ ((n, l) : ℕ × ℕ). add_node_label n l in
      let removed : ℕ × ℕ → WalRecord = λ ((n, l) : ℕ × ℕ). remove_node_label n l in
      let edge = λ (e : EdgeKey). create_edge e.src e.rel e.dst in
      let buried = λ (e : EdgeKey). tombstone_edge e.src e.rel e.dst in
      let props = property_records t in
      let graph : H (graph_records run ++ props) ≡ H props = skip (graph_records run) props (
        skip (map edge (iter_edges run))
          (map tombstone_node run.tombstoned_nodes ++ map buried run.tombstoned_edges)
          (silent edge (λ e. quiet (edge e) refl) (iter_edges run))
        ∙ (skip (map tombstone_node run.tombstoned_nodes) (map buried run.tombstoned_edges)
              (silent tombstone_node (λ n. quiet (tombstone_node n) refl) run.tombstoned_nodes)
            ∙ silent buried (λ e. quiet (buried e) refl) run.tombstoned_edges)) in
      skip (node_records pending) (graph_records run ++ props) (
        skip (map created pending.created_nodes)
          (map added pending.label_additions ++ map removed pending.label_removals)
          (silent created (λ c. quiet (created c) refl) pending.created_nodes)
        ∙ (skip (map added pending.label_additions) (map removed pending.label_removals)
              (silent added (λ c. quiet (added c) refl) pending.label_additions)
            ∙ silent removed (λ c. quiet (removed c) refl) pending.label_removals))
      ∙ graph
