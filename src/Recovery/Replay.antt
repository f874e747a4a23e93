-- ===== src/Recovery/Replay.antt =====
-- The calls of a memtable that the replay of records makes.
use nervusdb.Base.{ℕ, ◌≡◌, refl, sym, ap, ◌∙◌, List, [], ◌∷◌, ◌++◌}
use nervusdb.Base.{◌==◌, ok, ◌>>=◌, >>=-eq-ok, guard, Option-cases, inl, inr}
use nervusdb.Api.Edge.{node_key, edge_key}
use nervusdb.MemTable.{
  GraphOp, add_edge, bury_node, bury_edge, set_node, set_edge, unset_node, unset_edge, apply,
  apply_all,
}
use nervusdb.Wal.{
  WalRecord, create_node, add_node_label, remove_node_label, tombstone_node, tombstone_edge,
  create_edge, set_node_property, set_edge_property, remove_node_property, remove_edge_property,
}
use nervusdb.Error.{Storage, wal_protocol}
use nervusdb.Pager.{Pager}
use nervusdb.IdMap.{IdMap, lookup, apply_create_node, apply_add_label, apply_remove_label}
use nervusdb.Recovery.{Replayed, replay_op, replay_ops}

unfoldable pub calls_of : List WalRecord → List GraphOp
calls_of [] = []
calls_of (create_edge src rel dst ∷ rs) = add_edge src rel dst ∷ calls_of rs
calls_of (tombstone_node node ∷ rs) = bury_node node ∷ calls_of rs
calls_of (tombstone_edge src rel dst ∷ rs) = bury_edge src rel dst ∷ calls_of rs
calls_of (set_node_property node key value ∷ rs) = set_node node key value ∷ calls_of rs
calls_of (set_edge_property src rel dst key value ∷ rs) =
    set_edge (record { src = src; rel = rel; dst = dst }) key value ∷ calls_of rs
calls_of (remove_node_property node key ∷ rs) = unset_node node key ∷ calls_of rs
calls_of (remove_edge_property src rel dst key ∷ rs) =
    unset_edge (record { src = src; rel = rel; dst = dst }) key ∷ calls_of rs
calls_of (r ∷ rs) = calls_of rs

-- Records of nodes and labels leave the memtable alone.
with_idmap :
    (o : Storage IdMap) (s next : Replayed)
    → (o >>= λ idmap. ok (record s { idmap = idmap })) ≡ ok next
    → next.memtable ≡ s.memtable
with_idmap o s next e =
    let (m, e₁, e₂) = >>=-eq-ok o (λ idmap. ok (record s { idmap = idmap })) e in
    let same : record s { idmap = m } ≡ next = cc in sym (ap (λ (r : Replayed). r.memtable) same)

create_node-memtable :
    (external_id label_id internal_id : ℕ) (s next : Replayed)
    → replay_op s (create_node external_id label_id internal_id) ≡ ok next
    → next.memtable ≡ s.memtable
unfolding replay_op
create_node-memtable external_id label_id internal_id s next e =
    elim (Option-cases (lookup s.idmap external_id)) [
      | inl f ↦
          let make = λ (made : IdMap × Pager).
            let x : Storage Replayed = ok (record s { idmap = made.0; pager = made.1 }) in x in
          let (made, e₁, e₂) =
            >>=-eq-ok (apply_create_node external_id label_id internal_id s.idmap s.pager) make
              (rw (f, replay_op) at e) in
          let same : record s { idmap = made.0; pager = made.1 } ≡ next = cc in
          sym (ap (λ (r : Replayed). r.memtable) same)
      | inr (existing, f) ↦
          let keep = λ (u : Unit {0}). let x : Storage Replayed = ok s in x in
          let (u, e₁, e₂) =
            >>=-eq-ok (guard (existing == internal_id) (wal_protocol "external id remapped")) keep
              (rw (f, replay_op) at e) in
          let same : s ≡ next = cc in sym (ap (λ (r : Replayed). r.memtable) same)
    ]

pub memtable_of :
    (rs : List WalRecord) (s r : Replayed)
    → replay_ops rs s ≡ ok r
    → r.memtable ≡ apply_all (calls_of rs) s.memtable
unfolding replay_ops replay_op calls_of apply_all
memtable_of [] s r e = let same : s ≡ r = cc in sym (ap (λ (x : Replayed). x.memtable) same)
memtable_of (create_edge src rel dst ∷ rs) s r e =
    memtable_of rs (record s { memtable = apply (add_edge src rel dst) s.memtable }) r e
memtable_of (tombstone_node node ∷ rs) s r e =
    memtable_of rs (record s { memtable = apply (bury_node node) s.memtable }) r e
memtable_of (tombstone_edge src rel dst ∷ rs) s r e =
    memtable_of rs (record s { memtable = apply (bury_edge src rel dst) s.memtable }) r e
memtable_of (set_node_property node key value ∷ rs) s r e =
    memtable_of rs (record s { memtable = apply (set_node node key value) s.memtable }) r e
memtable_of (set_edge_property src rel dst key value ∷ rs) s r e =
    memtable_of rs
      (record s {
        memtable =
            apply (set_edge (record { src = src; rel = rel; dst = dst }) key value) s.memtable;
      })
      r e
memtable_of (remove_node_property node key ∷ rs) s r e =
    memtable_of rs (record s { memtable = apply (unset_node node key) s.memtable }) r e
memtable_of (remove_edge_property src rel dst key ∷ rs) s r e =
    memtable_of rs
      (record s {
        memtable = apply (unset_edge (record { src = src; rel = rel; dst = dst }) key) s.memtable;
      })
      r e
memtable_of (create_node external_id label_id internal_id ∷ rs) s r e =
    let (next, e₁, e₂) =
      >>=-eq-ok (replay_op s (create_node external_id label_id internal_id))
        (λ next. replay_ops rs next) e in
    memtable_of rs next r e₂
    ∙ ap (apply_all (calls_of rs)) (create_node-memtable external_id label_id internal_id s next e₁)
memtable_of (add_node_label node label_id ∷ rs) s r e =
    let (next, e₁, e₂) =
      >>=-eq-ok (replay_op s (add_node_label node label_id)) (λ next. replay_ops rs next) e in
    memtable_of rs next r e₂
    ∙ ap (apply_all (calls_of rs)) (with_idmap (apply_add_label node label_id s.idmap) s next e₁)
memtable_of (remove_node_label node label_id ∷ rs) s r e =
    let (next, e₁, e₂) =
      >>=-eq-ok (replay_op s (remove_node_label node label_id)) (λ next. replay_ops rs next) e in
    memtable_of rs next r e₂
    ∙ ap (apply_all (calls_of rs)) (with_idmap (apply_remove_label node label_id s.idmap) s next e₁)
memtable_of (x ∷ rs) s r e = memtable_of rs s r e

pub calls_of-append : (xs ys : List WalRecord) → calls_of (xs ++ ys) ≡ calls_of xs ++ calls_of ys
unfolding calls_of
calls_of-append [] ys = refl
calls_of-append (create_edge src rel dst ∷ xs) ys =
    ap (λ t. add_edge src rel dst ∷ t) (calls_of-append xs ys)
calls_of-append (tombstone_node node ∷ xs) ys = ap (λ t. bury_node node ∷ t) (calls_of-append xs ys)
calls_of-append (tombstone_edge src rel dst ∷ xs) ys =
    ap (λ t. bury_edge src rel dst ∷ t) (calls_of-append xs ys)
calls_of-append (set_node_property node key value ∷ xs) ys =
    ap (λ t. set_node node key value ∷ t) (calls_of-append xs ys)
calls_of-append (set_edge_property src rel dst key value ∷ xs) ys =
    ap (λ t. set_edge (record { src = src; rel = rel; dst = dst }) key value ∷ t)
      (calls_of-append xs ys)
calls_of-append (remove_node_property node key ∷ xs) ys =
    ap (λ t. unset_node node key ∷ t) (calls_of-append xs ys)
calls_of-append (remove_edge_property src rel dst key ∷ xs) ys =
    ap (λ t. unset_edge (record { src = src; rel = rel; dst = dst }) key ∷ t)
      (calls_of-append xs ys)
calls_of-append (x ∷ xs) ys = calls_of-append xs ys
