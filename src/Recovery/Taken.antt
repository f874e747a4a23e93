-- ===== src/Recovery/Taken.antt =====
-- Replaying a commit's records ends without an error where those of its nodes and labels do.
use mathlib.Core.List.{map}
use nervusdb.Base.{ℕ, ◌≡◌, refl, sym, ◌∙◌, Bool, true, false, List, [], ◌∷◌, ◌++◌}
use nervusdb.Base.{ok, err, ◌>>=◌}
use nervusdb.Api.Edge.{EdgeKey, node_key, edge_key}
use nervusdb.MemTable.{
  MemTable, add_edge, bury_node, bury_edge, set_node, set_edge, unset_node, unset_edge, apply,
  apply_all,
}
use nervusdb.Wal.{
  WalRecord, create_node, add_node_label, remove_node_label, tombstone_node, tombstone_edge,
  create_edge, set_node_property, set_edge_property, remove_node_property, remove_edge_property,
}
use nervusdb.Error.{Storage}
use nervusdb.Base.{All, panic}
use nervusdb.Run.{freeze_into_run, iter_edges}
use nervusdb.Recovery.Replay.{calls_of}
use nervusdb.Recovery.{
  node_set, node_unset, edge_set, edge_unset, node_records, graph_records, property_records,
  Replayed, Pending, replay_op, replay_ops, commit_ops, properties_for_wal, removed_for_wal,
}

bind_assoc :
    (o : Storage Replayed) (f g : Replayed → Storage Replayed)
    → ((o >>= f) >>= g) ≡ (o >>= λ next. f next >>= g)
bind_assoc (ok s) f g = refl
bind_assoc (err e) f g = refl
bind_assoc panic f g = refl

bind_same :
    (o : Storage Replayed) (f g : Replayed → Storage Replayed)
    → ((s : Replayed) → f s ≡ g s)
    → (o >>= f) ≡ (o >>= g)
bind_same (ok s) f g h = h s
bind_same (err e) f g h = refl
bind_same panic f g h = refl

replay_ops-append :
    (xs ys : List WalRecord) (s : Replayed)
    → replay_ops (xs ++ ys) s ≡ (replay_ops xs s >>= λ next. replay_ops ys next)
unfolding replay_ops
replay_ops-append [] ys s = refl
replay_ops-append (x ∷ xs) ys s =
    bind_same (replay_op s x) (λ next. replay_ops (xs ++ ys) next)
      (λ next. replay_ops xs next >>= λ last. replay_ops ys last)
      (λ next. replay_ops-append xs ys next)
    ∙ sym (bind_assoc (replay_op s x) (λ next. replay_ops xs next) (λ last. replay_ops ys last))

-- The records that go to the memtable alone, of which the replay takes any.
abbrev is_plain : WalRecord → Bool
is_plain (create_node x l i) = false
is_plain (add_node_label n l) = false
is_plain (remove_node_label n l) = false
is_plain r = true

abbrev AllPlain : List WalRecord → Type 0
AllPlain rs = All (λ r. is_plain r ≡ true) rs

replay_ops-plain :
    (rs : List WalRecord) (s : Replayed)
    → AllPlain rs
    → replay_ops rs s ≡ ok (record s { memtable = apply_all (calls_of rs) s.memtable })
unfolding replay_ops replay_op calls_of apply_all
replay_ops-plain [] s a = refl
replay_ops-plain (create_edge src rel dst ∷ rs) s a =
    replay_ops-plain rs (record s { memtable = apply (add_edge src rel dst) s.memtable }) a.1
replay_ops-plain (tombstone_node node ∷ rs) s a =
    replay_ops-plain rs (record s { memtable = apply (bury_node node) s.memtable }) a.1
replay_ops-plain (tombstone_edge src rel dst ∷ rs) s a =
    replay_ops-plain rs (record s { memtable = apply (bury_edge src rel dst) s.memtable }) a.1
replay_ops-plain (set_node_property node key value ∷ rs) s a =
    replay_ops-plain rs (record s { memtable = apply (set_node node key value) s.memtable }) a.1
replay_ops-plain (set_edge_property src rel dst key value ∷ rs) s a =
    replay_ops-plain rs
      (record s {
        memtable =
            apply (set_edge (record { src = src; rel = rel; dst = dst }) key value) s.memtable;
      })
      a.1
replay_ops-plain (remove_node_property node key ∷ rs) s a =
    replay_ops-plain rs (record s { memtable = apply (unset_node node key) s.memtable }) a.1
replay_ops-plain (remove_edge_property src rel dst key ∷ rs) s a =
    replay_ops-plain rs
      (record s {
        memtable = apply (unset_edge (record { src = src; rel = rel; dst = dst }) key) s.memtable;
      })
      a.1
replay_ops-plain (create_node x l i ∷ rs) s a = absurd (let h = a.0 in cc)
replay_ops-plain (add_node_label n l ∷ rs) s a = absurd (let h = a.0 in cc)
replay_ops-plain (remove_node_label n l ∷ rs) s a = absurd (let h = a.0 in cc)
replay_ops-plain (r ∷ rs) s a = replay_ops-plain rs s a.1

append-plain : (xs ys : List WalRecord) → AllPlain xs → AllPlain ys → AllPlain (xs ++ ys)
append-plain [] ys a b = b
append-plain (x ∷ xs) ys a b = (a.0, append-plain xs ys a.1 b)

map-plain :
    {A : Type 0} (f : A → WalRecord)
    → ((a : A) → is_plain (f a) ≡ true)
    → (xs : List A) → AllPlain (map f xs)
map-plain f h [] = tt
map-plain f h (x ∷ xs) = (h x, map-plain f h xs)

-- Where the records of nodes and labels are taken, those of the whole commit are.
pub commit_ops-taken :
    (txid : ℕ) (pending : Pending) (t : MemTable) (s next : Replayed)
    → replay_ops (node_records pending) s ≡ ok next
    → (r : Replayed) × (replay_ops (commit_ops txid pending t) s ≡ ok r)
      × (r.idmap ≡ next.idmap)
      × (r.pager ≡ next.pager)
unfolding commit_ops
commit_ops-taken txid pending t s next e =
    let run = freeze_into_run txid t in
    let rest = graph_records run ++ property_records t in
    let edge_part =
      map edge_set (properties_for_wal t.edge_properties)
      ++ map edge_unset (removed_for_wal t.removed_edge_properties) in
    let rest_of_properties =
      map node_unset (removed_for_wal t.removed_node_properties) ++ edge_part in
    let plain : AllPlain rest =
      append-plain (graph_records run) (property_records t)
        (append-plain (map (λ (e : EdgeKey). create_edge e.src e.rel e.dst) (iter_edges run))
          (map tombstone_node run.tombstoned_nodes
            ++ map (λ (e : EdgeKey). tombstone_edge e.src e.rel e.dst) run.tombstoned_edges)
          (map-plain (λ (e : EdgeKey). create_edge e.src e.rel e.dst) (λ e. refl) (iter_edges run))
          (append-plain (map tombstone_node run.tombstoned_nodes)
            (map (λ (e : EdgeKey). tombstone_edge e.src e.rel e.dst) run.tombstoned_edges)
            (map-plain tombstone_node (λ n. refl) run.tombstoned_nodes)
            (map-plain (λ (e : EdgeKey). tombstone_edge e.src e.rel e.dst) (λ e. refl)
              run.tombstoned_edges)))
        (append-plain (map node_set (properties_for_wal t.node_properties)) rest_of_properties
          (map-plain node_set (λ x. refl) (properties_for_wal t.node_properties))
          (append-plain (map node_unset (removed_for_wal t.removed_node_properties)) edge_part
            (map-plain node_unset (λ x. refl) (removed_for_wal t.removed_node_properties))
            (append-plain (map edge_set (properties_for_wal t.edge_properties))
              (map edge_unset (removed_for_wal t.removed_edge_properties))
              (map-plain edge_set (λ x. refl) (properties_for_wal t.edge_properties))
              (map-plain edge_unset (λ x. refl) (removed_for_wal t.removed_edge_properties))))) in
    (
      record next { memtable = apply_all (calls_of rest) next.memtable },
      replay_ops-append (node_records pending) rest s ∙ rw e (replay_ops-plain rest next plain),
      refl,
      refl,
    )
