-- ===== src/Csr/Counts.antt =====
-- How often edges occur in a list, in what a compaction keeps, and in what is looked up of a source.
use nervusdb.Base.{
  ℕ, ◌+◌, ◌≡◌, ◌||◌, ◌&&◌, not, refl, sym, ap, ◌∙◌, Bool, true, false, inl, inr, Option, List, [],
  ◌∷◌, ◌++◌, arith,
}
use nervusdb.Base.{if◌then◌else◌, ◌==◌, retain, Bool-cases}
use nervusdb.Base.OrdMap.{Set, contains, contains-add, add}
use nervusdb.Api.Edge.{EdgeKey, node_key, edge_key, edge_eq, edge_eq_iff}
use nervusdb.Run.{L0Run, sort_edges, insert_edge, iter_edges}
use nervusdb.Csr.{EdgeRecord, rel_matches, outgoing_keys}
use nervusdb.Csr.Build.{
  to_record, block_nodes, block_edges, is_kept, sort_records, insert_record, visible_edges,
}
use nervusdb.Csr.Layout.{records_from}

-- A run buries an edge: it has a tombstone of an end of it, or of the edge.
abbrev pub buries : L0Run → EdgeKey → Bool
buries run e =
    contains e.src run.tombstoned_nodes
    || contains e.dst run.tombstoned_nodes
    || contains e run.tombstoned_edges

-- How many elements satisfy a test
unfoldable pub count_of : {A : Type 0} → (A → Bool) → List A → ℕ
count_of p [] = 0
count_of p (x ∷ xs) = let rest = count_of p xs in if p x then 1 + rest else rest

-- How often the runs hold an edge, newest first, down to the first run that buries it
unfoldable pub shown_count : EdgeKey → List L0Run → ℕ
unfolding count_of iter_edges
shown_count e [] = 0
shown_count e (run ∷ runs) =
    let rest = shown_count e runs in
    if buries run e then 0 else count_of (edge_eq e) (iter_edges run) + rest

module _ {A : Type 0} where
  count_of-append :
      (p : A → Bool) (xs ys : List A) → count_of p (xs ++ ys) ≡ count_of p xs + count_of p ys
  unfolding count_of
  count_of-append p [] ys = omega arith
  count_of-append p (x ∷ xs) ys = ground (arith, count_of-append p xs ys)

  count_of-retain :
      (p q : A → Bool) (xs : List A) → count_of p (retain q xs) ≡ count_of (λ x. q x && p x) xs
  unfolding count_of
  count_of-retain p q [] = refl
  count_of-retain p q (x ∷ xs) = ground (arith, count_of-retain p q xs)

  count_of-same :
      (p q : A → Bool) (xs : List A) → ((x : A) → p x ≡ q x) → count_of p xs ≡ count_of q xs
  unfolding count_of
  count_of-same p q [] h = refl
  count_of-same p q (x ∷ xs) h = rw (h x, count_of-same p q xs h) refl

  count_of-never : (p : A → Bool) (xs : List A) → ((x : A) → p x ≡ false) → count_of p xs ≡ 0
  unfolding count_of
  count_of-never p [] h = refl
  count_of-never p (x ∷ xs) h = rw (h x) (count_of-never p xs h)

count_of-insert_edge :
    (p : EdgeKey → Bool) (e : EdgeKey) (es : List EdgeKey)
    → count_of p (insert_edge e es) ≡ count_of p (e ∷ es)
unfolding count_of insert_edge
count_of-insert_edge p e [] = refl
count_of-insert_edge p e (x ∷ xs) = ground (arith, count_of-insert_edge p e xs)

pub count_of-sort_edges :
    (p : EdgeKey → Bool) (es : List EdgeKey) → count_of p (sort_edges es) ≡ count_of p es
unfolding count_of sort_edges
count_of-sort_edges p [] = refl
count_of-sort_edges p (e ∷ es) =
    count_of-insert_edge p e (sort_edges es) ∙ ground (arith, count_of-sort_edges p es)

count_of-insert_record :
    (p : EdgeRecord → Bool) (r : EdgeRecord) (rs : List EdgeRecord)
    → count_of p (insert_record r rs) ≡ count_of p (r ∷ rs)
unfolding count_of insert_record
count_of-insert_record p r [] = refl
count_of-insert_record p r (x ∷ xs) = ground (arith, count_of-insert_record p r xs)

count_of-sort_records :
    (p : EdgeRecord → Bool) (rs : List EdgeRecord) → count_of p (sort_records rs) ≡ count_of p rs
unfolding count_of sort_records
count_of-sort_records p [] = refl
count_of-sort_records p (r ∷ rs) =
    count_of-insert_record p r (sort_records rs) ∙ ground (arith, count_of-sort_records p rs)

count_of-outgoing_keys :
    (p : EdgeKey → Bool) (src : ℕ) (rs : List EdgeRecord)
    → count_of p (outgoing_keys src rs)
      ≡ count_of (λ r. p (record { src = src; rel = r.rel; dst = r.dst })) rs
unfolding count_of outgoing_keys
count_of-outgoing_keys p src [] = refl
count_of-outgoing_keys p src (r ∷ rs) = ground (arith, count_of-outgoing_keys p src rs)

count_of-records_from :
    (p : EdgeRecord → Bool) (src : ℕ) (es : List EdgeKey)
    → count_of p (records_from src es) ≡ count_of (λ e. e.src == src && p (to_record e)) es
unfolding count_of records_from
count_of-records_from p src [] = refl
count_of-records_from p src (e ∷ es) = ground (arith, count_of-records_from p src es)

contains-block_nodes :
    (n : ℕ) (blocked : Set ℕ) (ns : List ℕ)
    → contains n (block_nodes blocked ns) ≡ (contains n blocked || contains n ns)
unfolding block_nodes contains
contains-block_nodes n blocked [] = ground arith
contains-block_nodes n blocked (x ∷ xs) =
    ground (arith, contains-block_nodes n (add x blocked) xs, contains-add x n blocked)

contains-block_edges :
    (e : EdgeKey) (blocked : Set EdgeKey) (es : List EdgeKey)
    → contains e (block_edges blocked es) ≡ (contains e blocked || contains e es)
unfolding block_edges contains
contains-block_edges e blocked [] = ground arith
contains-block_edges e blocked (x ∷ xs) =
    ground (arith, contains-block_edges e (add x blocked) xs, contains-add x e blocked)

-- Of the copies of one edge a test keeps all or none.
count_of-edge_if :
    (q : EdgeKey → Bool) (e : EdgeKey) (es : List EdgeKey)
    → count_of (λ x. q x && edge_eq e x) es ≡ (if q e then count_of (edge_eq e) es else 0)
count_of-edge_if q e es =
    let agree : (x : EdgeKey) → edge_eq e x ≡ true → q e ≡ q x =
      λ x same. ap q ((edge_eq_iff e x).0 same) in
    elim (Bool-cases (q e)) [
      | inl k ↦ rw k (
          count_of-same (λ x. q x && edge_eq e x) (edge_eq e) es
            (λ x. one_of (q x) (edge_eq e x) (λ h. sym (agree x h) ∙ k)))
      | inr k ↦ rw k (
          count_of-never (λ x. q x && edge_eq e x) es
            (λ x. none_of (q x) (edge_eq e x) (λ h. sym (agree x h) ∙ k)))
    ]
  where
    one_of : (a b : Bool) → (b ≡ true → a ≡ true) → (a && b) ≡ b
    one_of true b h = refl
    one_of false true h = h refl
    one_of false false h = refl

    none_of : (a b : Bool) → (b ≡ true → a ≡ false) → (a && b) ≡ false
    none_of true true h = h refl
    none_of true false h = refl
    none_of false b h = refl

abbrev is_blocked : Set ℕ → Set EdgeKey → EdgeKey → Bool
is_blocked nodes edges e = contains e.src nodes || contains e.dst nodes || contains e edges

is_blocked-block :
    (nodes : Set ℕ) (edges : Set EdgeKey) (run : L0Run) (e : EdgeKey)
    → is_blocked (block_nodes nodes run.tombstoned_nodes) (block_edges edges run.tombstoned_edges) e
      ≡ (is_blocked nodes edges e || buries run e)
is_blocked-block nodes edges run e =
    rw
      (
        contains-block_nodes e.src nodes run.tombstoned_nodes,
        contains-block_nodes e.dst nodes run.tombstoned_nodes,
        contains-block_edges e edges run.tombstoned_edges,
      )
      (any_of (contains e.src nodes) (contains e.src run.tombstoned_nodes) (contains e.dst nodes)
        (contains e.dst run.tombstoned_nodes) (contains e edges) (contains e run.tombstoned_edges))
  where
    any_of :
        (a b c d f g : Bool) → ((a || b) || (c || d) || (f || g)) ≡ ((a || c || f) || (b || d || g))
    any_of a b c d f g = ground arith

is_kept-blocked :
    (nodes : Set ℕ) (edges : Set EdgeKey) (e : EdgeKey)
    → is_kept nodes edges e ≡ not (is_blocked nodes edges e)
unfolding is_kept
is_kept-blocked nodes edges e =
    three (contains e.src nodes) (contains e.dst nodes) (contains e edges)
  where
    three : (a b c : Bool) → (not (a || b) && not c) ≡ not (a || b || c)
    three a b c = ground arith

-- The edges that the compaction keeps, counted
pub visible_edges-count :
    (e : EdgeKey) (nodes : Set ℕ) (edges : Set EdgeKey) (runs : List L0Run)
    → count_of (edge_eq e) (visible_edges nodes edges runs)
      ≡ (if is_blocked nodes edges e then 0 else shown_count e runs)
unfolding visible_edges shown_count count_of
visible_edges-count e nodes edges [] = ground arith
visible_edges-count e nodes edges (run ∷ runs) =
    let more_nodes = block_nodes nodes run.tombstoned_nodes in
    let more_edges = block_edges edges run.tombstoned_edges in
    let kept = is_kept more_nodes more_edges in
    let here = iter_edges run in
    count_of-append (edge_eq e) (retain kept here) (visible_edges more_nodes more_edges runs)
    ∙ rw
        (
          count_of-retain (edge_eq e) kept here,
          count_of-edge_if kept e here,
          visible_edges-count e more_nodes more_edges runs,
          is_kept-blocked more_nodes more_edges e,
          is_blocked-block nodes edges run e,
        )
        (combine (is_blocked nodes edges e) (buries run e) (count_of (edge_eq e) here)
          (shown_count e runs))
  where
    combine :
        (a b : Bool) (m n : ℕ)
        → ((if not (a || b) then m else 0) + (if a || b then 0 else n))
          ≡ (if a then 0 else (if b then 0 else m + n))
    combine a b m n = ground arith

-- A source's keys, counted
pub keys-count :
    (e : EdgeKey) (src : ℕ) (rel : Option ℕ) (es : List EdgeKey)
    → count_of (edge_eq e) (
        outgoing_keys src
          (retain (λ r. rel_matches rel r.rel) (sort_records (records_from src es))))
      ≡ (if e.src == src && rel_matches rel e.rel then count_of (edge_eq e) es else 0)
keys-count e src rel es =
    let wanted : EdgeRecord → Bool = λ r. rel_matches rel r.rel in
    let at : EdgeRecord → Bool = λ r. edge_eq e (record { src = src; rel = r.rel; dst = r.dst }) in
    let q : EdgeKey → Bool = λ x. x.src == src && rel_matches rel x.rel in
    let both : EdgeRecord → Bool = λ r. wanted r && at r in
    let step : (x : EdgeKey) → (x.src == src && both (to_record x)) ≡ (q x && edge_eq e x) =
      λ x. ground arith in
    count_of-outgoing_keys (edge_eq e) src (retain wanted (sort_records (records_from src es)))
    ∙ (count_of-retain at wanted (sort_records (records_from src es))
        ∙ (count_of-sort_records both (records_from src es)
            ∙ (count_of-records_from both src es
                ∙ (count_of-same (λ x. x.src == src && both (to_record x)) (λ x. q x && edge_eq e x)
                      es step
                    ∙ count_of-edge_if q e es))))
