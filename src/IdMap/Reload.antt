-- ===== src/IdMap/Reload.antt =====
-- Reading the id map back from its pages.
use mathlib.Core.Path.{subst}
use mathlib.Core.List.{map}
use nervusdb.Base.{
  ℕ, zero, suc, ◌%◌, ◌^◌, ◌<◌, ◌≤◌, ◌≡◌, ◌≢◌, ◌&&◌, inl, inr, refl, ap, sym, ◌∙◌, false, Option,
  none, some, List, [], ◌∷◌, ◌++◌, arith,
}
use nervusdb.Base.{
  if◌then◌else◌, ltb, ◌==◌, length, take, get_elem?, ok, ◌>>=◌, >>=-eq-ok, Bool-cases, Option-cases,
}
use nervusdb.Error.{Storage}
use nervusdb.Base.{All}
use nervusdb.Pager.{
  flush_meta_and_bitmap, write_page_raw, grow, Disk, Pager, create, open_pager, i2e_start_page,
}
use nervusdb.Pager.Bitmap.{page_size}
use nervusdb.Pager.Reopen.{open_pager-IsOpen}
use nervusdb.Pager.MetaPage.{Meta}
use nervusdb.Pager.MetaRoundTrip.{repair}
use nervusdb.Pager.Steps.{create-IsOpen}
use nervusdb.IdMap.{
  I2eRecord, IdMap, bare, load_from, find, lookup, load, load_records, add_record,
  apply_create_node,
}
use nervusdb.IdMap.Records.{read_i2e_record-Recorded}
use nervusdb.IdMap.Stored.{IsStored}
use nervusdb.IdMap.Create.{apply_create_node-IsStored, get_elem?-below}

abbrev below : ℕ → Option ℕ → Option ℕ
below n none = none
below n (some k) = if ltb k n then some k else none

-- What the loop has after `n` records.
record Loaded (m : IdMap) (n : ℕ) (l : IdMap) : Type 0 where
  records : l.i2e ≡ take n m.i2e
  labels : l.i2l ≡ map (λ (r : I2eRecord). r.label_id ∷ []) (take n m.i2e)
  ids : (x : ℕ) → find l.e2i x ≡ (if x == 0 then none else below n (find m.e2i x))
  start_same : l.i2e_start ≡ m.i2e_start
  len_same : l.i2e_len ≡ m.i2e_len

get_elem?-some :
    (rs : List I2eRecord) (k : ℕ) → k < length rs → (r : I2eRecord) × (get_elem? rs k ≡ some r)
get_elem?-some [] k h = absurd (omega arith)
get_elem?-some (r ∷ rs) zero h = (r, refl)
get_elem?-some (r ∷ rs) (suc k) h = get_elem?-some rs k (omega arith)

take-snoc :
    (rs : List I2eRecord) (r : I2eRecord) (k : ℕ)
    → get_elem? rs k ≡ some r
    → take (suc k) rs ≡ take k rs ++ (r ∷ [])
take-snoc [] r k h = absurd (cc)
take-snoc (x ∷ rs) r zero h = ap (λ (y : I2eRecord). y ∷ []) (let e : x ≡ r = cc in e)
take-snoc (x ∷ rs) r (suc k) h = ap (λ t. x ∷ t) (take-snoc rs r k h)

map-snoc :
    (rs : List I2eRecord) (r : I2eRecord)
    → map (λ (s : I2eRecord). s.label_id ∷ []) (rs ++ (r ∷ []))
      ≡ map (λ (s : I2eRecord). s.label_id ∷ []) rs ++ ((r.label_id ∷ []) ∷ [])
map-snoc [] r = refl
map-snoc (x ∷ rs) r = ap (λ t. (x.label_id ∷ []) ∷ t) (map-snoc rs r)

length-zero : (rs : List I2eRecord) → length rs ≡ 0 → rs ≡ []
length-zero [] h = refl
length-zero (r ∷ rs) h = absurd (omega arith)

take-all : (rs : List I2eRecord) (n : ℕ) → length rs ≡ n → take n rs ≡ rs
take-all [] zero h = refl
take-all [] (suc n) h = refl
take-all (r ∷ rs) zero h = absurd (omega arith)
take-all (r ∷ rs) (suc n) h = ap (λ t. r ∷ t) (take-all rs n (omega arith))

module _ (m : IdMap) (p : Pager) (h : IsStored m p) where
  below_next :
      (n : ℕ) (r : I2eRecord) (x : ℕ)
      → get_elem? m.i2e n ≡ some r
      → (r.external_id == x) ≡ false
      → below (suc n) (find m.e2i x) ≡ below n (find m.e2i x)
  below_next n r x g ne = elim (Option-cases (find m.e2i x)) [
    | inl e ↦ rw e refl
    | inr (k, e) ↦
        let (s, at, key) = h.sound x k e in
        let other : k ≢ n = λ same.
          let same_record : some s ≡ some r = sym at ∙ (ap (get_elem? m.i2e) same ∙ g) in
          let eq : s ≡ r = cc in
          let id_eq : s.external_id ≡ r.external_id = ap (λ (c : I2eRecord). c.external_id) eq in
          ground arith in
        rw e (ground (arith, other))
  ]

  ids_next :
      (n : ℕ) (r : I2eRecord) (l : IdMap) (x : ℕ)
      → get_elem? m.i2e n ≡ some r
      → Loaded m n l
      → find (if r.external_id == 0 then l.e2i else (r.external_id, n) ∷ l.e2i) x
        ≡ (if x == 0 then none else below (suc n) (find m.e2i x))
  unfolding find
  ids_next n r l x g a = elim (Bool-cases (r.external_id == x)) [
    | inl same ↦
        let key : r.external_id ≡ x = ground arith in
        let there : find m.e2i x ≡ some n = rw key at (h.found n r g) in
        elim (Bool-cases (r.external_id == 0)) [
          | inl zeroth ↦ rw (zeroth, a.ids x) (ground arith)
          | inr other ↦ rw (other, same, there) (ground arith)
        ]
    | inr other ↦
        let still = below_next n r x g other in
        elim (Bool-cases (r.external_id == 0)) [
          | inl zeroth ↦ rw (zeroth, a.ids x, still) refl
          | inr here ↦ rw (here, other, a.ids x, still) refl
        ]
  ]

  add_record-Loaded :
      (n : ℕ) (r : I2eRecord) (l : IdMap)
      → n < 2 ^ 25
      → get_elem? m.i2e n ≡ some r
      → Loaded m n l
      → (next : IdMap) × (add_record n (ok r) (ok l) ≡ ok next) × Loaded m (suc n) next
  add_record-Loaded n r l small g a =
      let index : n % 2 ^ 32 ≡ n = omega arith in
      let next : IdMap = record l {
        e2i = if r.external_id == 0 then l.e2i else (r.external_id, n) ∷ l.e2i;
        i2l = l.i2l ++ ((r.label_id ∷ []) ∷ []);
        i2e = l.i2e ++ (r ∷ []);
      } in
      (
        next,
        rw index refl,
        record {
          records = ap (λ t. t ++ (r ∷ [])) a.records ∙ sym (take-snoc m.i2e r n g);
          labels =
              ap (λ t. t ++ ((r.label_id ∷ []) ∷ [])) a.labels
              ∙ (sym (map-snoc (take n m.i2e) r)
                  ∙ ap (map (λ (s : I2eRecord). s.label_id ∷ [])) (sym (take-snoc m.i2e r n g)));
          ids = λ x. ids_next n r l x g a;
          start_same = a.start_same;
          len_same = a.len_same;
        },
      )

  below_zero : (o : Option ℕ) → none ≡ below 0 o
  below_zero none = refl
  below_zero (some k) = ground arith

  load_records-Loaded :
      (start n : ℕ)
      → m.i2e_start ≡ some start
      → n ≤ m.i2e_len
      → (l : IdMap) × (load_records p start n (bare (some start) m.i2e_len) ≡ ok l) × Loaded m n l
  unfolding load_records find
  load_records-Loaded start zero e le = (
    bare (some start) m.i2e_len,
    refl,
    record {
      records = refl;
      labels = refl;
      ids = λ x. ground (arith, below_zero (find m.e2i x));
      start_same = sym e;
      len_same = refl;
    },
  )
  load_records-Loaded start (suc n) e le =
      let (l, run, a) = load_records-Loaded start n e (omega arith) in
      let (r, g) = get_elem?-some m.i2e n (omega (arith, h.count)) in
      let (known, there) = h.stored start n r e g in
      let (next, step, b) = add_record-Loaded n r l (omega (arith, h.small)) g a in
      (next, rw (run, read_i2e_record-Recorded p start n r known there) step, b)

  below_all : (x : ℕ) → below m.i2e_len (find m.e2i x) ≡ find m.e2i x
  below_all x = elim (Option-cases (find m.e2i x)) [
    | inl e ↦ rw e refl
    | inr (k, e) ↦
        let (s, at, key) = h.sound x k e in
        let small : k < m.i2e_len = omega (arith, get_elem?-below m.i2e s k at, h.count) in
        rw e (ground (arith, small))
  ]

  no_ids : m.i2e_start ≡ none → (x : ℕ) → find m.e2i x ≡ none
  no_ids none_yet x = elim (Option-cases (find m.e2i x)) [
    | inl e ↦ e
    | inr (k, e) ↦
        let (s, at, key) = h.sound x k e in
        absurd (omega (arith, get_elem?-below m.i2e s k at, h.count, h.unstarted none_yet))
  ]

  -- A map in step with its pages is read back from them: the records, and the numbers of all external ids
  -- but 0, which is found under no number; each node has its first label.
  pub load-IsStored :
      (l : IdMap) × (load p ≡ ok l)
      × (l.i2e ≡ m.i2e)
      × (l.i2l ≡ map (λ (r : I2eRecord). r.label_id ∷ []) m.i2e)
      × (l.i2e_len ≡ m.i2e_len)
      × ((x : ℕ) → lookup l x ≡ (if x == 0 then none else lookup m x))
  unfolding load lookup find
  load-IsStored =
      let loads : load p ≡ load_from p m.i2e_len m.i2e_start =
        ap (λ n. load_from p n (i2e_start_page p)) h.len_known
        ∙ ap (load_from p m.i2e_len) h.start_known in
      elim (Option-cases (m.i2e_start)) [
        | inl none_yet ↦
            let empty : m.i2e ≡ [] =
              length-zero m.i2e (omega (arith, h.count, h.unstarted none_yet)) in
            (
              bare none m.i2e_len,
              loads ∙ ap (load_from p m.i2e_len) none_yet,
              sym empty,
              rw empty refl,
              refl,
              λ x. rw (no_ids none_yet x) (ground arith),
            )
        | inr (start, e) ↦
            let (l, run, a) = load_records-Loaded start m.i2e_len e (omega arith) in
            let whole = take-all m.i2e m.i2e_len h.count in
            (
              l,
              loads ∙ (ap (load_from p m.i2e_len) e ∙ run),
              a.records ∙ whole,
              a.labels ∙ ap (map (λ (r : I2eRecord). r.label_id ∷ [])) whole,
              a.len_same,
              λ x. rw (← below_all x) (a.ids x),
            )
      ]

-- Nodes that are created one after another, from an empty map on.
unfoldable pub create_nodes : List (ℕ × ℕ × ℕ) → IdMap → Pager → Storage (IdMap × Pager)
unfolding apply_create_node
create_nodes [] m p = ok (m, p)
create_nodes ((external_id, label_id, internal_id) ∷ rest) m p = do
  made ← apply_create_node external_id label_id internal_id m p
  create_nodes rest (made.0) (made.1)

abbrev pub IsNode : ℕ × ℕ × ℕ → Type 0
IsNode (external_id, label_id, internal_id) = (external_id < 2 ^ 64) × (label_id < 2 ^ 32)

create_nodes-IsStored :
    (nodes : List (ℕ × ℕ × ℕ)) (m n : IdMap) (p q : Pager)
    → All IsNode nodes
    → IsStored m p
    → create_nodes nodes m p ≡ ok (n, q)
    → IsStored n q
unfolding create_nodes
create_nodes-IsStored [] m n p q w h e =
    let pair : (m, p) ≡ (n, q) = cc in subst (λ (x : IdMap × Pager). IsStored (x.0) (x.1)) pair h
create_nodes-IsStored ((x, l, k) ∷ rest) m n p q ((fits, fits_label), w) h e =
    let (made, e₁, e₂) =
      >>=-eq-ok (apply_create_node x l k m p) (λ made. create_nodes rest (made.0) (made.1)) e in
    create_nodes-IsStored rest made.0 n made.1 q w
      ((apply_create_node-IsStored x l k m made.0 p made.1 fits fits_label h e₁).0) e₂

-- A new pager has an empty map.
pub create-IsStored :
    (disk : Disk)
    → ((i : ℕ) → length (disk.page i) ≡ page_size)
    → IsStored (bare none 0) (create disk)
unfolding create flush_meta_and_bitmap write_page_raw grow find
create-IsStored disk whole = record {
  opened = create-IsOpen disk;
  full = λ i low. ground (arith, whole i);
  start_known = refl;
  len_known = refl;
  next_known = refl;
  count = refl;
  small = omega arith;
  unstarted = λ e. refl;
  stored = λ start k r e g. absurd (cc);
  found = λ k r g. absurd (cc);
  sound = λ x k g. absurd (cc);
}

-- The repair of older files has nothing to do.
repair-same : (m : Meta) → m.next_internal_id ≡ m.i2e_len → repair m ≡ m
repair-same m e =
    let same : (if m.next_internal_id == 0 && ltb 0 m.i2e_len
          then m.i2e_len
          else m.next_internal_id)
        ≡ m.next_internal_id =
      ground (arith, e) in
    ap (λ n. record m { next_internal_id = n }) same

-- Nodes that were created in a new file are there after it is opened again: each external id but 0 with
-- its number, and the records of all nodes.
pub load-create_nodes :
    (disk : Disk) (nodes : List (ℕ × ℕ × ℕ)) (n : IdMap) (q : Pager)
    → ((i : ℕ) → length (disk.page i) ≡ page_size)
    → All IsNode nodes
    → create_nodes nodes (bare none 0) (create disk) ≡ ok (n, q)
    → (l : IdMap) × ((open_pager q.disk >>= load) ≡ ok l)
      × (l.i2e ≡ n.i2e)
      × ((x : ℕ) → lookup l x ≡ (if x == 0 then none else lookup n x))
unfolding load
load-create_nodes disk nodes n q whole w e =
    let h =
      create_nodes-IsStored nodes (bare none 0) n (create disk) q w (create-IsStored disk whole)
        e in
    let (l, run, records, labels, len, ids) = load-IsStored n q h in
    let unchanged : repair q.meta ≡ q.meta = repair-same q.meta (h.next_known ∙ sym h.len_known) in
    let opened : open_pager q.disk ≡ ok q =
      open_pager-IsOpen q h.opened ∙ ap (λ m. ok (record q { meta = m })) unchanged in
    (l, rw opened run, records, ids)
