-- ===== src/IdMap/Create.antt =====
-- Creating a node keeps the id map and its pages in step.
use mathlib.Core.Path.{subst}
use nervusdb.Base.{
  ℕ, zero, suc, ◌+◌, ◌^◌, ◌<◌, ◌≤◌, ◌≡◌, ◌⊎◌, inl, inr, refl, ap, ◌∙◌, false, not, Option, none,
  some, List, [], ◌∷◌, ◌++◌, arith,
}
use nervusdb.Base.{
  if◌then◌else◌, ◌==◌, length, length-append, get_elem?, is_some, ok, ◌>>=◌, guard, >>=-eq-ok,
  Bool-cases, Option-cases,
}
use nervusdb.Error.{Error, Storage, wal_protocol}
use nervusdb.Pager.{Pager, flush_meta_and_bitmap, page_option, set_i2e_len, set_next_internal_id}
use nervusdb.Pager.MetaPage.{Meta}
use nervusdb.Pager.Reopen.{IsOpen}
use nervusdb.Pager.Steps.{len, next_id, run_op, run_op-IsOpen}
use nervusdb.Pager.Pages.{Holds}
use nervusdb.IdMap.{
  I2eRecord, IdMap, find, lookup, next_internal_id, ensure_start, write_i2e_record,
  apply_create_node, sort_labels, insert_label, dedup, apply_create_node_multi_label,
}
use nervusdb.IdMap.Records.{IsRecord, Recorded, Recording, Full, write_i2e_record-Recording}
use nervusdb.IdMap.Stored.{
  IsStored, Started, remade, flush-Holds, flush-Full, Recorded-kept, ensure_start-Started,
}

-- Lists that grow at their end.
get_elem?-snoc :
    (rs : List I2eRecord) (r s : I2eRecord) (k : ℕ)
    → get_elem? (rs ++ (r ∷ [])) k ≡ some s
    → (get_elem? rs k ≡ some s) ⊎ ((k ≡ length rs) × (r ≡ s))
get_elem?-snoc [] r s zero h = inr (refl, cc)
get_elem?-snoc [] r s (suc k) h = absurd (cc)
get_elem?-snoc (x ∷ rs) r s zero h = inl h
get_elem?-snoc (x ∷ rs) r s (suc k) h = elim (get_elem?-snoc rs r s k h) [
  | inl e ↦ inl e
  | inr (e, f) ↦ inr (ap suc e, f)
]

get_elem?-snoc_old :
    (rs : List I2eRecord) (r s : I2eRecord) (k : ℕ)
    → get_elem? rs k ≡ some s
    → get_elem? (rs ++ (r ∷ [])) k ≡ some s
get_elem?-snoc_old [] r s k h = absurd (cc)
get_elem?-snoc_old (x ∷ rs) r s zero h = h
get_elem?-snoc_old (x ∷ rs) r s (suc k) h = get_elem?-snoc_old rs r s k h

get_elem?-snoc_last :
    (rs : List I2eRecord) (r : I2eRecord) → get_elem? (rs ++ (r ∷ [])) (length rs) ≡ some r
get_elem?-snoc_last [] r = refl
get_elem?-snoc_last (x ∷ rs) r = get_elem?-snoc_last rs r

pub get_elem?-below :
    (rs : List I2eRecord) (r : I2eRecord) (k : ℕ) → get_elem? rs k ≡ some r → k < length rs
get_elem?-below [] r k h = absurd (cc)
get_elem?-below (x ∷ rs) r zero h = omega arith
get_elem?-below (x ∷ rs) r (suc k) h = omega (arith, get_elem?-below rs r k h)

abbrev new_record : ℕ → ℕ → I2eRecord
new_record external_id label_id = record {
  external_id = external_id;
  label_id = label_id;
  flags = 0;
}

abbrev created : ℕ → ℕ → ℕ → ℕ → IdMap → IdMap
created external_id label_id k start m = record {
  e2i = (external_id, k) ∷ m.e2i;
  i2l = m.i2l ++ ((label_id ∷ []) ∷ []);
  i2e = m.i2e ++ (new_record external_id label_id ∷ []);
  i2e_start = some start;
  i2e_len = m.i2e_len + 1;
}

abbrev finish : IdMap → Pager → Pager
finish n p = set_next_internal_id (next_internal_id n) (set_i2e_len n.i2e_len p)

guard_next : (a b : ℕ) (e : Error) (u : Unit {0}) → guard (a == b) e ≡ ok u → a ≡ b
guard_next a b e u h = ground arith

guard_unused :
    (o : Option ℕ) (e : Error) (u : Unit {0}) → guard (not (is_some o)) e ≡ ok u → o ≡ none
guard_unused none e u h = refl
guard_unused (some k) e u h = absurd (cc)

-- The steps of a call that succeeds.
create-eq_ok :
    (external_id label_id k : ℕ) (m n : IdMap) (p q : Pager)
    → apply_create_node external_id label_id k m p ≡ ok (n, q)
    → (start : ℕ) × (started : Pager) × (wrote : Pager) × (k ≡ next_internal_id m)
      × (lookup m external_id ≡ none)
      × (ensure_start m p ≡ ok (start, started))
      × (write_i2e_record start k (new_record external_id label_id) started ≡ ok wrote)
      × (created external_id label_id k start m ≡ n)
      × (finish (created external_id label_id k start m) wrote ≡ q)
unfolding apply_create_node apply_create_node_multi_label sort_labels insert_label dedup
create-eq_ok external_id label_id k m n p q e =
    let last = λ (s : ℕ × Pager) (w : Pager).
      let x : Storage (IdMap × Pager) = ok (
        created external_id label_id k (s.0) m,
        finish (created external_id label_id k (s.0) m) w,
      ) in
      x in
    let put = λ (s : ℕ × Pager).
      write_i2e_record (s.0) k (new_record external_id label_id) (s.1) >>= last s in
    let begin = λ (u : Unit {0}). ensure_start m p >>= put in
    let fresh = λ (u : Unit {0}).
      guard (not (is_some (lookup m external_id))) (wal_protocol "duplicate external id")
      >>= begin in
    let (u, g₁, e₁) =
      >>=-eq-ok (guard (k == next_internal_id m) (wal_protocol "non-dense internal id")) fresh e in
    let (v, g₂, e₂) =
      >>=-eq-ok
        (guard (not (is_some (lookup m external_id))) (wal_protocol "duplicate external id")) begin
        e₁ in
    let (s, e₃, e₄) = >>=-eq-ok (ensure_start m p) put e₂ in
    let (w, e₅, e₆) =
      >>=-eq-ok (write_i2e_record (s.0) k (new_record external_id label_id) (s.1)) (last s) e₄ in
    let pair : (
      created external_id label_id k (s.0) m,
      finish (created external_id label_id k (s.0) m) w,
    )
        ≡ (n, q) =
      cc in
    let next : k ≡ next_internal_id m =
      guard_next k (next_internal_id m) (wal_protocol "non-dense internal id") u g₁ in
    let unused : lookup m external_id ≡ none =
      guard_unused (lookup m external_id) (wal_protocol "duplicate external id") v g₂ in
    (
      s.0,
      s.1,
      w,
      next,
      unused,
      e₃,
      e₅,
      ap (λ (x : IdMap × Pager). x.0) pair,
      ap (λ (x : IdMap × Pager). x.1) pair,
    )

len-ok : (n : ℕ) (p : Pager) → run_op (len n) p ≡ ok (set_i2e_len n p)
unfolding run_op
len-ok n p = refl

next_id-ok : (n : ℕ) (p : Pager) → run_op (next_id n) p ≡ ok (set_next_internal_id n p)
unfolding run_op
next_id-ok n p = refl

-- The last two updates of the meta data.
module _ (n : IdMap) (p : Pager) where
  finish-IsOpen : n.i2e_len < 2 ^ 64 → IsOpen p → IsOpen (finish n p)
  finish-IsOpen h o =
      let next : next_internal_id n < 2 ^ 64 = unfold next_internal_id in ground (arith, h) in
      let sized =
        run_op-IsOpen (len n.i2e_len) p (set_i2e_len n.i2e_len p) h o (len-ok n.i2e_len p) in
      run_op-IsOpen (next_id (next_internal_id n)) (set_i2e_len n.i2e_len p) (finish n p) next sized
        (next_id-ok (next_internal_id n) (set_i2e_len n.i2e_len p))

  sized_meta : Meta
  sized_meta = record (p.meta) { i2e_len = n.i2e_len }

  finish-Holds : (id : ℕ) (bytes : List ℕ) → Holds p id bytes → Holds (finish n p) id bytes
  unfolding set_i2e_len set_next_internal_id
  finish-Holds id bytes h =
      let sized : Pager = remade p (record (p.meta) { i2e_len = n.i2e_len }) in
      flush-Holds sized (record (sized.meta) { next_internal_id = next_internal_id n }) id bytes
        (flush-Holds p (record (p.meta) { i2e_len = n.i2e_len }) id bytes h)

  finish-Full : Full p → Full (finish n p)
  unfolding set_i2e_len set_next_internal_id
  finish-Full f =
      let sized : Pager = remade p (record (p.meta) { i2e_len = n.i2e_len }) in
      flush-Full sized (record (sized.meta) { next_internal_id = next_internal_id n })
        (flush-Full p (record (p.meta) { i2e_len = n.i2e_len }) f)

  finish-meta :
      ((finish n p).meta.i2e_start_page_id ≡ p.meta.i2e_start_page_id)
      × ((finish n p).meta.i2e_len ≡ n.i2e_len)
      × ((finish n p).meta.next_internal_id ≡ next_internal_id n)
  unfolding set_i2e_len set_next_internal_id flush_meta_and_bitmap
  finish-meta = (refl, refl, refl)

next-below : (m : IdMap) → m.i2e_len ≤ 2 ^ 25 → next_internal_id m ≡ m.i2e_len
unfolding next_internal_id
next-below m h = ground (arith, h)

page_option-positive : (id s : ℕ) → id ≡ s → (s == 0) ≡ false → page_option id ≡ some s
page_option-positive id s e h = rw (e, h) refl

-- The state after the write and the two updates.
module _ (x label k start : ℕ) (m : IdMap) (p t w : Pager) (h : IsStored m p)
    (s : Started m p start t) where
  module _ (fits : x < 2 ^ 64) (fits_label : label < 2 ^ 32) (next : k ≡ m.i2e_len)
      (new : find m.e2i x ≡ none) (wrote : Recording t w start k (new_record x label)) where
    all_stored :
        (a i : ℕ) (r : I2eRecord)
        → start ≡ a
        → get_elem? (m.i2e ++ (new_record x label ∷ [])) i ≡ some r
        → IsRecord r × Recorded w a i r
    all_stored a i r e g =
        subst (λ b. IsRecord r × Recorded w b i r) e
          (elim (get_elem?-snoc m.i2e (new_record x label) r i g) [
            | inl old ↦
                let below = get_elem?-below m.i2e r i old in
                elim (Option-cases (m.i2e_start)) [
                  | inl none_yet ↦ absurd (omega (arith, h.unstarted none_yet, h.count))
                  | inr (b, some_start) ↦
                      let (known, there) = h.stored b i r some_start old in
                      (
                        known,
                        wrote.others i r (λ same. ground (arith, below, h.count, next, same))
                            (Recorded-kept p t start i r s.kept
                              (rw (s.same b some_start) at there)),
                      )
                ]
            | inr (last, same) ↦
                let at_end : i ≡ k = omega (arith, h.count) in
                subst (λ c. IsRecord c × Recorded w start i c) same
                  (
                    record {
                      external_id_fits = fits;
                      label_id_fits = fits_label;
                      flags_fits = omega arith;
                    },
                    rw at_end wrote.here,
                  )
          ])

    all_found :
        (i : ℕ) (r : I2eRecord)
        → get_elem? (m.i2e ++ (new_record x label ∷ [])) i ≡ some r
        → find ((x, k) ∷ m.e2i) r.external_id ≡ some i
    unfolding find
    all_found i r g = elim (get_elem?-snoc m.i2e (new_record x label) r i g) [
      | inl old ↦ ground (arith, h.found i r old, new)
      | inr (last, same) ↦
          let key : x ≡ r.external_id = ap (λ (c : I2eRecord). c.external_id) same in
          ground (arith, h.count)
    ]

    all_sound :
        (y i : ℕ)
        → find ((x, k) ∷ m.e2i) y ≡ some i
        → (r : I2eRecord) × (get_elem? (m.i2e ++ (new_record x label ∷ [])) i ≡ some r)
          × (r.external_id ≡ y)
    unfolding find
    all_sound y i g = elim (Bool-cases (x == y)) [
      | inl b ↦
          let at_end : i ≡ k = ground arith in
          let last : i ≡ length m.i2e = omega (arith, h.count) in
          (
            new_record x label,
            rw last (get_elem?-snoc_last m.i2e (new_record x label)),
            ground arith,
          )
      | inr b ↦
          let (r, old, key) = h.sound y i (rw b at g) in
          (r, get_elem?-snoc_old m.i2e (new_record x label) r i old, key)
    ]

    finish-IsStored : IsStored (created x label k start m) (finish (created x label k start m) w)
    finish-IsStored =
        let n = created x label k start m in
        let high = wrote.here.held.high in
        let (start_same, len_same, next_same) = finish-meta n w in
        record {
          opened = finish-IsOpen n w (omega (arith, h.small)) wrote.opened;
          full = finish-Full n w wrote.full;
          start_known =
              page_option-positive (finish n w).meta.i2e_start_page_id start
                (start_same ∙ (wrote.start_kept ∙ s.known)) s.positive;
          len_known = len_same;
          next_known = next_same ∙ next-below n (omega (arith, high));
          count = omega (arith, length-append {0} m.i2e (new_record x label ∷ []), h.count);
          small = omega (arith, high);
          unstarted = λ none_yet. absurd (cc);
          stored = λ a i r e g.
              let same : start ≡ a = ground arith in
              let (known, there) = all_stored a i r same g in
              (known, Recorded-kept w (finish n w) a i r (finish-Holds n w) there);
          found = all_found;
          sound = all_sound;
        }

-- A call that created a node was for the next number and a new external id.
pub apply_create_node-IsStored :
    (external_id label_id k : ℕ) (m n : IdMap) (p q : Pager)
    → external_id < 2 ^ 64
    → label_id < 2 ^ 32
    → IsStored m p
    → apply_create_node external_id label_id k m p ≡ ok (n, q)
    → IsStored n q × ((x : ℕ) → lookup n x ≡ (if external_id == x then some k else lookup m x))
unfolding lookup find
apply_create_node-IsStored external_id label_id k m n p q fits fits_label h e =
    let (start, t, w, next, new, e₁, e₂, same_map, same_pager) =
      create-eq_ok external_id label_id k m n p q e in
    let number : k ≡ m.i2e_len = next ∙ next-below m h.small in
    let s = ensure_start-Started m p start t h e₁ in
    let wrote =
      write_i2e_record-Recording start k (new_record external_id label_id) t w s.opened s.full e₂ in
    subst
      (λ n.
        IsStored n q
        × ((x : ℕ) → find n.e2i x ≡ (if external_id == x then some k else find m.e2i x)))
      same_map
      (
        subst (IsStored (created external_id label_id k start m)) same_pager (
            finish-IsStored external_id label_id k start m p t w h s fits fits_label number new
              wrote),
        λ x. refl,
      )
