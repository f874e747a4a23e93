-- ===== src/IdMap/Stored.antt =====
-- The id map in memory and its pages say the same, from an empty map on.
use mathlib.Core.Path.{subst}
use nervusdb.Base.{ℕ, ◌^◌, ◌<◌, ◌≤◌, ◌≡◌, inl, inr, refl, ap, ◌∙◌, false, none, some, List, arith}
use nervusdb.Base.{◌==◌, length, get_elem?, ok, >>=-eq-ok, Option-cases}
use nervusdb.Error.{Storage}
use nervusdb.Pager.{
  Pager, write_page_raw, flush_meta_and_bitmap, grow, i2e_start_page, page_option, allocate_page,
  set_i2e_start_page,
}
use nervusdb.Pager.Bitmap.{bitmap_bits}
use nervusdb.Pager.MetaPage.{Meta}
use nervusdb.Pager.Reopen.{IsOpen, ensured, allocate_page-eq_ok}
use nervusdb.Pager.Steps.{start_page, run_op, run_op-IsOpen}
use nervusdb.Pager.Pages.{Holds, ensured-Holds}
use nervusdb.IdMap.{I2eRecord, IdMap, find, first_page, ensure_start}
use nervusdb.IdMap.Records.{IsRecord, Recorded, Full, page_of}

pub record IsStored (m : IdMap) (p : Pager) : Type 0 where
  pub opened : IsOpen p
  pub full : Full p
  pub start_known : i2e_start_page p ≡ m.i2e_start
  pub len_known : p.meta.i2e_len ≡ m.i2e_len
  pub next_known : p.meta.next_internal_id ≡ m.i2e_len
  pub count : length m.i2e ≡ m.i2e_len
  pub small : m.i2e_len ≤ 2 ^ 25
  pub unstarted : m.i2e_start ≡ none → m.i2e_len ≡ 0
  pub stored :
      (start k : ℕ) (r : I2eRecord)
      → m.i2e_start ≡ some start
      → get_elem? m.i2e k ≡ some r
      → IsRecord r × Recorded p start k r
  pub found :
      (k : ℕ) (r : I2eRecord) → get_elem? m.i2e k ≡ some r → find m.e2i r.external_id ≡ some k
  pub sound :
      (x k : ℕ)
      → find m.e2i x ≡ some k
      → (r : I2eRecord) × (get_elem? m.i2e k ≡ some r) × (r.external_id ≡ x)

-- Other meta data leave what the pages hold.
module _ (p : Pager) (m : Meta) where
  abbrev pub remade : Pager
  remade = flush_meta_and_bitmap (record p { meta = m })

  pub flush-Holds : (id : ℕ) (bytes : List ℕ) → Holds p id bytes → Holds remade id bytes
  unfolding flush_meta_and_bitmap write_page_raw
  flush-Holds id bytes h = record {
    low = h.low;
    high = h.high;
    allocated = h.allocated;
    in_file = h.in_file;
    content = ground (arith, h.low, h.content);
  }

  pub flush-Full : Full p → Full remade
  unfolding flush_meta_and_bitmap write_page_raw
  flush-Full f i j = ground (arith, f i j)

pub Recorded-kept :
    (p q : Pager) (start k : ℕ) (r : I2eRecord)
    → ((id : ℕ) (bytes : List ℕ) → Holds p id bytes → Holds q id bytes)
    → Recorded p start k r
    → Recorded q start k r
Recorded-kept p q start k r kept h = record {
  page = h.page;
  held = kept (page_of start k) h.page h.held;
  full = h.full;
  there = h.there;
}

-- The start page is there, and records that were there still are.
pub record Started (m : IdMap) (p : Pager) (start : ℕ) (q : Pager) : Type 0 where
  pub opened : IsOpen q
  pub full : Full q
  pub known : q.meta.i2e_start_page_id ≡ start
  pub positive : (start == 0) ≡ false
  pub kept : (id : ℕ) (bytes : List ℕ) → Holds p id bytes → Holds q id bytes
  pub same : (s : ℕ) → m.i2e_start ≡ some s → s ≡ start

ok-pair :
    (s start : ℕ) (p q : Pager)
    → (let x : Storage (ℕ × Pager) = ok (s, p) in x ≡ ok (start, q))
    → (s ≡ start) × (p ≡ q)
ok-pair s start p q e =
    let pair : (s, p) ≡ (start, q) = cc in
    (ap (λ (x : ℕ × Pager). x.0) pair, ap (λ (x : ℕ × Pager). x.1) pair)

page_option-some : (id s : ℕ) → page_option id ≡ some s → (id ≡ s) × ((s == 0) ≡ false)
page_option-some id s h = (ground arith, ground arith)

start_page-ok :
    (id : ℕ) (p : Pager) → run_op (start_page (some id)) p ≡ ok (set_i2e_start_page (some id) p)
unfolding run_op
start_page-ok id p = refl

Full-ensured : (p : Pager) (id : ℕ) → 2 ≤ id → Full p → Full (ensured id p)
unfolding flush_meta_and_bitmap write_page_raw grow
Full-ensured p id low f i j = ground (arith, f i j)

set_i2e_start_page-Started :
    (m : IdMap) (p : Pager) (id : ℕ)
    → 2 ≤ id
    → id < bitmap_bits
    → IsStored m p
    → m.i2e_start ≡ none
    → Started m p id (set_i2e_start_page (some id) (ensured id p))
unfolding set_i2e_start_page
set_i2e_start_page-Started m p id low high h none_yet =
    let (opened, held, kept, same_pages) = ensured-Holds p id low high h.opened in
    let meta : Meta = record ((ensured id p).meta) { i2e_start_page_id = id } in
    record {
      opened =
          run_op-IsOpen (start_page (some id)) (ensured id p)
            (set_i2e_start_page (some id) (ensured id p)) (omega arith) opened
            (start_page-ok id (ensured id p));
      full = flush-Full (ensured id p) meta (Full-ensured p id low h.full);
      known = unfold flush_meta_and_bitmap in refl;
      positive = ground arith;
      kept = λ i bytes k. flush-Holds (ensured id p) meta i bytes (kept i bytes k);
      same = λ s k. absurd (cc);
    }

first_page-Started :
    (m : IdMap) (p : Pager) (start : ℕ) (q : Pager)
    → IsStored m p
    → m.i2e_start ≡ none
    → first_page p ≡ ok (start, q)
    → Started m p start q
first_page-Started m p start q h none_yet e =
    let (a, e₁, e₂) =
      >>=-eq-ok (allocate_page p) (λ a. ok (a.0, set_i2e_start_page (some (a.0)) (a.1))) e in
    let (c, low, high, same) = allocate_page-eq_ok p a.0 a.1 e₁ in
    let pair : (a.0, set_i2e_start_page (some (a.0)) (a.1)) ≡ (start, q) = cc in
    let eq : a.0 ≡ start = ap (λ (x : ℕ × Pager). x.0) pair in
    let last : set_i2e_start_page (some (a.0)) (ensured (a.0) p) ≡ q =
      ap (set_i2e_start_page (some (a.0))) same ∙ ap (λ (x : ℕ × Pager). x.1) pair in
    rw (← eq)
      (subst (Started m p (a.0)) last (set_i2e_start_page-Started m p (a.0) low high h none_yet))

pub ensure_start-Started :
    (m : IdMap) (p : Pager) (start : ℕ) (q : Pager)
    → IsStored m p
    → ensure_start m p ≡ ok (start, q)
    → Started m p start q
unfolding ensure_start
ensure_start-Started m p start q h e = elim (Option-cases (m.i2e_start)) [
  | inl none_yet ↦ first_page-Started m p start q h none_yet (rw none_yet at e)
  | inr (s, some_start) ↦
      let (eq, same) = ok-pair s start p q (rw some_start at e) in
      let known : page_option p.meta.i2e_start_page_id ≡ some s = h.start_known ∙ some_start in
      let (number, positive) = page_option-some p.meta.i2e_start_page_id s known in
      subst (Started m p start) same (record {
        opened = h.opened;
        full = h.full;
        known = number ∙ eq;
        positive = rw eq at positive;
        kept = λ id bytes k. k;
        same = λ t k. cc;
      })
]
