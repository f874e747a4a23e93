-- ===== src/Pager/Pages.antt =====
-- What a client of the pager reads: pages that were allocated and written, and no page of another.
use mathlib.Core.Logic.{inl, inr, ◌≢◌}
use nervusdb.Base.{ℕ, ◌<◌, ◌≤◌, ◌≡◌, refl, ap, true, false, List, arith}
use nervusdb.Base.{if◌then◌else◌, ltb, leb, ◌==◌, ok, Option-cases, Bool-cases}
use mathlib.Core.Path.{subst}
use nervusdb.Pager.Bitmap.{
  bitmap_bits, get_bit, find_free_in_range, find_free_in_range-some, set_bit, get_bit-set_bit,
}
use nervusdb.Pager.{
  Pager, candidate, first_data_page, write_page_raw, read_page_raw, grow, flush_meta_and_bitmap,
  validate_data_page_id, is_allocated, allocate_page, free_page, read_page, write_page,
}
use nervusdb.Pager.Reopen.{IsOpen, ensured, get_bit-marked, ensured-IsOpen, allocate_page-eq_ok}
use nervusdb.Pager.Steps.{free, run_op, run_op-IsOpen, write_page_raw-IsOpen}

-- A data page that is allocated, in the file, and holds these bytes.
pub record Holds (p : Pager) (id : ℕ) (bytes : List ℕ) : Type 0 where
  pub low : 2 ≤ id
  pub high : id < bitmap_bits
  pub allocated : get_bit p.bitmap id ≡ true
  pub in_file : id < p.disk.pages
  pub content : p.disk.page id ≡ bytes

pub read_page-Holds :
    (p : Pager) (id : ℕ) (bytes : List ℕ) → Holds p id bytes → read_page p id ≡ ok bytes
unfolding read_page validate_data_page_id is_allocated read_page_raw
read_page-Holds p id bytes h =
    let low : leb 2 id ≡ true = ground (arith, h.low) in
    let high : ltb id bitmap_bits ≡ true = ground (arith, h.high) in
    let stored : ltb id p.disk.pages ≡ true = ground (arith, h.in_file) in
    rw (low, high) (simp (h.allocated, stored) (ap ok h.content))

-- A page that is ensured is allocated with what the file has there, and changes no other.
pub ensured-Holds :
    (p : Pager) (id : ℕ)
    → 2 ≤ id
    → id < bitmap_bits
    → IsOpen p
    → IsOpen (ensured id p)
      × Holds (ensured id p) id (p.disk.page id)
      × ((other : ℕ) (bytes : List ℕ) → Holds p other bytes → Holds (ensured id p) other bytes)
      × ((i : ℕ) → 2 ≤ i → (ensured id p).disk.page i ≡ p.disk.page i)
unfolding flush_meta_and_bitmap write_page_raw grow
ensured-Holds p id low high h = (
  ensured-IsOpen id p low high h,
  record {
    low = low;
    high = high;
    allocated = ground (arith, get_bit-marked p.bitmap id id h.bitmap_size high);
    in_file = ground arith;
    content = ground (arith, low);
  },
  (λ other bytes k. record {
    low = k.low;
    high = k.high;
    allocated = ground (arith, get_bit-marked p.bitmap id other h.bitmap_size high, k.allocated);
    in_file = ground (arith, k.in_file);
    content = ground (arith, k.low, k.content);
  }),
  λ i j. ground (arith, j),
)

candidate-free : (p : Pager) → IsOpen p → get_bit p.bitmap (candidate p) ≡ false
candidate-free p h =
    elim (Option-cases (find_free_in_range p.bitmap first_data_page p.meta.next_page_id)) [
      | inl e ↦
          rw (e, candidate)
            (elim (Bool-cases (get_bit p.bitmap p.meta.next_page_id)) [
              | inl b ↦ absurd (omega (arith, h.below_next p.meta.next_page_id b))
              | inr b ↦ b
            ])
      | inr (id, e) ↦
          rw (e, candidate) ((find_free_in_range-some p.bitmap 2 p.meta.next_page_id id e).2)
    ]

-- A page that is allocated was free, is another than every page that holds anything, and leaves those
-- as they are.
pub allocate_page-Holds :
    (p : Pager) (id : ℕ) (q : Pager)
    → IsOpen p
    → allocate_page p ≡ ok (id, q)
    → IsOpen q
      × (get_bit p.bitmap id ≡ false)
      × Holds q id (q.disk.page id)
      × ((other : ℕ) (bytes : List ℕ) → Holds p other bytes → (other ≢ id) × Holds q other bytes)
unfolding flush_meta_and_bitmap write_page_raw grow
allocate_page-Holds p id q h e =
    let (c, low, high, same) = allocate_page-eq_ok p id q e in
    let free : get_bit p.bitmap id ≡ false = rw c at (candidate-free p h) in
    let (opened, held, kept, same_pages) = ensured-Holds p id low high h in
    let here : Holds (ensured id p) id ((ensured id p).disk.page id) =
      rw (same_pages id low) held in
    let others : (other : ℕ) (bytes : List ℕ)
        → Holds p other bytes
        → (other ≢ id) × Holds (ensured id p) other bytes =
      λ other bytes k. (λ eq. ground (arith, free, k.allocated), kept other bytes k) in
    subst
      (λ r.
        IsOpen r
        × (get_bit p.bitmap id ≡ false)
        × Holds r id (r.disk.page id)
        × ((other : ℕ) (bytes : List ℕ) → Holds p other bytes → (other ≢ id) × Holds r other bytes))
      same (opened, free, here, others)

-- The pager with other bytes in one page of its file.
abbrev pub written : ℕ → List ℕ → Pager → Pager
written id bytes p = record p { disk = write_page_raw p.disk id bytes }

-- A write to a page that holds anything succeeds, is what the page holds then, and leaves the others.
pub write_page-Holds :
    (p : Pager) (id : ℕ) (old bytes : List ℕ)
    → IsOpen p
    → Holds p id old
    → (write_page id bytes p ≡ ok (written id bytes p))
      × IsOpen (written id bytes p)
      × Holds (written id bytes p) id bytes
      × ((other : ℕ) (kept : List ℕ)
          → Holds p other kept
          → other ≢ id
          → Holds (written id bytes p) other kept)
unfolding write_page validate_data_page_id is_allocated write_page_raw
write_page-Holds p id old bytes h k =
    let low : leb 2 id ≡ true = ground (arith, k.low) in
    let high : ltb id bitmap_bits ≡ true = ground (arith, k.high) in
    (
      rw (low, high) (simp k.allocated refl),
      write_page_raw-IsOpen p id bytes k.low h,
      record {
        low = k.low;
        high = k.high;
        allocated = k.allocated;
        in_file = k.in_file;
        content = ground arith;
      },
      λ other kept j ne. record {
        low = j.low;
        high = j.high;
        allocated = j.allocated;
        in_file = j.in_file;
        content = ground (arith, j.content, ne);
      },
    )

pub allocate_page-get_bit :
    (p : Pager) (id : ℕ) (q : Pager) (i : ℕ)
    → IsOpen p
    → allocate_page p ≡ ok (id, q)
    → get_bit q.bitmap i ≡ (if id == i then true else get_bit p.bitmap i)
unfolding flush_meta_and_bitmap
allocate_page-get_bit p id q i h e =
    let (c, low, high, same) = allocate_page-eq_ok p id q e in
    subst (λ r. get_bit r.bitmap i ≡ (if id == i then true else get_bit p.bitmap i)) same
      (get_bit-marked p.bitmap id i h.bitmap_size high)

run_free : (id : ℕ) (p q : Pager) → free_page id p ≡ ok q → run_op (free id) p ≡ ok q
unfolding run_op
run_free id p q e = e

-- What a page that is freed held is gone, and nothing else.
pub free_page-Holds :
    (p : Pager) (id : ℕ) (bytes : List ℕ)
    → IsOpen p
    → Holds p id bytes
    → (q : Pager) × (free_page id p ≡ ok q)
      × IsOpen q
      × ((i : ℕ) → get_bit q.bitmap i ≡ (if id == i then false else get_bit p.bitmap i))
      × ((other : ℕ) (kept : List ℕ) → Holds p other kept → other ≢ id → Holds q other kept)
unfolding free_page validate_data_page_id is_allocated flush_meta_and_bitmap write_page_raw
free_page-Holds p id bytes h k =
    let low : leb 2 id ≡ true = ground (arith, k.low) in
    let high : ltb id bitmap_bits ≡ true = ground (arith, k.high) in
    let q : Pager = flush_meta_and_bitmap (record p { bitmap = set_bit p.bitmap id false }) in
    let bits : (i : ℕ) → get_bit q.bitmap i ≡ (if id == i then false else get_bit p.bitmap i) =
      λ i. get_bit-set_bit p.bitmap id i false (omega (arith, k.high, h.bitmap_size)) in
    let freed : free_page id p ≡ ok q = rw (low, high) (simp k.allocated refl) in
    (
      q,
      freed,
      run_op-IsOpen (free id) p q tt h (run_free id p q freed),
      bits,
      λ other kept j ne. record {
        low = j.low;
        high = j.high;
        allocated = ground (arith, bits other, j.allocated);
        in_file = j.in_file;
        content = ground (arith, j.low, j.content);
      },
    )
