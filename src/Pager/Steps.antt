-- ===== src/Pager/Steps.antt =====
-- The operations of the pager as steps, from a new file on.
use nervusdb.Base.{
  ℕ, ◌+◌, ◌-◌, ◌^◌, ◌<◌, ◌≤◌, ◌≡◌, refl, ◌∙◌, true, false, Option, none, some, List, [], ◌∷◌, arith,
}
use nervusdb.Base.{if◌then◌else◌, ◌==◌, length, ok, ◌>>=◌, guard, >>=-eq-ok}
use nervusdb.Error.{Storage, page_not_allocated}
use nervusdb.Pager.Bitmap.{
  page_size, bitmap_bits, get_bit, set_bit, new_bitmap, get_bit-set_bit, length-set_bit,
  get_bit-new_bitmap, length-new_bitmap,
}
use nervusdb.Pager.MetaPage.{Meta}
use nervusdb.Pager.MetaRoundTrip.{IsMeta, repair}
use nervusdb.Pager.{
  Disk, Pager, write_page_raw, grow, flush_meta_and_bitmap, create, open_pager,
  validate_data_page_id, is_allocated, ensure_allocated, allocate_page, free_page, write_page,
  set_i2e_start_page, set_i2e_len, set_next_internal_id, set_index_catalog_root, allocate_index_id,
}
use mathlib.Core.Path.{subst}
use nervusdb.Base.{All}
use nervusdb.Pager.{next_index_id}
use nervusdb.Pager.MetaPage.{new_meta}
use nervusdb.Pager.Reopen.{
  IsOpen, open_pager-IsOpen, flush-IsOpen, ensured-IsOpen, ensure_allocated-eq_ok,
  allocate_page-eq_ok, validate-ok, grow-pages, next_index_id-IsMeta,
}

-- The operations of the pager that change it.
pub data PagerOp : Type 0 where
  allocate : PagerOp
  ensure free : ℕ → PagerOp
  write : ℕ → List ℕ → PagerOp
  start_page catalog_root : Option ℕ → PagerOp
  len next_id : ℕ → PagerOp
  index_id : PagerOp

unfoldable pub run_op : PagerOp → Pager → Storage Pager
unfolding allocate_page ensure_allocated free_page write_page set_i2e_start_page
    set_index_catalog_root set_i2e_len set_next_internal_id allocate_index_id
run_op allocate p = do allocated ← allocate_page p; ok (allocated.1)
run_op (ensure id) p = ensure_allocated id p
run_op (free id) p = free_page id p
run_op (write id bytes) p = write_page id bytes p
run_op (start_page start) p = ok (set_i2e_start_page start p)
run_op (catalog_root root) p = ok (set_index_catalog_root root p)
run_op (len n) p = ok (set_i2e_len n p)
run_op (next_id n) p = ok (set_next_internal_id n p)
run_op index_id p = ok ((allocate_index_id p).1)

abbrev OptionFits : Option ℕ → Type 0
OptionFits none = Unit
OptionFits (some n) = n < 2 ^ 64

-- The numbers of a call fit their machine words.
abbrev pub IsWord : PagerOp → Type 0
IsWord (start_page start) = OptionFits start
IsWord (catalog_root root) = OptionFits root
IsWord (len n) = n < 2 ^ 64
IsWord (next_id n) = n < 2 ^ 64
IsWord _ = Unit

-- New meta data and a bitmap with no more pages.
same_space :
    (p : Pager) (m : Meta) (bits : List ℕ)
    → IsOpen p
    → IsMeta m
    → m.next_page_id ≡ p.meta.next_page_id
    → length bits ≡ page_size
    → ((i : ℕ) → get_bit bits i ≡ true → get_bit p.bitmap i ≡ true)
    → IsOpen (flush_meta_and_bitmap (record { disk = p.disk; meta = m; bitmap = bits }))
same_space p m bits h known same size fewer =
    flush-IsOpen (record { disk = p.disk; meta = m; bitmap = bits }) known h.two_pages size
      (omega (arith, h.next_low, same)) (omega (arith, h.next_high, same))
      (λ i b. h.in_file i (fewer i b)) (λ i b. rw same (h.below_next i (fewer i b)))

pub write_page_raw-IsOpen :
    (p : Pager) (id : ℕ) (bytes : List ℕ)
    → 2 ≤ id
    → IsOpen p
    → IsOpen (record p { disk = write_page_raw p.disk id bytes })
unfolding write_page_raw
write_page_raw-IsOpen p id bytes low h =
    let zeroth : (0 == id) ≡ false = ground arith in
    let first : (1 == id) ≡ false = ground arith in
    record {
      meta_known = h.meta_known;
      meta_page = rw zeroth h.meta_page;
      bitmap_page = rw first h.bitmap_page;
      two_pages = h.two_pages;
      bitmap_size = h.bitmap_size;
      next_low = h.next_low;
      next_high = h.next_high;
      in_file = h.in_file;
      below_next = h.below_next;
    }

-- A call that checks its page first.
pub checked-eq_ok :
    (p q r : Pager) (id : ℕ)
    → (validate_data_page_id id >>= λ u.
        guard (is_allocated p id) (page_not_allocated id) >>= λ v. ok r)
      ≡ ok q
    → (2 ≤ id) × (id < bitmap_bits) × (is_allocated p id ≡ true) × (r ≡ q)
checked-eq_ok p q r id e =
    let (u, e₁, e₂) =
      >>=-eq-ok (validate_data_page_id id)
        (λ u. guard (is_allocated p id) (page_not_allocated id) >>= λ v. ok r) e in
    let (v, e₃, e₄) =
      >>=-eq-ok (guard (is_allocated p id) (page_not_allocated id)) (λ (v : Unit {0}). ok r) e₂ in
    let (low, high) = validate-ok id u e₁ in (low, high, ground arith, cc)

pub run_op-IsOpen :
    (op : PagerOp) (p q : Pager) → IsWord op → IsOpen p → run_op op p ≡ ok q → IsOpen q
unfolding run_op set_i2e_start_page set_index_catalog_root set_i2e_len set_next_internal_id
    allocate_index_id
run_op-IsOpen allocate p q w h e =
    let (r, e₁, e₂) = >>=-eq-ok (allocate_page p) (λ r. ok (r.1)) e in
    let (c, low, high, k) = allocate_page-eq_ok p r.0 r.1 e₁ in
    let same : r.1 ≡ q = cc in subst IsOpen (k ∙ same) (ensured-IsOpen r.0 p low high h)
run_op-IsOpen (ensure id) p q w h e =
    let (low, high, k) = ensure_allocated-eq_ok id p q e in
    subst IsOpen k (ensured-IsOpen id p low high h)
run_op-IsOpen (free id) p q w h e =
    let freed : Pager = record p { bitmap = set_bit p.bitmap id false } in
    let (low, high, was, same) =
      checked-eq_ok p q (flush_meta_and_bitmap freed) id (unfold free_page in e) in
    subst IsOpen same (
      same_space p p.meta (set_bit p.bitmap id false) h h.meta_known refl
        (length-set_bit p.bitmap id false ∙ h.bitmap_size)
        (λ i b. ground (arith, get_bit-set_bit p.bitmap id i false (omega (arith, h.bitmap_size)))))
run_op-IsOpen (write id bytes) p q w h e =
    let (low, high, was, same) =
      checked-eq_ok p q (record p { disk = write_page_raw p.disk id bytes }) id
        (unfold write_page in e) in
    subst IsOpen same (write_page_raw-IsOpen p id bytes low h)
run_op-IsOpen (start_page none) p q w h e = subst IsOpen (cc) (
    same_space p (record (p.meta) { i2e_start_page_id = 0 }) p.bitmap h
      (ground (arith, h.meta_known)) refl h.bitmap_size (λ i b. b))
run_op-IsOpen (start_page (some n)) p q w h e = subst IsOpen (cc) (
    same_space p (record (p.meta) { i2e_start_page_id = n }) p.bitmap h
      (ground (arith, h.meta_known)) refl h.bitmap_size (λ i b. b))
run_op-IsOpen (catalog_root none) p q w h e = subst IsOpen (cc) (
    same_space p (record (p.meta) { index_catalog_root = 0 }) p.bitmap h
      (ground (arith, h.meta_known)) refl h.bitmap_size (λ i b. b))
run_op-IsOpen (catalog_root (some n)) p q w h e = subst IsOpen (cc) (
    same_space p (record (p.meta) { index_catalog_root = n }) p.bitmap h
      (ground (arith, h.meta_known)) refl h.bitmap_size (λ i b. b))
run_op-IsOpen (len n) p q w h e = subst IsOpen (cc) (
    same_space p (record (p.meta) { i2e_len = n }) p.bitmap h (ground (arith, h.meta_known)) refl
      h.bitmap_size (λ i b. b))
run_op-IsOpen (next_id n) p q w h e = subst IsOpen (cc) (
    same_space p (record (p.meta) { next_internal_id = n }) p.bitmap h
      (ground (arith, h.meta_known)) refl h.bitmap_size (λ i b. b))
run_op-IsOpen index_id p q w h e =
    let id = next_index_id p in
    let next = if id == 2 ^ 32 - 1 then id else id + 1 in
    let fits : next < 2 ^ 32 = ground (arith, h.meta_known.next_index_id_fits) in
    subst IsOpen (cc) (
      same_space p (record (p.meta) { next_index_id = next }) p.bitmap h
        (next_index_id-IsMeta p.meta h.meta_known next fits) refl h.bitmap_size (λ i b. b))

unfoldable pub run_ops : List PagerOp → Pager → Storage Pager
unfolding run_op
run_ops [] p = ok p
run_ops (op ∷ ops) p = do q ← run_op op p; run_ops ops q

run_ops-IsOpen :
    (ops : List PagerOp) (p q : Pager) → All IsWord ops → IsOpen p → run_ops ops p ≡ ok q → IsOpen q
unfolding run_ops
run_ops-IsOpen [] p q w h e = let same : p ≡ q = cc in subst IsOpen same h
run_ops-IsOpen (op ∷ ops) p q w h e =
    let (r, e₁, e₂) = >>=-eq-ok (run_op op p) (λ r. run_ops ops r) e in
    run_ops-IsOpen ops r q w.1 (run_op-IsOpen op p r w.0 h e₁) e₂

-- A new pager is in step with its file.
pub create-IsOpen : (disk : Disk) → IsOpen (create disk)
unfolding create
create-IsOpen disk =
    flush-IsOpen (record { disk = grow disk 2; meta = new_meta; bitmap = new_bitmap })
      (ground arith) ((grow-pages disk 2).1) length-new_bitmap (omega arith) (omega arith)
      (λ i b. ground (arith, get_bit-new_bitmap i, grow-pages disk 2))
      (λ i b. ground (arith, get_bit-new_bitmap i))

-- After any calls that succeeded on a new pager, with numbers that fit their words, opening its file gives
-- the pager back, with a `next_internal_id` of zero replaced by the number of nodes.
pub open_pager-run_ops :
    (disk : Disk) (ops : List PagerOp) (q : Pager)
    → All IsWord ops
    → run_ops ops (create disk) ≡ ok q
    → open_pager q.disk ≡ ok (record q { meta = repair q.meta })
open_pager-run_ops disk ops q w e =
    open_pager-IsOpen q (run_ops-IsOpen ops (create disk) q w (create-IsOpen disk) e)
