-- ===== src/Pager/Reopen.antt =====
-- Every operation of the pager leaves a file from which the pager can be opened again.
use nervusdb.Base.{ℕ, ◌+◌, ◌^◌, ◌<◌, ◌≤◌, ◌≡◌, refl, ap, sym, ◌∙◌, true, false, List, arith}
use nervusdb.Base.{if◌then◌else◌, ltb, leb, ◌==◌, length, ok, ◌>>=◌, guard, >>=-eq-ok, Bool-cases}
use mathlib.Core.Logic.{inl, inr}
use nervusdb.Error.{page_id_out_of_range}
use nervusdb.Pager.Bitmap.{
  page_size, bitmap_bits, get_bit, set_bit, get_bit-set_bit, length-set_bit,
}
use nervusdb.Pager.MetaPage.{Meta, encode_page}
use nervusdb.Pager.MetaRoundTrip.{IsMeta, repair, decode_page-encode_page}
use nervusdb.Pager.{
  Disk, Pager, candidate, write_page_raw, read_page_raw, grow, flush_meta_and_bitmap, open_pager,
  validate_data_page_id, ensure_allocated, allocate_page,
}

-- The state in memory is the one in the file, and allocated pages are in the file.
pub record IsOpen (p : Pager) : Type 0 where
  pub meta_known : IsMeta p.meta
  pub meta_page : p.disk.page 0 ≡ encode_page p.meta
  pub bitmap_page : p.disk.page 1 ≡ p.bitmap
  pub two_pages : 2 ≤ p.disk.pages
  pub bitmap_size : length p.bitmap ≡ page_size
  pub next_low : 2 ≤ p.meta.next_page_id
  pub next_high : p.meta.next_page_id ≤ bitmap_bits
  pub in_file : (i : ℕ) → get_bit p.bitmap i ≡ true → i < p.disk.pages
  pub below_next : (i : ℕ) → get_bit p.bitmap i ≡ true → i < p.meta.next_page_id

pub open_pager-IsOpen :
    (p : Pager) → IsOpen p → open_pager p.disk ≡ ok (record p { meta = repair p.meta })
unfolding open_pager read_page_raw
open_pager-IsOpen p h =
    let some_pages : (p.disk.pages == 0) ≡ false = ground (arith, h.two_pages) in
    let enough : leb 2 p.disk.pages ≡ true = ground (arith, h.two_pages) in
    let first : ltb 0 p.disk.pages ≡ true = ground (arith, h.two_pages) in
    let second : ltb 1 p.disk.pages ≡ true = ground (arith, h.two_pages) in
    simp
      (
        some_pages,
        enough,
        first,
        second,
        h.meta_page,
        h.bitmap_page,
        decode_page-encode_page p.meta h.meta_known,
      )
      refl

module _ (m : Meta) (h : IsMeta m) where
  next_page_id-IsMeta : (n : ℕ) → n < 2 ^ 64 → IsMeta (record m { next_page_id = n })
  next_page_id-IsMeta n k = ground (arith, h)

  pub next_index_id-IsMeta : (n : ℕ) → n < 2 ^ 32 → IsMeta (record m { next_index_id = n })
  next_index_id-IsMeta n k = ground (arith, h)

-- What flushing makes of a state whose parts fit, given a file that is long enough.
pub flush-IsOpen :
    (p : Pager)
    → IsMeta p.meta
    → 2 ≤ p.disk.pages
    → length p.bitmap ≡ page_size
    → 2 ≤ p.meta.next_page_id
    → p.meta.next_page_id ≤ bitmap_bits
    → ((i : ℕ) → get_bit p.bitmap i ≡ true → i < p.disk.pages)
    → ((i : ℕ) → get_bit p.bitmap i ≡ true → i < p.meta.next_page_id)
    → IsOpen (flush_meta_and_bitmap p)
unfolding flush_meta_and_bitmap write_page_raw
flush-IsOpen p known two size low high in_file below = record {
  meta_known = known;
  meta_page = refl;
  bitmap_page = refl;
  two_pages = two;
  bitmap_size = size;
  next_low = low;
  next_high = high;
  in_file = in_file;
  below_next = below;
}

pub validate-ok :
    (id : ℕ) (u : Unit {0}) → validate_data_page_id id ≡ ok u → (2 ≤ id) × (id < bitmap_bits)
unfolding validate_data_page_id
validate-ok id u h = (ground arith, ground arith)

abbrev pub marked : List ℕ → ℕ → List ℕ
marked bits id = if get_bit bits id then bits else set_bit bits id true

pub get_bit-marked :
    (bits : List ℕ) (id i : ℕ)
    → length bits ≡ page_size
    → id < bitmap_bits
    → get_bit (marked bits id) i ≡ (if id == i then true else get_bit bits i)
get_bit-marked bits id i size h = ground (arith, get_bit-set_bit bits id i true (omega arith))

length-marked : (bits : List ℕ) (id : ℕ) → length (marked bits id) ≡ length bits
length-marked bits id = ground (arith, length-set_bit bits id true)

abbrev pub raised : Meta → ℕ → Meta
raised m id = if leb m.next_page_id id then record m { next_page_id = id + 1 } else m

raised-IsMeta : (m : Meta) (id : ℕ) → IsMeta m → id < bitmap_bits → IsMeta (raised m id)
raised-IsMeta m id h k = elim (Bool-cases (leb m.next_page_id id)) [
  | inl e ↦ rw e (next_page_id-IsMeta m h (id + 1) (omega arith))
  | inr e ↦ rw e h
]

raised-next :
    (m : Meta) (id : ℕ)
    → (m.next_page_id ≤ (raised m id).next_page_id) × (id < (raised m id).next_page_id)
raised-next m id = ground arith

abbrev pub ensured : ℕ → Pager → Pager
ensured id p =
    flush_meta_and_bitmap
      (record { disk = grow p.disk (id + 1); meta = raised p.meta id; bitmap = marked p.bitmap id })

pub ensure_allocated-eq_ok :
    (id : ℕ) (p q : Pager)
    → ensure_allocated id p ≡ ok q
    → (2 ≤ id) × (id < bitmap_bits) × (ensured id p ≡ q)
unfolding ensure_allocated
ensure_allocated-eq_ok id p q h =
    let (u, e, k) = >>=-eq-ok (validate_data_page_id id) (λ u. ok (ensured id p)) h in
    let (low, high) = validate-ok id u e in (low, high, cc)

pub grow-pages : (d : Disk) (n : ℕ) → (d.pages ≤ (grow d n).pages) × (n ≤ (grow d n).pages)
unfolding grow
grow-pages d n = ground arith

pub ensured-IsOpen :
    (id : ℕ) (p : Pager) → 2 ≤ id → id < bitmap_bits → IsOpen p → IsOpen (ensured id p)
ensured-IsOpen id p low high h =
    let (next, above) = raised-next p.meta id in
    let (kept, long) = grow-pages p.disk (id + 1) in
    flush-IsOpen
      (record { disk = grow p.disk (id + 1); meta = raised p.meta id; bitmap = marked p.bitmap id })
      (raised-IsMeta p.meta id h.meta_known high) (omega (arith, h.two_pages))
      (length-marked p.bitmap id ∙ h.bitmap_size) (omega (arith, h.next_low))
      (ground (arith, h.next_high))
      (λ i b. ground (arith, get_bit-marked p.bitmap id i h.bitmap_size high, h.in_file i))
      (λ i b. ground (arith, get_bit-marked p.bitmap id i h.bitmap_size high, h.below_next i))

claimed : Meta → ℕ → Meta
claimed m id = if id == m.next_page_id then record m { next_page_id = id + 1 } else m

-- Claiming the next page and ensuring it raise the bound in the same way.
raised-claimed : (m : Meta) (id : ℕ) → raised (claimed m id) id ≡ raised m id
unfolding claimed
raised-claimed m id = ground arith

pub allocate_page-eq_ok :
    (p : Pager) (id : ℕ) (q : Pager)
    → allocate_page p ≡ ok (id, q)
    → (candidate p ≡ id) × (2 ≤ id) × (id < bitmap_bits) × (ensured id p ≡ q)
unfolding allocate_page claimed
allocate_page-eq_ok p id q h =
    let c = candidate p in
    let rest = λ (u : Unit {0}).
      ensure_allocated c (record p { meta = claimed p.meta c }) >>= λ r. ok (c, r) in
    let (u, g, h₁) = >>=-eq-ok (guard (ltb c bitmap_bits) (page_id_out_of_range c)) rest h in
    let (r, e, h₂) =
      >>=-eq-ok (ensure_allocated c (record p { meta = claimed p.meta c })) (λ r. ok (c, r)) h₁ in
    let (low, high, k) = ensure_allocated-eq_ok c (record p { meta = claimed p.meta c }) r e in
    let pair : (c, r) ≡ (id, q) = cc in
    let same : c ≡ id = ap (λ (x : ℕ × Pager). x.0) pair in
    let second : r ≡ q = ap (λ (x : ℕ × Pager). x.1) pair in
    let moved : ensured c p ≡ r =
      ap
        (λ m.
          flush_meta_and_bitmap
            (record { disk = grow p.disk (c + 1); meta = m; bitmap = marked p.bitmap c }))
        (sym (raised-claimed p.meta c))
      ∙ k in
    (same, rw (← same) low, rw (← same) high, rw (← same) (moved ∙ second))
