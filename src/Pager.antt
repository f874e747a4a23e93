-- ===== src/Pager.antt =====
-- nervusdb-storage/src/pager.rs: pages of 8192 bytes, page 0 for the meta data and page 1 for the bitmap
-- of allocated pages. The file is a number of pages and their bytes; its calls succeed, but for a read
-- behind its end.
pub mod Bytes
pub mod Bitmap
pub mod MetaPage
pub mod MetaRoundTrip
pub mod Reopen
pub mod Steps
pub mod Pages
use nervusdb.Base.{
  ℕ, zero, suc, ◌+◌, ◌-◌, ◌*◌, ◌^◌, Bool, true, false, not, Option, none, some, List, [], ◌∷◌, ◌++◌,
}
use nervusdb.Base.{if◌then◌else◌, ltb, leb, ◌==◌, length, ok, err, ◌>>=◌, ◌>>◌, guard}
use nervusdb.Error.{Error, Storage, io, page_id_out_of_range, page_not_allocated, wal_protocol}
use nervusdb.Pager.Bitmap.{bitmap_bits, new_bitmap, get_bit, set_bit, find_free_in_range}
use nervusdb.Pager.MetaPage.{Meta, new_meta, encode_page, decode_page}

-- `page` of a number behind the end is what the page holds once the file has grown to it.
pub record Disk : Type 0 where
  pub pages : ℕ
  pub page : ℕ → List ℕ

pub record Pager : Type 0 where
  pub disk : Disk
  pub meta : Meta
  pub bitmap : List ℕ

abbrev pub first_data_page : ℕ
first_data_page = 2

unfoldable pub write_page_raw : Disk → ℕ → List ℕ → Disk
write_page_raw disk id bytes = record disk { page = λ i. if i == id then bytes else disk.page i }

unfoldable pub read_page_raw : Disk → ℕ → Storage (List ℕ)
read_page_raw disk id = if ltb id disk.pages then ok (disk.page id) else err io

-- `file.set_len(..)`, which never shortens the file here
unfoldable pub grow : Disk → ℕ → Disk
grow disk pages = if ltb disk.pages pages then record disk { pages = pages } else disk

unfoldable pub flush_meta_and_bitmap : Pager → Pager
unfolding write_page_raw
flush_meta_and_bitmap p = record p {
  disk = write_page_raw (write_page_raw p.disk 0 (encode_page p.meta)) 1 p.bitmap;
}

-- `Pager::open` of an empty file, and of one that was there.
unfoldable pub create : Disk → Pager
unfolding flush_meta_and_bitmap grow new_bitmap
create disk =
    flush_meta_and_bitmap (record { disk = grow disk 2; meta = new_meta; bitmap = new_bitmap })

unfoldable pub open_pager : Disk → Storage Pager
unfolding read_page_raw decode_page create
open_pager disk =
    let existing : Storage Pager = (do
      guard (leb 2 disk.pages) (wal_protocol "ndb file too small")
      meta_page ← read_page_raw disk 0
      meta ← decode_page meta_page
      bitmap ← read_page_raw disk 1
      ok (record { disk = disk; meta = meta; bitmap = bitmap })) in
    if disk.pages == 0 then ok (create disk) else existing

unfoldable pub validate_data_page_id : ℕ → Storage (Unit {0})
validate_data_page_id id = do
  guard (leb first_data_page id) (page_id_out_of_range id)
  guard (ltb id bitmap_bits) (page_id_out_of_range id)

unfoldable pub is_allocated : Pager → ℕ → Bool
is_allocated p id = get_bit p.bitmap id

unfoldable pub ensure_allocated : ℕ → Pager → Storage Pager
unfolding validate_data_page_id flush_meta_and_bitmap grow
ensure_allocated id p = do
  validate_data_page_id id
  let meta : Meta =
      if leb p.meta.next_page_id id then record (p.meta) { next_page_id = id + 1 } else p.meta
  let bitmap = if get_bit p.bitmap id then p.bitmap else set_bit p.bitmap id true
  ok (flush_meta_and_bitmap (record { disk = grow p.disk (id + 1); meta = meta; bitmap = bitmap }))

abbrev pub candidate : Pager → ℕ
candidate p = elim (find_free_in_range p.bitmap first_data_page p.meta.next_page_id) [
  | some id ↦ id
  | none ↦ p.meta.next_page_id
]

unfoldable pub allocate_page : Pager → Storage (ℕ × Pager)
unfolding ensure_allocated
allocate_page p = do
  let id = candidate p
  guard (ltb id bitmap_bits) (page_id_out_of_range id)
  let meta : Meta =
      if id == p.meta.next_page_id then record (p.meta) { next_page_id = id + 1 } else p.meta
  q ← ensure_allocated id (record p { meta = meta })
  ok (id, q)

unfoldable pub free_page : ℕ → Pager → Storage Pager
unfolding validate_data_page_id is_allocated flush_meta_and_bitmap
free_page id p = do
  validate_data_page_id id
  guard (is_allocated p id) (page_not_allocated id)
  ok (flush_meta_and_bitmap (record p { bitmap = set_bit p.bitmap id false }))

unfoldable pub read_page : Pager → ℕ → Storage (List ℕ)
unfolding validate_data_page_id is_allocated read_page_raw
read_page p id = do
  validate_data_page_id id
  guard (is_allocated p id) (page_not_allocated id)
  read_page_raw p.disk id

unfoldable pub write_page : ℕ → List ℕ → Pager → Storage Pager
unfolding validate_data_page_id is_allocated write_page_raw
write_page id bytes p = do
  validate_data_page_id id
  guard (is_allocated p id) (page_not_allocated id)
  ok (record p { disk = write_page_raw p.disk id bytes })

unfoldable pub set_i2e_start_page : Option ℕ → Pager → Pager
unfolding flush_meta_and_bitmap
set_i2e_start_page start p = flush_meta_and_bitmap (record p {
  meta = record (p.meta) { i2e_start_page_id = elim start [ none ↦ 0 | some id ↦ id ] };
})

unfoldable pub set_i2e_len : ℕ → Pager → Pager
unfolding flush_meta_and_bitmap
set_i2e_len len p = flush_meta_and_bitmap (record p { meta = record (p.meta) { i2e_len = len } })

unfoldable pub set_next_internal_id : ℕ → Pager → Pager
unfolding flush_meta_and_bitmap
set_next_internal_id next p =
    flush_meta_and_bitmap (record p { meta = record (p.meta) { next_internal_id = next } })

unfoldable pub set_index_catalog_root : Option ℕ → Pager → Pager
unfolding flush_meta_and_bitmap
set_index_catalog_root root p = flush_meta_and_bitmap (record p {
  meta = record (p.meta) { index_catalog_root = elim root [ none ↦ 0 | some id ↦ id ] };
})

abbrev pub next_index_id : Pager → ℕ
next_index_id p = if p.meta.next_index_id == 0 then 1 else p.meta.next_index_id

-- `id.saturating_add(1)`
unfoldable pub allocate_index_id : Pager → ℕ × Pager
unfolding flush_meta_and_bitmap
allocate_index_id p =
    let id = next_index_id p in
    let next = if id == 2 ^ 32 - 1 then id else id + 1 in
    (id, flush_meta_and_bitmap (record p { meta = record (p.meta) { next_index_id = next } }))

-- `None` for zero
abbrev pub page_option : ℕ → Option ℕ
page_option id = if id == 0 then none else some id

abbrev pub i2e_start_page : Pager → Option ℕ
i2e_start_page p = page_option p.meta.i2e_start_page_id
