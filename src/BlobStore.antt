-- ===== src/BlobStore.antt =====
-- nervusdb-storage/src/blob_store.rs: byte strings of any length as chains of pages.
pub mod Chain
pub mod Written
pub mod Deleted
use mathlib.Core.Option
use nervusdb.Base.{ℕ, zero, suc, ◌+◌, ◌-◌, ◌%◌, ◌^◌, Option, none, some, List, [], ◌∷◌, ◌++◌}
use nervusdb.Base.{if◌then◌else◌, leb, ◌==◌, length, take, drop, ok, err, panic, ◌>>=◌, ◌>>◌, guard}
use nervusdb.Base.Bytes.{words, slice, from_le_bytes}
use nervusdb.Api.Decode.{u64_at}
use nervusdb.Error.{Storage, storage_corrupted}
use nervusdb.Pager.{Pager, allocate_page, write_page, read_page, free_page}
use nervusdb.Pager.Bitmap.{page_size, zeros}

abbrev pub max_data : ℕ
max_data = page_size - 10

-- `data.chunks(n)`, with the length of the data as fuel
unfoldable pub chunks : ℕ → ℕ → List ℕ → List (List ℕ)
chunks n zero bytes = []
chunks n (suc fuel) [] = []
chunks n (suc fuel) (b ∷ bs) = take n (b ∷ bs) ∷ chunks n fuel (drop n (b ∷ bs))

-- The next page's number, the length in two bytes, the bytes, and zeros.
unfoldable pub blob_page : ℕ → List ℕ → List ℕ
unfolding zeros
blob_page next chunk =
    words ((8, next) ∷ (2, length chunk % 2 ^ 16) ∷ [])
    ++ (chunk ++ zeros (max_data - length chunk))

-- The loop runs from the last chunk to the first.
unfoldable pub write_chain : List (List ℕ) → Pager → Storage (ℕ × Pager)
unfolding blob_page allocate_page write_page
write_chain [] p = ok (0, p)
write_chain (chunk ∷ rest) p = do
  after ← write_chain rest p
  fresh ← allocate_page (after.1)
  q ← write_page (fresh.0) (blob_page (after.0) chunk) (fresh.1)
  ok (fresh.0, q)

unfoldable pub write_direct : List ℕ → Pager → Storage (ℕ × Pager)
unfolding chunks write_chain
write_direct [] p = do
  fresh ← allocate_page p
  q ← write_page (fresh.0) (zeros page_size) (fresh.1)
  ok (fresh.0, q)
write_direct (b ∷ bs) p = write_chain (chunks max_data (length (b ∷ bs)) (b ∷ bs)) p

-- One round of the loop of `read_direct`: the bytes of a page, and the page after it.
unfoldable pub read_link : Pager → ℕ → Storage (List ℕ × ℕ)
read_link p id = do
  page ← read_page p id
  next ← u64_at page 0
  raw_len ← slice page 8 10
  let len = from_le_bytes raw_len
  guard (leb len max_data) (storage_corrupted "invalid blob page data length")
  bytes ← slice page 10 (10 + len)
  ok (bytes, next)

abbrev pub prepend : List ℕ → Storage (List ℕ) → Storage (List ℕ)
prepend bytes rest = do tail ← rest; ok (bytes ++ tail)

abbrev pub follow :
    (ℕ → Option (Storage (List ℕ))) → Storage (List ℕ × ℕ) → Option (Storage (List ℕ))
follow k (ok (bytes, next)) = Option.map (prepend bytes) (k next)
follow k (err e) = some (err e)
follow k panic = some panic

-- None when the fuel is spent: a chain that runs in a circle is read for ever.
unfoldable pub read_direct : ℕ → Pager → ℕ → Option (Storage (List ℕ))
unfolding read_link
read_direct zero p id = if id == 0 then some (ok []) else none
read_direct (suc fuel) p id =
    let rest = follow (read_direct fuel p) (read_link p id) in
    if id == 0 then some (ok []) else rest

abbrev pub follow_delete :
    (ℕ → Pager → Option (Storage Pager)) → Storage (ℕ × Pager) → Option (Storage Pager)
follow_delete k (ok (next, p)) = k next p
follow_delete k (err e) = some (err e)
follow_delete k panic = some panic

-- One round of the loop of `delete`: the page after the one that is freed.
unfoldable pub unlink : Pager → ℕ → Storage (ℕ × Pager)
unlink p id = do page ← read_page p id; next ← u64_at page 0; q ← free_page id p; ok (next, q)

unfoldable pub delete : ℕ → ℕ → Pager → Option (Storage Pager)
unfolding unlink
delete zero id p = if id == 0 then some (ok p) else none
delete (suc fuel) id p =
    let rest = follow_delete (delete fuel) (unlink p id) in if id == 0 then some (ok p) else rest
