-- ===== src/Pager/MetaPage.antt =====
-- `Meta` of nervusdb-storage/src/pager.rs: the first page of the file.
use nervusdb.Base.{ℕ, ◌-◌, ◌&&◌, List, [], ◌∷◌, ◌++◌}
use nervusdb.Base.{if◌then◌else◌, ltb, ◌==◌, ok, ◌>>=◌, ◌>>◌, guard}
use nervusdb.Base.Bytes.{Word, words, slice}
use nervusdb.Api.Edge.{bytes_eq}
use nervusdb.Api.Decode.{u32_at, u64_at}
use nervusdb.Error.{Storage, invalid_magic, unsupported_page_size, storage_format_mismatch}
use nervusdb.Pager.Bitmap.{page_size, zeros}

pub record Meta : Type 0 where
  pub version_major : ℕ
  pub version_minor : ℕ
  pub page_bytes : ℕ
  pub bitmap_page_id : ℕ
  pub next_page_id : ℕ
  pub i2e_start_page_id : ℕ
  pub i2e_len : ℕ
  pub next_internal_id : ℕ
  pub index_catalog_root : ℕ
  pub next_index_id : ℕ
  pub storage_format_epoch : ℕ

-- `b"NERVUSDBv2"` and six zero bytes
abbrev pub file_magic : List ℕ
file_magic = 78 ∷ 69 ∷ 82 ∷ 86 ∷ 85 ∷ 83 ∷ 68 ∷ 66 ∷ 118 ∷ 50 ∷ 0 ∷ 0 ∷ 0 ∷ 0 ∷ 0 ∷ 0 ∷ []

abbrev pub format_epoch : ℕ
format_epoch = 1

abbrev pub new_meta : Meta
new_meta = record {
  version_major = 2;
  version_minor = 0;
  page_bytes = page_size;
  bitmap_page_id = 1;
  next_page_id = 2;
  i2e_start_page_id = 0;
  i2e_len = 0;
  next_internal_id = 0;
  index_catalog_root = 0;
  next_index_id = 0;
  storage_format_epoch = format_epoch;
}

abbrev pub meta_words : Meta → List Word
meta_words m =
    (4, m.version_major)
    ∷ (4, m.version_minor)
    ∷ (8, m.page_bytes)
    ∷ (8, m.bitmap_page_id)
    ∷ (8, m.next_page_id)
    ∷ (8, m.i2e_start_page_id)
    ∷ (8, m.i2e_len)
    ∷ (8, m.next_internal_id)
    ∷ (8, m.index_catalog_root)
    ∷ (4, m.next_index_id)
    ∷ (8, m.storage_format_epoch)
    ∷ []

unfoldable pub encode_page : Meta → List ℕ
unfolding zeros
encode_page m = file_magic ++ (words (meta_words m) ++ zeros (page_size - 92))

unfoldable pub decode_page : List ℕ → Storage Meta
decode_page page = do
  magic ← slice page 0 16
  guard (bytes_eq magic file_magic) invalid_magic
  version_major ← u32_at page 16
  version_minor ← u32_at page 20
  page_bytes ← u64_at page 24
  bitmap_page_id ← u64_at page 32
  next_page_id ← u64_at page 40
  i2e_start_page_id ← u64_at page 48
  i2e_len ← u64_at page 56
  next_internal_id ← u64_at page 64
  index_catalog_root ← u64_at page 72
  next_index_id ← u32_at page 80
  storage_format_epoch ← u64_at page 84
  guard (page_bytes == page_size) (unsupported_page_size page_bytes)
  guard (storage_format_epoch == format_epoch)
      (storage_format_mismatch format_epoch storage_format_epoch)
  ok (record {
    version_major = version_major;
    version_minor = version_minor;
    page_bytes = page_bytes;
    bitmap_page_id = bitmap_page_id;
    next_page_id = next_page_id;
    i2e_start_page_id = i2e_start_page_id;
    i2e_len = i2e_len;
    next_internal_id = if next_internal_id == 0 && ltb 0 i2e_len then i2e_len else next_internal_id;
    index_catalog_root = index_catalog_root;
    next_index_id = next_index_id;
    storage_format_epoch = storage_format_epoch;
  })
