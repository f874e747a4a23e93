-- ===== src/Pager/MetaRoundTrip.antt =====
-- The meta page is read back as it was written, but for the repair of an old `next_internal_id`.
use nervusdb.Base.{ℕ, zero, suc, ◌-◌, ◌^◌, ◌<◌, ◌≡◌, refl, true, ◌&&◌, List, [], ◌∷◌, ◌++◌, arith}
use nervusdb.Base.{if◌then◌else◌, ltb, ◌==◌, ok}
use nervusdb.Base.Bytes.{Word, words, slice, le_bytes}
use nervusdb.Api.Edge.{bytes_eq}
use nervusdb.Api.Payload.{u32_at-words_tail, u64_at-words_tail}
use nervusdb.Base.Bytes.{slice-append}
use nervusdb.Error.{Error}
use nervusdb.Pager.Bitmap.{page_size, zeros}
use nervusdb.Pager.MetaPage.{Meta, file_magic, format_epoch, meta_words, encode_page, decode_page}

-- Numbers of their widths, and the page size and format of this code.
pub record IsMeta (m : Meta) : Type 0 where
  pub version_major_fits : m.version_major < 2 ^ 32
  pub version_minor_fits : m.version_minor < 2 ^ 32
  pub page_bytes_known : m.page_bytes ≡ page_size
  pub bitmap_page_id_fits : m.bitmap_page_id < 2 ^ 64
  pub next_page_id_fits : m.next_page_id < 2 ^ 64
  pub i2e_start_page_id_fits : m.i2e_start_page_id < 2 ^ 64
  pub i2e_len_fits : m.i2e_len < 2 ^ 64
  pub next_internal_id_fits : m.next_internal_id < 2 ^ 64
  pub index_catalog_root_fits : m.index_catalog_root < 2 ^ 64
  pub next_index_id_fits : m.next_index_id < 2 ^ 32
  pub format_known : m.storage_format_epoch ≡ format_epoch

-- A length without a next id is of an older file.
abbrev pub repair : Meta → Meta
repair m = record m {
  next_internal_id =
      if m.next_internal_id == 0 && ltb 0 m.i2e_len then m.i2e_len else m.next_internal_id;
}

abbrev all_words : Meta → List Word
all_words m =
    (8, 0x424453555652454E)
    ∷ (8, 0x3276)
    ∷ (4, m.version_major)
    ∷ (4, m.version_minor)
    ∷ (8, m.page_bytes)
    ∷ (8, m.bitmap_page_id)
    ∷ (8, m.next_page_id)
    ∷ (8, m.i2e_start_page_id)
    ∷ (8, m.i2e_len)
    ∷ (8, m.next_internal_id)
    ∷ (8, m.index_catalog_root)
    ∷ (4, m.next_index_id)
    ∷ (8, m.storage_format_epoch)
    ∷ []

encode_page-words : (m : Meta) → encode_page m ≡ words (all_words m) ++ zeros (page_size - 92)
unfolding encode_page words le_bytes
encode_page-words m = refl

abbrev first : ℕ → List Word → List Word
first zero ws = []
first (suc n) [] = []
first (suc n) (w ∷ ws) = w ∷ first n ws

abbrev skip : ℕ → List Word → List Word
skip zero ws = ws
skip (suc n) [] = []
skip (suc n) (w ∷ ws) = skip n ws

pub decode_page-encode_page : (m : Meta) → IsMeta m → decode_page (encode_page m) ≡ ok (repair m)
unfolding decode_page bytes_eq
decode_page-encode_page m h =
    let rest = zeros (page_size - 92) in
    let known_size : m.page_bytes < 2 ^ 64 = omega (arith, h.page_bytes_known) in
    let known_format : m.storage_format_epoch < 2 ^ 64 = omega (arith, h.format_known) in
    let magic : slice {E = Error} (encode_page m) 0 16 ≡ ok file_magic =
      unfold encode_page in
      slice-append [] file_magic (words (meta_words m) ++ rest) 0 16 refl refl in
    let size : (m.page_bytes == page_size) ≡ true = ground (arith, h.page_bytes_known) in
    let format : (m.storage_format_epoch == format_epoch) ≡ true = ground (arith, h.format_known) in
    rw magic (
      rw
        (
          encode_page-words m,
          u32_at-words_tail (first 2 (all_words m)) m.version_major (skip 3 (all_words m)) rest
              h.version_major_fits,
          u32_at-words_tail (first 3 (all_words m)) m.version_minor (skip 4 (all_words m)) rest
              h.version_minor_fits,
          u64_at-words_tail (first 4 (all_words m)) m.page_bytes (skip 5 (all_words m)) rest
              known_size,
          u64_at-words_tail (first 5 (all_words m)) m.bitmap_page_id (skip 6 (all_words m)) rest
              h.bitmap_page_id_fits,
          u64_at-words_tail (first 6 (all_words m)) m.next_page_id (skip 7 (all_words m)) rest
              h.next_page_id_fits,
          u64_at-words_tail (first 7 (all_words m)) m.i2e_start_page_id (skip 8 (all_words m)) rest
              h.i2e_start_page_id_fits,
          u64_at-words_tail (first 8 (all_words m)) m.i2e_len (skip 9 (all_words m)) rest
              h.i2e_len_fits,
          u64_at-words_tail (first 9 (all_words m)) m.next_internal_id (skip 10 (all_words m)) rest
              h.next_internal_id_fits,
          u64_at-words_tail (first 10 (all_words m)) m.index_catalog_root (skip 11 (all_words m))
              rest h.index_catalog_root_fits,
          u32_at-words_tail (first 11 (all_words m)) m.next_index_id (skip 12 (all_words m)) rest
              h.next_index_id_fits,
          u64_at-words_tail (first 12 (all_words m)) m.storage_format_epoch (skip 13 (all_words m))
              rest known_format,
        )
        (simp (size, format) refl))
