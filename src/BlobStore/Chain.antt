-- ===== src/BlobStore/Chain.antt =====
-- A byte string that is written as a chain of pages is read back, and no other page is touched.
use mathlib.Core.Logic.{◌≢◌}
use mathlib.Core.List.{append_assoc, append-nil}
use nervusdb.Base.{
  ℕ, zero, suc, ◌+◌, ◌-◌, ◌%◌, ◌^◌, ◌<◌, ◌≤◌, ◌≡◌, refl, ◌∙◌, true, false, some, List, [], ◌∷◌,
  ◌++◌, arith,
}
use nervusdb.Base.{leb, ◌==◌, length, ok, ◌>>=◌, All}
use nervusdb.Base.Bytes.{
  words, slice, from_le_bytes, le_bytes, slice-append, length-le_bytes, length-words,
  from_le_bytes-le_bytes,
}
use nervusdb.Api.Decode.{u64_at}
use nervusdb.Api.Payload.{u64_at-words_tail}
use nervusdb.Error.{Error}
use nervusdb.Pager.{Pager, read_page}
use nervusdb.Pager.Bitmap.{bitmap_bits, zeros}
use nervusdb.Pager.Pages.{Holds, read_page-Holds}
use nervusdb.BlobStore.{max_data, blob_page, read_link, read_direct}

-- The page that starts a chain, and 0 for none.
unfoldable pub first : List (ℕ × List ℕ) → ℕ
first [] = 0
first ((id, chunk) ∷ rest) = id

-- The pages of a chain with their bytes: each holds its bytes and the number of the next, and none comes
-- twice.
unfoldable pub Chain : Pager → List (ℕ × List ℕ) → Type 0
unfolding first
Chain p [] = Unit
Chain p ((id, chunk) ∷ rest) =
    (length chunk ≤ max_data)
    × (first rest < bitmap_bits)
    × Holds p id (blob_page (first rest) chunk)
    × All (λ l. l.0 ≢ id) rest
    × Chain p rest

unfoldable pub content : List (ℕ × List ℕ) → List ℕ
content [] = []
content ((id, chunk) ∷ rest) = chunk ++ content rest

-- The three fields of a page.
module _ (next : ℕ) (chunk : List ℕ) (short : length chunk ≤ max_data) where
  fields : List ℕ
  fields = words ((8, next) ∷ (2, length chunk % 2 ^ 16) ∷ [])

  pub next-blob_page : next < 2 ^ 64 → u64_at {E = Error} (blob_page next chunk) 0 ≡ ok next
  unfolding blob_page
  next-blob_page h =
      u64_at-words_tail [] next ((2, length chunk % 2 ^ 16) ∷ [])
        (chunk ++ zeros (max_data - length chunk)) h

  len-blob_page :
      slice {E = Error} (blob_page next chunk) 8 10 ≡ ok (le_bytes 2 (length chunk % 2 ^ 16))
  unfolding blob_page words
  len-blob_page =
      let rest = chunk ++ zeros (max_data - length chunk) in
      rw
        (
          append-nil (le_bytes 2 (length chunk % 2 ^ 16)),
          append_assoc (le_bytes 8 next) (le_bytes 2 (length chunk % 2 ^ 16)) rest,
        )
        (slice-append (le_bytes 8 next) (le_bytes 2 (length chunk % 2 ^ 16)) rest 8 10
          (length-le_bytes 8 next) (omega (arith, length-le_bytes 2 (length chunk % 2 ^ 16))))

  len_word : from_le_bytes (le_bytes 2 (length chunk % 2 ^ 16)) ≡ length chunk
  len_word = from_le_bytes-le_bytes 2 (length chunk % 2 ^ 16) (omega arith) ∙ omega arith

  bytes-blob_page : slice {E = Error} (blob_page next chunk) 10 (10 + length chunk) ≡ ok chunk
  unfolding blob_page fields
  bytes-blob_page =
      slice-append fields chunk (zeros (max_data - length chunk)) 10 (10 + length chunk)
        (length-words ((8, next) ∷ (2, length chunk % 2 ^ 16) ∷ [])) refl

pub next-Holds :
    (p : Pager) (id next : ℕ) (chunk : List ℕ)
    → length chunk ≤ max_data
    → next < bitmap_bits
    → Holds p id (blob_page next chunk)
    → (read_page p id >>= λ page. u64_at page 0) ≡ ok next
next-Holds p id next chunk short low h =
    rw (read_page-Holds p id (blob_page next chunk) h)
      (next-blob_page next chunk short (omega arith))

pub read_link-Holds :
    (p : Pager) (id next : ℕ) (chunk : List ℕ)
    → length chunk ≤ max_data
    → next < bitmap_bits
    → Holds p id (blob_page next chunk)
    → read_link p id ≡ ok (chunk, next)
unfolding read_link
read_link-Holds p id next chunk short low h =
    let fits : leb (length chunk) max_data ≡ true = ground arith in
    rw
      (
        read_page-Holds p id (blob_page next chunk) h,
        next-blob_page next chunk short (omega arith),
        len-blob_page next chunk short,
        len_word next chunk short,
        fits,
        bytes-blob_page next chunk short,
      )
      refl

pub read_direct-Chain :
    (links : List (ℕ × List ℕ)) (p : Pager) (fuel : ℕ)
    → length links ≤ fuel
    → Chain p links
    → read_direct fuel p (first links) ≡ some (ok (content links))
unfolding read_direct Chain first content
read_direct-Chain [] p zero h k = refl
read_direct-Chain [] p (suc fuel) h k = refl
read_direct-Chain ((id, chunk) ∷ rest) p zero h k = absurd (omega arith)
read_direct-Chain ((id, chunk) ∷ rest) p (suc fuel) h (short, low, here, apart, after) =
    let data_page : (id == 0) ≡ false = ground (arith, here.low) in
    rw (data_page, read_link-Holds p id (first rest) chunk short low here)
      (rw (read_direct-Chain rest p fuel (omega arith) after) refl)

-- Pages that hold something keep a chain.
abbrev pub Keeps : Pager → Pager → Type 0
Keeps p q = (other : ℕ) (bytes : List ℕ) → Holds p other bytes → Holds q other bytes

pub Chain-Keeps :
    (links : List (ℕ × List ℕ)) (p q : Pager) → Keeps p q → Chain p links → Chain q links
unfolding Chain
Chain-Keeps [] p q k c = c
Chain-Keeps ((id, chunk) ∷ rest) p q k (short, low, here, apart, after) =
    (short, low, k id (blob_page (first rest) chunk) here, apart, Chain-Keeps rest p q k after)
