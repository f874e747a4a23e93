-- ===== src/BlobStore/Deleted.antt =====
-- `delete` gives back the pages of a chain.
use mathlib.Core.Logic.{◌≢◌}
use nervusdb.Base.{ℕ, zero, suc, ◌<◌, ◌≤◌, ◌≡◌, refl, false, some, List, [], ◌∷◌, arith}
use nervusdb.Base.{if◌then◌else◌, ◌==◌, length, ok, All}
use nervusdb.Pager.{Pager}
use nervusdb.Pager.Bitmap.{get_bit}
use nervusdb.Pager.Reopen.{IsOpen}
use nervusdb.Pager.Pages.{Holds, read_page-Holds, free_page-Holds}
use nervusdb.BlobStore.{blob_page, write_direct, unlink, delete}
use nervusdb.BlobStore.Chain.{first, Chain, next-blob_page}
use nervusdb.BlobStore.Written.{on_chain, write_direct-Written}

-- A chain without the page that is freed.
apart-Chain :
    (links : List (ℕ × List ℕ)) (p q : Pager) (id : ℕ)
    → ((other : ℕ) (kept : List ℕ) → Holds p other kept → other ≢ id → Holds q other kept)
    → All (λ l. l.0 ≢ id) links
    → Chain p links
    → Chain q links
unfolding Chain
apart-Chain [] p q id k a c = c
apart-Chain ((i, chunk) ∷ rest) p q id k (ne, a) (short, low, here, apart, after) = (
  short,
  low,
  k i (blob_page (first rest) chunk) here ne,
  apart,
  apart-Chain rest p q id k a after,
)

delete-Chain :
    (links : List (ℕ × List ℕ)) (p : Pager) (fuel : ℕ)
    → length links ≤ fuel
    → IsOpen p
    → Chain p links
    → (q : Pager) × (delete fuel (first links) p ≡ some (ok q))
      × IsOpen q
      × ((i : ℕ) → get_bit q.bitmap i ≡ (if on_chain i links then false else get_bit p.bitmap i))
unfolding delete unlink Chain first on_chain
delete-Chain [] p zero h o c = (p, refl, o, λ i. refl)
delete-Chain [] p (suc fuel) h o c = (p, refl, o, λ i. refl)
delete-Chain ((id, chunk) ∷ rest) p zero h o c = absurd (omega arith)
delete-Chain ((id, chunk) ∷ rest) p (suc fuel) h o (short, low, here, apart, after) =
    let data_page : (id == 0) ≡ false = ground (arith, here.low) in
    let (r, freed, r_open, bits, kept) =
      free_page-Holds p id (blob_page (first rest) chunk) o here in
    let (q, done, q_open, all_bits) =
      delete-Chain rest r fuel (omega arith) r_open (apart-Chain rest p r id kept apart after) in
    (
      q,
      rw
          (
            data_page,
            read_page-Holds p id (blob_page (first rest) chunk) here,
            next-blob_page (first rest) chunk short (omega arith),
            freed,
          )
          done,
      q_open,
      λ i. ground (arith, all_bits i, bits i),
    )

-- Deleting what was just written succeeds, and leaves the pages allocated that were before.
pub delete-write_direct :
    (bytes : List ℕ) (p : Pager) (id : ℕ) (q : Pager) (fuel : ℕ)
    → IsOpen p
    → write_direct bytes p ≡ ok (id, q)
    → length bytes < fuel
    → (r : Pager) × (delete fuel id q ≡ some (ok r))
      × IsOpen r
      × ((i : ℕ) → get_bit r.bitmap i ≡ get_bit p.bitmap i)
delete-write_direct bytes p id q fuel h e enough =
    let (links, starts, count, text, w) = write_direct-Written bytes p id q h e in
    let (r, done, r_open, bits) = delete-Chain links q fuel (omega arith) w.opened w.chain in
    (r, rw starts at done, r_open, λ i. ground (arith, bits i, w.bits i, w.fresh i))
