-- ===== src/BlobStore/Written.antt =====
-- What `write_direct` leaves: a chain of pages that were free before, and every other page as it was.
use mathlib.Core.Logic.{◌≢◌}
use mathlib.Core.Path.{subst}
use nervusdb.Base.{
  ℕ, zero, suc, ◌<◌, ◌≤◌, ◌≡◌, refl, ap, sym, ◌∙◌, Bool, true, false, ◌||◌, some, List, [], ◌∷◌,
  ◌++◌, arith,
}
use nervusdb.Base.{
  ◌==◌, length, drop, take-drop, length-take, length-drop, ok, ◌>>=◌, >>=-eq-ok, All,
}
use nervusdb.Base.Bytes.{words, le_bytes}
use nervusdb.Pager.{Pager, allocate_page, write_page}
use nervusdb.Pager.Bitmap.{page_size, bitmap_bits, get_bit, zeros}
use nervusdb.Pager.Reopen.{IsOpen}
use nervusdb.Pager.Pages.{
  Holds, allocate_page-Holds, allocate_page-get_bit, write_page-Holds, written,
}
use nervusdb.BlobStore.{max_data, chunks, blob_page, write_chain, write_direct, read_direct}
use nervusdb.BlobStore.Chain.{first, Chain, content, Keeps, Chain-Keeps, read_direct-Chain}

-- Is the page one of the chain?
unfoldable pub on_chain : ℕ → List (ℕ × List ℕ) → Bool
on_chain i [] = false
on_chain i ((id, chunk) ∷ rest) = id == i || on_chain i rest

unfoldable pub joined : List (List ℕ) → List ℕ
joined [] = []
joined (c ∷ cs) = c ++ joined cs

-- A chain of these pages was added.
pub record Written (p q : Pager) (links : List (ℕ × List ℕ)) : Type 0 where
  pub opened : IsOpen q
  pub low : first links < bitmap_bits
  pub chain : Chain q links
  pub keeps : Keeps p q
  pub bits : (i : ℕ) → get_bit q.bitmap i ≡ (on_chain i links || get_bit p.bitmap i)
  pub fresh : (i : ℕ) → on_chain i links ≡ true → get_bit p.bitmap i ≡ false

apart_links-Chain :
    (links : List (ℕ × List ℕ)) (p : Pager) (id : ℕ)
    → ((other : ℕ) (bytes : List ℕ) → Holds p other bytes → other ≢ id)
    → Chain p links
    → All (λ l. l.0 ≢ id) links
unfolding Chain
apart_links-Chain [] p id h c = c
apart_links-Chain ((i, chunk) ∷ rest) p id h (short, low, here, apart, after) =
    (h i (blob_page (first rest) chunk) here, apart_links-Chain rest p id h after)

-- One page more in front.
prepend_page :
    (p r s q : Pager) (links : List (ℕ × List ℕ)) (id : ℕ) (chunk : List ℕ)
    → length chunk ≤ max_data
    → Written p r links
    → allocate_page r ≡ ok (id, s)
    → write_page id (blob_page (first links) chunk) s ≡ ok q
    → Written p q ((id, chunk) ∷ links)
unfolding first Chain on_chain
prepend_page p r s q links id chunk short w e f =
    let (s_open, was_free, here, others) = allocate_page-Holds r id s w.opened e in
    let t : Pager = written id (blob_page (first links) chunk) s in
    let (f', t_open, held, kept) =
      write_page-Holds s id (s.disk.page id) (blob_page (first links) chunk) s_open here in
    let same : t ≡ q = cc in
    let r_keeps : Keeps r t =
      λ other bytes k. kept other bytes ((others other bytes k).1) ((others other bytes k).0) in
    subst (λ x. Written p x ((id, chunk) ∷ links)) same
      (record {
        opened = t_open;
        low = here.high;
        chain = (
          short,
          w.low,
          held,
          apart_links-Chain links r id (λ other bytes k. (others other bytes k).0) w.chain,
          Chain-Keeps links r t r_keeps w.chain,
        );
        keeps = λ other bytes k. r_keeps other bytes (w.keeps other bytes k);
        bits = λ i. ground (arith, allocate_page-get_bit r id s i w.opened e, w.bits i);
        fresh = λ i on. ground (arith, w.bits i, was_free, w.fresh i, on);
      })

no_pages : (p : Pager) → IsOpen p → Written p p []
unfolding first Chain on_chain
no_pages p h = record {
  opened = h;
  low = omega arith;
  chain = tt;
  keeps = λ other bytes k. k;
  bits = λ i. refl;
  fresh = λ i on. absurd (cc);
}

pub write_chain-Written :
    (cs : List (List ℕ)) (p : Pager) (id : ℕ) (q : Pager)
    → All (λ c. length c ≤ max_data) cs
    → IsOpen p
    → write_chain cs p ≡ ok (id, q)
    → (links : List (ℕ × List ℕ)) × (first links ≡ id)
      × (length links ≡ length cs)
      × (content links ≡ joined cs)
      × Written p q links
unfolding write_chain first content joined
write_chain-Written [] p id q short h e =
    let pair : (0, p) ≡ (id, q) = cc in
    let same : p ≡ q = ap (λ (x : ℕ × Pager). x.1) {x = (0, p)} {y = (id, q)} pair in
    (
      [],
      ap (λ (x : ℕ × Pager). x.0) pair,
      refl,
      refl,
      subst (λ r. Written p r []) same (no_pages p h),
    )
write_chain-Written (c ∷ cs) p id q short h e =
    let (after, e₁, f₁) =
      >>=-eq-ok (write_chain cs p)
        (λ after. allocate_page (after.1) >>= λ fresh.
          write_page (fresh.0) (blob_page (after.0) c) (fresh.1) >>= λ t. ok (fresh.0, t))
        e in
    let (fresh, e₂, f₂) =
      >>=-eq-ok (allocate_page (after.1))
        (λ fresh. write_page (fresh.0) (blob_page (after.0) c) (fresh.1) >>= λ t. ok (fresh.0, t))
        f₁ in
    let (t, e₃, f₃) =
      >>=-eq-ok (write_page (fresh.0) (blob_page (after.0) c) (fresh.1)) (λ t. ok (fresh.0, t))
        f₂ in
    let pair : (fresh.0, t) ≡ (id, q) = cc in
    let same : t ≡ q = ap (λ (x : ℕ × Pager). x.1) {x = (fresh.0, t)} {y = (id, q)} pair in
    let (links, starts, count, text, w) = write_chain-Written cs p after.0 after.1 short.1 h e₁ in
    let wrote : write_page (fresh.0) (blob_page (first links) c) (fresh.1) ≡ ok t = rw starts e₃ in
    (
      (fresh.0, c) ∷ links,
      ap (λ (x : ℕ × Pager). x.0) {x = (fresh.0, t)} {y = (id, q)} pair,
      ap suc count,
      ap (λ d. c ++ d) text,
      subst (λ r. Written p r ((fresh.0, c) ∷ links)) same
          (prepend_page p after.1 fresh.1 t links fresh.0 c short.0 w e₂ wrote),
    )

-- The chunks of a byte string are short, are no more than its bytes, and give it again.
chunks-joined :
    (n fuel : ℕ) (bytes : List ℕ) → length bytes ≤ fuel → joined (chunks (suc n) fuel bytes) ≡ bytes
unfolding chunks joined
chunks-joined n zero [] h = refl
chunks-joined n zero (b ∷ bs) h = absurd (omega arith)
chunks-joined n (suc fuel) [] h = refl
chunks-joined n (suc fuel) (b ∷ bs) h =
    rw (chunks-joined n fuel (drop n bs) (omega (arith, length-drop n bs)))
      (ap (λ t. b ∷ t) (take-drop n bs))

chunks-short : (n fuel : ℕ) (bytes : List ℕ) → All (λ c. length c ≤ n) (chunks n fuel bytes)
unfolding chunks
chunks-short n zero bytes = tt
chunks-short n (suc fuel) [] = tt
chunks-short n (suc fuel) (b ∷ bs) = (length-take n (b ∷ bs), chunks-short n fuel (drop n (b ∷ bs)))

chunks-count :
    (n fuel : ℕ) (bytes : List ℕ)
    → length bytes ≤ fuel
    → length (chunks (suc n) fuel bytes) ≤ length bytes
unfolding chunks
chunks-count n zero [] h = omega arith
chunks-count n zero (b ∷ bs) h = absurd (omega arith)
chunks-count n (suc fuel) [] h = omega arith
chunks-count n (suc fuel) (b ∷ bs) h =
    omega
      (arith, length-drop n bs, chunks-count n fuel (drop n bs) (omega (arith, length-drop n bs)))

zeros-append :
    (n : ℕ)
    → words ((8, 0) ∷ (2, 0) ∷ []) ++ zeros n
      ≡ zeros (suc (suc (suc (suc (suc (suc (suc (suc (suc (suc n))))))))))
unfolding words zeros le_bytes
zeros-append n = refl

empty_page : blob_page 0 [] ≡ zeros page_size
unfolding blob_page
empty_page = zeros-append max_data

write_direct-nil : (p : Pager) → write_direct [] p ≡ write_chain ([] ∷ []) p
unfolding write_direct write_chain
write_direct-nil p = rw empty_page refl

pub write_direct-Written :
    (bytes : List ℕ) (p : Pager) (id : ℕ) (q : Pager)
    → IsOpen p
    → write_direct bytes p ≡ ok (id, q)
    → (links : List (ℕ × List ℕ)) × (first links ≡ id)
      × (length links ≤ suc (length bytes))
      × (content links ≡ bytes)
      × Written p q links
unfolding write_direct joined
write_direct-Written [] p id q h e =
    let (links, starts, count, text, w) =
      write_chain-Written ([] ∷ []) p id q (omega arith, tt) h (sym (write_direct-nil p) ∙ e) in
    (links, starts, omega (arith, count), text, w)
write_direct-Written (b ∷ bs) p id q h e =
    let cs = chunks max_data (length (b ∷ bs)) (b ∷ bs) in
    let (links, starts, count, text, w) =
      write_chain-Written cs p id q (chunks-short max_data (length (b ∷ bs)) (b ∷ bs)) h e in
    (
      links,
      starts,
      omega (arith, count, chunks-count 8181 (length (b ∷ bs)) (b ∷ bs) (omega arith)),
      text ∙ chunks-joined 8181 (length (b ∷ bs)) (b ∷ bs) (omega arith),
      w,
    )

-- Bytes that are written to a pager in step with its file are read back from the page that is returned,
-- with a round for each page; the pager stays in step, and what other pages held they hold.
pub read_direct-write_direct :
    (bytes : List ℕ) (p : Pager) (id : ℕ) (q : Pager) (fuel : ℕ)
    → IsOpen p
    → write_direct bytes p ≡ ok (id, q)
    → length bytes < fuel
    → (read_direct fuel q id ≡ some (ok bytes))
      × IsOpen q
      × ((other : ℕ) (kept : List ℕ) → Holds p other kept → Holds q other kept)
read_direct-write_direct bytes p id q fuel h e enough =
    let (links, starts, count, text, w) = write_direct-Written bytes p id q h e in
    (
      rw (← starts)
          (read_direct-Chain links q fuel (omega arith) w.chain ∙ ap (λ t. some (ok t)) text),
      w.opened,
      w.keeps,
    )
