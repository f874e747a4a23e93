-- ===== src/Pager/Bytes.antt =====
-- `read_page_raw`, `write_page_raw`, `read_exact_at` and `write_all_at` of nervusdb-storage/src/pager.rs over
-- the bytes of the file. `read_at` and `write_at` of the system may transfer fewer bytes than they are asked
-- for; how many is the parameter `granted` of the position and the number asked for.
-- A position does not saturate: it is below the size of the bitmap's pages, far under 2^64.
pub mod Transfers
use nervusdb.Base.{
  ℕ, zero, suc, ◌+◌, ◌-◌, ◌*◌, ◌<◌, ◌≤◌, ◌≡◌, refl, sym, ap, ◌∙◌, true, false, inl, inr, List, [],
  ◌∷◌, ◌++◌, arith, Option, none, some, ◌||◌, ◌&&◌,
}
use nervusdb.Base.{
  if◌then◌else◌, ltb, leb, ◌==◌, length, take, drop, get_elem?, Bool-cases, ok, err, panic,
  is_empty, ◌>>=◌, length-append, take-drop, length-drop, ◌⊎◌, ◌≢◌,
}
use nervusdb.Error.{Storage, io}
use nervusdb.Pager.Bitmap.{page_size}

pub record File : Type 0 where
  pub len : ℕ
  pub byte : ℕ → ℕ

-- The byte at a position of a buffer that stands at `offset`, else another
unfoldable pub overlaid : ℕ → List ℕ → (ℕ → ℕ) → ℕ → ℕ
overlaid offset [] under i = under i
overlaid offset (b ∷ bs) under i = if i == offset then b else overlaid (offset + 1) bs under i

-- `file.write_at(buf, offset)`, of which `n` bytes are taken
unfoldable pub write_at : File → ℕ → List ℕ → File
unfolding overlaid
write_at file offset taken = record {
  len = if ltb file.len (offset + length taken) then offset + length taken else file.len;
  byte = overlaid offset taken file.byte;
}

-- The bytes of a stretch of the file
unfoldable pub bytes_at : File → ℕ → ℕ → List ℕ
bytes_at file offset zero = []
bytes_at file offset (suc n) = file.byte offset ∷ bytes_at file (offset + 1) n

module _ (granted : ℕ → ℕ → ℕ) where
  -- `read_at`: what is there, at most what the system grants
  unfoldable pub read_at : File → ℕ → ℕ → List ℕ
  unfolding bytes_at
  read_at file offset wanted =
      let n = granted offset wanted in
      let there = file.len - offset in bytes_at file offset (if ltb n there then n else there)

  -- The loop, with the number of bytes that are wanted as fuel
  unfoldable pub read_exact_at : ℕ → File → ℕ → ℕ → Storage (List ℕ)
  unfolding read_at
  read_exact_at fuel file offset zero = ok []
  read_exact_at zero file offset (suc wanted) = panic
  read_exact_at (suc fuel) file offset (suc wanted) =
      let found = read_at file offset (suc wanted) in
      let rest = read_exact_at fuel file (offset + length found) (suc wanted - length found) in
      if is_empty found then err io else (rest >>= λ bytes. ok (found ++ bytes))

  unfoldable pub write_all_at : ℕ → File → ℕ → List ℕ → Storage File
  unfolding write_at
  write_all_at fuel file offset [] = ok file
  write_all_at zero file offset (b ∷ bs) = panic
  write_all_at (suc fuel) file offset (b ∷ bs) =
      let n = granted offset (length (b ∷ bs)) in
      elim n [
        | zero ↦ err io
        | suc m ↦
            write_all_at fuel (write_at file offset (take (suc m) (b ∷ bs))) (offset + suc m)
              (drop (suc m) (b ∷ bs))
      ]

  unfoldable pub read_page_bytes : File → ℕ → Storage (List ℕ)
  unfolding read_exact_at
  read_page_bytes file id = read_exact_at page_size file (id * page_size) page_size

  unfoldable pub write_page_bytes : File → ℕ → List ℕ → Storage File
  unfolding write_all_at
  write_page_bytes file id buf = write_all_at page_size file (id * page_size) buf

pub bytes_at-append :
    (file : File) (offset m n : ℕ)
    → bytes_at file offset (m + n) ≡ bytes_at file offset m ++ bytes_at file (offset + m) n
unfolding bytes_at
bytes_at-append file offset zero n =
    let a : offset + 0 ≡ offset = omega arith in let b : 0 + n ≡ n = omega arith in rw (a, b) refl
bytes_at-append file offset (suc m) n =
    let a : suc m + n ≡ suc (m + n) = omega arith in
    let b : offset + suc m ≡ offset + 1 + m = omega arith in
    rw (a, b) (ap (λ l. file.byte offset ∷ l) (bytes_at-append file (offset + 1) m n))

pub length-bytes_at : (file : File) (offset n : ℕ) → length (bytes_at file offset n) ≡ n
unfolding bytes_at
length-bytes_at file offset zero = refl
length-bytes_at file offset (suc n) = ground (arith, length-bytes_at file (offset + 1) n)

pub overlaid-before :
    (offset : ℕ) (bs : List ℕ) (under : ℕ → ℕ) (i : ℕ)
    → i < offset
    → overlaid offset bs under i ≡ under i
unfolding overlaid
overlaid-before offset [] under i h = refl
overlaid-before offset (b ∷ bs) under i h =
    let no : (i == offset) ≡ false = ground (arith, h) in
    rw no (overlaid-before (offset + 1) bs under i (omega (arith, h)))

pub overlaid-behind :
    (offset : ℕ) (bs : List ℕ) (under : ℕ → ℕ) (i : ℕ)
    → offset + length bs ≤ i
    → overlaid offset bs under i ≡ under i
unfolding overlaid
overlaid-behind offset [] under i h = refl
overlaid-behind offset (b ∷ bs) under i h =
    let no : (i == offset) ≡ false = ground (arith, h) in
    rw no (overlaid-behind (offset + 1) bs under i (omega (arith, h)))

overlaid-cong :
    (offset : ℕ) (bs : List ℕ) (u v : ℕ → ℕ) (i : ℕ)
    → u i ≡ v i
    → overlaid offset bs u i ≡ overlaid offset bs v i
unfolding overlaid
overlaid-cong offset [] u v i h = h
overlaid-cong offset (b ∷ bs) u v i h =
    ap (λ r. if i == offset then b else r) (overlaid-cong (offset + 1) bs u v i h)

pub overlaid-append :
    (xs ys : List ℕ) (offset : ℕ) (under : ℕ → ℕ) (i : ℕ)
    → overlaid (offset + length xs) ys (overlaid offset xs under) i
      ≡ overlaid offset (xs ++ ys) under i
unfolding overlaid
overlaid-append [] ys offset under i = let a : offset + 0 ≡ offset = omega arith in rw a refl
overlaid-append (x ∷ xs) ys offset under i =
    let a : offset + length (x ∷ xs) ≡ offset + 1 + length xs = omega arith in
    elim (Bool-cases (i == offset)) [
      | inl e ↦
          let low : i < offset + length (x ∷ xs) = ground (arith, e) in
          rw e (
            overlaid-before (offset + length (x ∷ xs)) ys (overlaid offset (x ∷ xs) under) i low
            ∙ rw (e, overlaid) refl)
      | inr e ↦
          let here : overlaid offset (x ∷ xs) under i ≡ overlaid (offset + 1) xs under i =
            rw (e, overlaid) refl in
          rw e (
            ap (λ k. overlaid k ys (overlaid offset (x ∷ xs) under) i) a
            ∙ (overlaid-cong (offset + 1 + length xs) ys (overlaid offset (x ∷ xs) under)
                  (overlaid (offset + 1) xs under) i here
                ∙ overlaid-append xs ys (offset + 1) under i))
    ]

-- A stretch of the file that has been overlaid by a buffer
pub bytes_at-overlaid :
    (file : File) (offset : ℕ) (bs : List ℕ) (under : ℕ → ℕ)
    → ((i : ℕ) → offset ≤ i → file.byte i ≡ overlaid offset bs under i)
    → bytes_at file offset (length bs) ≡ bs
unfolding bytes_at overlaid
bytes_at-overlaid file offset [] under h = refl
bytes_at-overlaid file offset (b ∷ bs) under h =
    let yes_ : (offset == offset) ≡ true = ground arith in
    let first : file.byte offset ≡ b = h offset (omega arith) ∙ rw (yes_, overlaid) refl in
    let later : (i : ℕ) → offset + 1 ≤ i → file.byte i ≡ overlaid (offset + 1) bs under i = (λ i le.
      h i (omega (arith, le)) ∙ rest_of b (overlaid (offset + 1) bs under i) i offset le) in
    rw first (ap (λ l. b ∷ l) (bytes_at-overlaid file (offset + 1) bs under later))
  where
    rest_of : (b r i o : ℕ) → o + 1 ≤ i → (if i == o then b else r) ≡ r
    rest_of b r i o h = ground (arith, h)

-- A stretch that two files have alike
pub bytes_at-same :
    (f g : File) (n offset : ℕ)
    → ((i : ℕ) → offset ≤ i → i < offset + n → f.byte i ≡ g.byte i)
    → bytes_at f offset n ≡ bytes_at g offset n
unfolding bytes_at
bytes_at-same f g zero offset h = refl
bytes_at-same f g (suc n) offset h = rw (h offset (omega arith) (omega arith)) (
    ap (λ l. g.byte offset ∷ l)
      (bytes_at-same f g n (offset + 1) (λ i a b. h i (omega (arith, a)) (omega (arith, b)))))
