-- ===== src/IdMap/Splice.antt =====
-- Bytes that are written into a page, and the bytes beside them.
use nervusdb.Base.{
  ℕ, zero, suc, ◌+◌, ◌-◌, ◌≤◌, ◌≡◌, ◌⊎◌, inl, inr, refl, ap, ◌∙◌, List, [], ◌∷◌, ◌++◌, arith,
}
use nervusdb.Base.{length, length-append, take, drop, length-drop, drop-append_past, ok}
use nervusdb.Base.Bytes.{slice, slice-append}
use nervusdb.Error.{Error}
use nervusdb.IdMap.{splice}

module _ {ℓ} {A : Type ℓ} where
  length-take_le : (n : ℕ) (xs : List A) → n ≤ length xs → length (take n xs) ≡ n
  length-take_le zero xs h = refl
  length-take_le (suc n) [] h = absurd (omega arith)
  length-take_le (suc n) (x ∷ xs) h = ap suc (length-take_le n xs (omega arith))

  drop-take_append :
      (o a k : ℕ) (xs ys : List A)
      → a ≡ o + k
      → o ≤ length xs
      → drop a (take o xs ++ ys) ≡ drop k ys
  drop-take_append zero a k xs ys e h = ap (λ n. drop n ys) (omega arith)
  drop-take_append (suc o) a k [] ys e h = absurd (omega arith)
  drop-take_append (suc o) zero k (x ∷ xs) ys e h = absurd (omega arith)
  drop-take_append (suc o) (suc a) k (x ∷ xs) ys e h =
      drop-take_append o a k xs ys (omega arith) (omega arith)

  drop-drop : (a b c : ℕ) (xs : List A) → c ≡ b + a → drop a (drop b xs) ≡ drop c xs
  drop-drop a zero c xs e = ap (λ n. drop n xs) (omega arith)
  drop-drop zero (suc b) zero [] e = refl
  drop-drop zero (suc b) (suc c) [] e = refl
  drop-drop (suc a) (suc b) zero [] e = refl
  drop-drop (suc a) (suc b) (suc c) [] e = refl
  drop-drop a (suc b) zero (x ∷ xs) e = absurd (omega arith)
  drop-drop a (suc b) (suc c) (x ∷ xs) e = drop-drop a b c xs (omega arith)

  -- A window in front of the cut.
  window_before :
      (n a o : ℕ) (xs ys : List A)
      → a + n ≤ o
      → o ≤ length xs
      → take n (drop a (take o xs ++ ys)) ≡ take n (drop a xs)
  window_before zero a o xs ys h k = refl
  window_before (suc n) a zero xs ys h k = absurd (omega arith)
  window_before (suc n) a (suc o) [] ys h k = absurd (omega arith)
  window_before (suc n) zero (suc o) (x ∷ xs) ys h k =
      ap (λ t. x ∷ t) (window_before n zero o xs ys (omega arith) (omega arith))
  window_before (suc n) (suc a) (suc o) (x ∷ xs) ys h k =
      window_before (suc n) a o xs ys (omega arith) (omega arith)

module _ (page bytes : List ℕ) (o : ℕ) (fits : o + length bytes ≤ length page) where
  pub length-splice : length (splice page o bytes) ≡ length page
  unfolding splice
  length-splice = omega (
    arith,
    length-append (take o page) (bytes ++ drop (o + length bytes) page),
    length-append bytes (drop (o + length bytes) page),
    length-take_le o page (omega arith),
    length-drop (o + length bytes) page,
  )

  -- What was written is there.
  pub slice-splice : slice {E = Error} (splice page o bytes) o (o + length bytes) ≡ ok bytes
  unfolding splice
  slice-splice =
      slice-append (take o page) bytes (drop (o + length bytes) page) o (o + length bytes)
        (length-take_le o page (omega arith)) refl

  -- Bytes beside it are as they were.
  pub slice-splice_apart :
      (a b : ℕ)
      → a ≤ b
      → (b ≤ o) ⊎ (o + length bytes ≤ a)
      → slice {E = Error} (splice page o bytes) a b ≡ slice page a b
  slice-splice_apart a b le (inl before) =
      let same : take (b - a) (drop a (splice page o bytes)) ≡ take (b - a) (drop a page) =
        unfold splice in
        window_before (b - a) a o page (bytes ++ drop (o + length bytes) page) (omega arith)
          (omega arith) in
      unfold slice in rw (length-splice, same) refl
  slice-splice_apart a b le (inr after) =
      let tail = drop (o + length bytes) page in
      let rest = a - o - length bytes in
      let same : drop a (splice page o bytes) ≡ drop a page =
        unfold splice in
        drop-take_append o a (a - o) page (bytes ++ tail) (omega arith) (omega arith)
        ∙ (drop-append_past (a - o) rest bytes tail (omega arith)
            ∙ drop-drop rest (o + length bytes) a page (omega arith)) in
      unfold slice in rw (length-splice, same) refl
