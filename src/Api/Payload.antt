-- ===== src/Api/Payload.antt =====
-- Reading single words out of a payload that is written as a sequence of words.
use mathlib.Core.List.{append_assoc, append-nil}
use nervusdb.Base.{ℕ, ◌+◌, ◌^◌, ◌<◌, ◌≡◌, List, [], ◌∷◌, ◌++◌, length, length-append, arith, refl}
use nervusdb.Base.{ok}
use nervusdb.Base.Bytes.{Word, words, width, le_bytes, length-words, words-append}
use nervusdb.Api.Decode.{u32_at, u64_at}
use nervusdb.Api.Words.{u32_at-le_bytes, u64_at-le_bytes}

-- A word among others, and bytes behind them all.
around :
    (xs : List Word) (w v : ℕ) (ys : List Word) (tail : List ℕ)
    → words (xs ++ ((w, v) ∷ ys)) ++ tail ≡ words xs ++ (le_bytes w v ++ (words ys ++ tail))
unfolding words
around xs w v ys tail =
    rw
      (
        words-append xs ((w, v) ∷ ys),
        append_assoc (words xs) (le_bytes w v ++ words ys) tail,
        append_assoc (le_bytes w v) (words ys) tail,
      )
      refl

module _ {E : Type 0} (xs : List Word) (v : ℕ) (ys : List Word) where
  pub u32_at-words_tail :
      (tail : List ℕ)
      → v < 2 ^ 32
      → u32_at {E = E} (words (xs ++ ((4, v) ∷ ys)) ++ tail) (width xs) ≡ ok v
  u32_at-words_tail tail h =
      rw (around xs 4 v ys tail)
        (u32_at-le_bytes (words xs) (words ys ++ tail) (width xs) v (length-words xs) h)

  pub u64_at-words_tail :
      (tail : List ℕ)
      → v < 2 ^ 64
      → u64_at {E = E} (words (xs ++ ((8, v) ∷ ys)) ++ tail) (width xs) ≡ ok v
  u64_at-words_tail tail h =
      rw (around xs 8 v ys tail)
        (u64_at-le_bytes (words xs) (words ys ++ tail) (width xs) v (length-words xs) h)

  pub u32_at-words : v < 2 ^ 32 → u32_at {E = E} (words (xs ++ ((4, v) ∷ ys))) (width xs) ≡ ok v
  u32_at-words h = rw (append-nil (words (xs ++ ((4, v) ∷ ys)))) at (u32_at-words_tail [] h)

  pub u64_at-words : v < 2 ^ 64 → u64_at {E = E} (words (xs ++ ((8, v) ∷ ys))) (width xs) ≡ ok v
  u64_at-words h = rw (append-nil (words (xs ++ ((8, v) ∷ ys)))) at (u64_at-words_tail [] h)

pub length-words_tail :
    (ws : List Word) (tail : List ℕ) → length (words ws ++ tail) ≡ width ws + length tail
length-words_tail ws tail = omega (arith, length-append {0} (words ws) tail, length-words ws)
