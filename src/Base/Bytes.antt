-- ===== src/Base/Bytes.antt =====
-- Byte strings as lists of numbers below 256: `to_le_bytes`, `from_le_bytes`, `to_be_bytes`, and the
-- slices `bytes[a..b]`, which panic out of range.
use native.Mathlib.Nat.{pow-suc}
use nervusdb.Base.Tests.{if◌then◌else◌, leb}
use nervusdb.Base.Lists.{length, take, drop, All, length-append, take-append, drop-append}
use nervusdb.Base.Calls.{Outcome, ok, panic}
use Prim.Native.Nat.add
use Prim.Native.Nat.{ℕ, zero, suc, ◌+◌, ◌-◌, ◌*◌, ◌/◌, ◌%◌, ◌^◌, ◌<◌}
use mathlib.Core.Path.{◌≡◌, refl, ap, sym}
use mathlib.Core.Bool.{true}
use mathlib.Core.List.{List, [], ◌∷◌, ◌++◌, append_assoc}
use native.Mathlib.Omega.{arith}

abbrev pub IsByte : ℕ → Type 0
IsByte b = b < 256

-- The low `n` bytes of `v`, lowest first.
unfoldable pub le_bytes : ℕ → ℕ → List ℕ
le_bytes zero v = []
le_bytes (suc n) v = (v % 256) ∷ le_bytes n (v / 256)

unfoldable pub from_le_bytes : List ℕ → ℕ
from_le_bytes [] = 0
from_le_bytes (b ∷ bs) = b + 256 * from_le_bytes bs

-- A word: its width in bytes, and its value.
abbrev pub Word : Type 0
Word = ℕ × ℕ

-- Words written one behind the other, each lowest byte first.
unfoldable pub words : List Word → List ℕ
unfolding le_bytes
words [] = []
words ((w, v) ∷ ws) = le_bytes w v ++ words ws

abbrev pub width : List Word → ℕ
width [] = 0
width ((w, v) ∷ ws) = w + width ws

-- The low `n` bytes of `v`, highest first.
unfoldable pub be_bytes : ℕ → ℕ → List ℕ
be_bytes zero v = []
be_bytes (suc n) v = (v / 256 ^ n % 256) ∷ be_bytes n v

unfoldable pub slice : {E : Type 0} → List ℕ → ℕ → ℕ → Outcome E (List ℕ)
slice bytes a b = if leb b (length bytes) then ok (take (b - a) (drop a bytes)) else panic

pub length-le_bytes : (n v : ℕ) → length (le_bytes n v) ≡ n
unfolding le_bytes
length-le_bytes zero v = refl
length-le_bytes (suc n) v = ap suc (length-le_bytes n (v / 256))

pub le_bytes-IsByte : (n v : ℕ) → All IsByte (le_bytes n v)
unfolding le_bytes
le_bytes-IsByte zero v = tt
le_bytes-IsByte (suc n) v = (omega arith, le_bytes-IsByte n (v / 256))

pub from_le_bytes-le_bytes : (n v : ℕ) → v < 256 ^ n → from_le_bytes (le_bytes n v) ≡ v
unfolding le_bytes from_le_bytes
from_le_bytes-le_bytes zero v h = omega arith
from_le_bytes-le_bytes (suc n) v h =
    omega (arith, pow-suc 256 n, from_le_bytes-le_bytes n (v / 256) (omega (arith, pow-suc 256 n)))

module _ {ℓ} {A : Type ℓ} where
  -- A slice that begins behind `xs` is a slice of what follows.
  pub drop-append_ge :
      (xs ys : List A) (n k : ℕ) → length xs ≡ n → drop (n + k) (xs ++ ys) ≡ drop k ys
  drop-append_ge [] ys n k e = rw (← e, add.zero) refl
  drop-append_ge (x ∷ xs) ys n k e = rw (← e, add.suc) (drop-append_ge xs ys (length xs) k refl)

-- The slice that is written in the middle is read back.
pub slice-append :
    {E : Type 0} (pre mid post : List ℕ) (a b : ℕ)
    → length pre ≡ a
    → a + length mid ≡ b
    → slice {E = E} (pre ++ (mid ++ post)) a b ≡ ok mid
unfolding slice
slice-append {E} pre mid post a b ea eb =
    let fits : leb b (length (pre ++ (mid ++ post))) ≡ true =
      ground (arith, length-append pre (mid ++ post), length-append mid post) in
    let width : b - a ≡ length mid = omega arith in
    rw (fits, width, ← ea, drop-append pre (mid ++ post), take-append mid post) refl

pub length-words : (ws : List Word) → length (words ws) ≡ width ws
unfolding words
length-words [] = refl
length-words ((w, v) ∷ ws) =
    omega (arith, length-append {0} (le_bytes w v) (words ws), length-le_bytes w v, length-words ws)

pub words-append : (xs ys : List Word) → words (xs ++ ys) ≡ words xs ++ words ys
unfolding words
words-append [] ys = refl
words-append ((w, v) ∷ xs) ys =
    rw (words-append xs ys) (sym (append_assoc (le_bytes w v) (words xs) (words ys)))
