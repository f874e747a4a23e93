-- ===== src/OrderedKey/Order.antt =====
-- The byte order of index keys is the order of what they encode.
use nervusdb.Base.{
  ℕ, zero, suc, ◌/◌, ◌^◌, ◌<◌, ◌≡◌, sym, ◌∙◌, false, ◌&&◌, ◌||◌, List, [], ◌∷◌, ◌++◌, arith,
}
use nervusdb.Base.{ltb, ◌==◌, All}
use nervusdb.Base.Bytes.{be_bytes, IsByte}
use nervusdb.Api.Edge.{bytes_eq, bytes_lt}
use native.Mathlib.Decide.{dec_lt}
use native.Mathlib.Nat.{pow-suc, div-div-eq-div-mul, div-lt_iff_lt-mul, div-add-mod'}
use nervusdb.OrderedKey.{stuff}

-- Whatever follows, the stuffed strings compare as the strings do, when these differ.
pub stuff_lt :
    (s t xs ys : List ℕ)
    → bytes_eq s t ≡ false
    → All IsByte s
    → All IsByte t
    → bytes_lt (stuff s ++ xs) (stuff t ++ ys) ≡ bytes_lt s t
unfolding stuff bytes_lt bytes_eq
stuff_lt [] [] xs ys d hs ht = cc
stuff_lt [] (b ∷ t) xs ys d hs ht = ground arith
stuff_lt (a ∷ s) [] xs ys d hs ht = ground arith
stuff_lt (a ∷ s) (b ∷ t) xs ys d hs ht = ground (arith, stuff_lt s t xs ys)

-- Equal strings leave the order to what follows.
pub stuff_same : (s xs ys : List ℕ) → bytes_lt (stuff s ++ xs) (stuff s ++ ys) ≡ bytes_lt xs ys
unfolding stuff bytes_lt
stuff_same [] xs ys = ground arith
stuff_same (b ∷ s) xs ys = ground (arith, stuff_same s xs ys)

div-lt : (u v p : ℕ) → 0 < p → u / p < v / p → u < v
div-lt u v p pos h =
    omega (arith, (div-lt_iff_lt-mul {k = p} {x = u} {y = v / p} pos).0 h, div-add-mod' v p)

pow-pos : (n : ℕ) → 0 < 256 ^ n
pow-pos zero = omega arith
pow-pos (suc n) = omega (arith, pow-suc 256 n, pow-pos n)

-- Numbers with the same high part compare as their low bytes, highest first; equal ones leave the order
-- to what follows.
pub be_bytes_lt :
    (n u v : ℕ) (xs ys : List ℕ)
    → u / 256 ^ n ≡ v / 256 ^ n
    → bytes_lt (be_bytes n u ++ xs) (be_bytes n v ++ ys) ≡ (ltb u v || (u == v && bytes_lt xs ys))
unfolding be_bytes bytes_lt
be_bytes_lt zero u v xs ys h = ground arith
be_bytes_lt (suc n) u v xs ys h =
    let p = 256 ^ n in
    let pos : 0 < p = pow-pos n in
    let high : u / p / 256 ≡ v / p / 256 =
      div-div-eq-div-mul u p 256 ∙ (rw pow-suc at h) ∙ sym (div-div-eq-div-mul v p 256) in
    elim (dec_lt (u / p) (v / p)) [
      | yes g ↦ let lt = div-lt u v p pos g in ground arith
      | no g ↦ elim (dec_lt (v / p) (u / p)) [
        | yes g' ↦ let lt = div-lt v u p pos g' in ground arith
        | no g' ↦
            let same : u / p ≡ v / p = omega arith in ground (arith, be_bytes_lt n u v xs ys same)
      ]
    ]
