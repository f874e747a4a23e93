-- ===== src/Api/Edge.antt =====
-- `EdgeKey` of nervusdb-api/src/lib.rs, and the equality and order of the key types of the maps.
use nervusdb.Base.{ℕ, ◌≡◌, ◌↔◌, refl, Bool, true, false, ◌&&◌, ◌||◌, arith}
use nervusdb.Base.{List, [], ◌∷◌, ltb, ◌==◌, ==_iff}
use nervusdb.Base.OrdMap.{Key}

pub record EdgeKey : Type 0 where
  pub src : ℕ
  pub rel : ℕ
  pub dst : ℕ

-- `derive(PartialEq)`
abbrev pub edge_eq : EdgeKey → EdgeKey → Bool
edge_eq a b = a.src == b.src && a.rel == b.rel && a.dst == b.dst

-- `derive(PartialOrd)`: fields in declaration order
abbrev pub edge_lt : EdgeKey → EdgeKey → Bool
edge_lt a b =
    ltb a.src b.src || a.src == b.src && (ltb a.rel b.rel || a.rel == b.rel && ltb a.dst b.dst)

pub edge_eq_iff : (a b : EdgeKey) → (edge_eq a b ≡ true) ↔ (a ≡ b)
edge_eq_iff a b = ground arith

unfoldable pub bytes_eq : List ℕ → List ℕ → Bool
bytes_eq [] [] = true
bytes_eq (x ∷ xs) (y ∷ ys) = x == y && bytes_eq xs ys
bytes_eq _ _ = false

-- The lexicographic order of `Vec<u8>`, `[u8]` and `String`.
unfoldable pub bytes_lt : List ℕ → List ℕ → Bool
bytes_lt [] [] = false
bytes_lt [] (y ∷ ys) = true
bytes_lt (x ∷ xs) [] = false
bytes_lt (x ∷ xs) (y ∷ ys) = let rest = bytes_lt xs ys in ltb x y || x == y && rest

pub bytes_eq_iff : (a b : List ℕ) → (bytes_eq a b ≡ true) ↔ (a ≡ b)
unfolding bytes_eq
bytes_eq_iff [] [] = (λ h. refl, λ h. refl)
bytes_eq_iff [] (y ∷ ys) = (λ h. cc, λ h. cc)
bytes_eq_iff (x ∷ xs) [] = (λ h. cc, λ h. cc)
bytes_eq_iff (x ∷ xs) (y ∷ ys) = ground (arith, bytes_eq_iff xs ys)

pub bytes_lt_trans :
    (a b c : List ℕ) → bytes_lt a b ≡ true → bytes_lt b c ≡ true → bytes_lt a c ≡ true
unfolding bytes_lt
bytes_lt_trans [] b [] h k = absurd (no_less b k)
  where
    no_less : (b : List ℕ) → bytes_lt b [] ≡ true → ⊥
    no_less [] h = cc
    no_less (x ∷ xs) h = cc
bytes_lt_trans [] b (z ∷ zs) h k = refl
bytes_lt_trans (x ∷ xs) [] c h k = absurd (cc)
bytes_lt_trans (x ∷ xs) (y ∷ ys) [] h k = absurd (cc)
bytes_lt_trans (x ∷ xs) (y ∷ ys) (z ∷ zs) h k = ground (arith, bytes_lt_trans xs ys zs)

pub bytes_lt_total :
    (a b : List ℕ) → bytes_eq a b ≡ false → bytes_lt a b ≡ false → bytes_lt b a ≡ true
unfolding bytes_lt bytes_eq
bytes_lt_total [] [] h k = absurd (cc)
bytes_lt_total [] (y ∷ ys) h k = absurd (cc)
bytes_lt_total (x ∷ xs) [] h k = refl
bytes_lt_total (x ∷ xs) (y ∷ ys) h k = ground (arith, bytes_lt_total xs ys)

pub bytes_lt_apart : (a b : List ℕ) → bytes_lt a b ≡ true → bytes_eq a b ≡ false
unfolding bytes_lt bytes_eq
bytes_lt_apart [] [] h = absurd (cc)
bytes_lt_apart [] (y ∷ ys) h = refl
bytes_lt_apart (x ∷ xs) [] h = absurd (cc)
bytes_lt_apart (x ∷ xs) (y ∷ ys) h = ground (arith, bytes_lt_apart xs ys)

pub ltb_trans : (a b c : ℕ) → ltb a b ≡ true → ltb b c ≡ true → ltb a c ≡ true
ltb_trans a b c h k = ground arith

pub ltb_total : (a b : ℕ) → (a == b) ≡ false → ltb a b ≡ false → ltb b a ≡ true
ltb_total a b h k = ground arith

pub ltb_apart : (a b : ℕ) → ltb a b ≡ true → (a == b) ≡ false
ltb_apart a b h = ground arith

pub edge_lt_trans : (a b c : EdgeKey) → edge_lt a b ≡ true → edge_lt b c ≡ true → edge_lt a c ≡ true
edge_lt_trans a b c h k = ground arith

pub edge_lt_total : (a b : EdgeKey) → edge_eq a b ≡ false → edge_lt a b ≡ false → edge_lt b a ≡ true
edge_lt_total a b h k = ground arith

pub edge_lt_apart : (a b : EdgeKey) → edge_lt a b ≡ true → edge_eq a b ≡ false
edge_lt_apart a b h = ground arith

instance abbrev pub node_key : Key ℕ
node_key = record {
  eq = ◌==◌;
  lt = ltb;
  eq_iff = ==_iff;
  lt_trans = ltb_trans;
  lt_total = ltb_total;
  lt_apart = ltb_apart;
}

instance abbrev pub edge_key : Key EdgeKey
edge_key = record {
  eq = edge_eq;
  lt = edge_lt;
  eq_iff = edge_eq_iff;
  lt_trans = edge_lt_trans;
  lt_total = edge_lt_total;
  lt_apart = edge_lt_apart;
}

instance abbrev pub text_key : Key (List ℕ)
text_key = record {
  eq = bytes_eq;
  lt = bytes_lt;
  eq_iff = bytes_eq_iff;
  lt_trans = bytes_lt_trans;
  lt_total = bytes_lt_total;
  lt_apart = bytes_lt_apart;
}
