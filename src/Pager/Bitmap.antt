-- ===== src/Pager/Bitmap.antt =====
-- `Bitmap` of nervusdb-storage/src/pager.rs: a bit for each page, in 8192 bytes.
use nervusdb.Base.{
  ℕ, zero, suc, ◌+◌, ◌-◌, ◌*◌, ◌/◌, ◌%◌, ◌<◌, ◌≤◌, ◌≡◌, refl, ap, ◌∙◌, Bool, true, false, ◌||◌,
  Option, none, some, List, [], ◌∷◌, arith,
}
use nervusdb.Base.{if◌then◌else◌, leb, ◌==◌, length}

abbrev pub page_size : ℕ
page_size = 8192

abbrev pub bitmap_bits : ℕ
bitmap_bits = page_size * 8

-- `byte & (1 << i) != 0`
unfoldable pub byte_bit : ℕ → ℕ → Bool
byte_bit b zero = b % 2 == 1
byte_bit b (suc i) = byte_bit (b / 2) i

-- `byte |= 1 << i`, `byte &= !(1 << i)`
unfoldable pub set_byte_bit : ℕ → ℕ → Bool → ℕ
set_byte_bit b zero v = 2 * (b / 2) + (if v then 1 else 0)
set_byte_bit b (suc i) v = b % 2 + 2 * set_byte_bit (b / 2) i v

-- `data[i]`, and `data[i] = ..` through a function. An index out of range panics in the source; here
-- it reads 0 and writes nothing. A page number below `bitmap_bits` is in range.
unfoldable pub byte_at : List ℕ → ℕ → ℕ
byte_at [] i = 0
byte_at (b ∷ bs) zero = b
byte_at (b ∷ bs) (suc i) = byte_at bs i

unfoldable pub set_byte : List ℕ → ℕ → ℕ → List ℕ
set_byte [] i v = []
set_byte (b ∷ bs) zero v = v ∷ bs
set_byte (b ∷ bs) (suc i) v = b ∷ set_byte bs i v

unfoldable pub get_bit : List ℕ → ℕ → Bool
unfolding byte_bit byte_at
get_bit bits n = byte_bit (byte_at bits (n / 8)) (n % 8)

unfoldable pub set_bit : List ℕ → ℕ → Bool → List ℕ
unfolding set_byte_bit set_byte byte_at
set_bit bits n v = set_byte bits (n / 8) (set_byte_bit (byte_at bits (n / 8)) (n % 8) v)

unfoldable pub zeros : ℕ → List ℕ
zeros zero = []
zeros (suc n) = 0 ∷ zeros n

unfoldable pub new_bitmap : List ℕ
unfolding set_bit zeros
new_bitmap = set_bit (set_bit (zeros page_size) 0 true) 1 true

-- `(start..end).find(..)`
unfoldable pub find_free : List ℕ → ℕ → ℕ → Option ℕ
unfolding get_bit
find_free bits start zero = none
find_free bits start (suc count) =
    let rest = find_free bits (suc start) count in if get_bit bits start then rest else some start

unfoldable pub find_free_in_range : List ℕ → ℕ → ℕ → Option ℕ
unfolding find_free
find_free_in_range bits start end =
    if leb end start then none else find_free bits start (end - start)

byte_bit-set_byte_bit :
    (i j b : ℕ) (v : Bool) → byte_bit (set_byte_bit b i v) j ≡ (if i == j then v else byte_bit b j)
unfolding byte_bit set_byte_bit
byte_bit-set_byte_bit zero zero b v = ground arith
byte_bit-set_byte_bit zero (suc j) b v =
    let e : (2 * (b / 2) + (if v then 1 else 0)) / 2 ≡ b / 2 = ground arith in rw e (ground arith)
byte_bit-set_byte_bit (suc i) zero b v = ground arith
byte_bit-set_byte_bit (suc i) (suc j) b v =
    let e : (b % 2 + 2 * set_byte_bit (b / 2) i v) / 2 ≡ set_byte_bit (b / 2) i v = omega arith in
    rw e (ground (arith, byte_bit-set_byte_bit i j (b / 2) v))

byte_at-set_byte :
    (bs : List ℕ) (i j v : ℕ)
    → i < length bs
    → byte_at (set_byte bs i v) j ≡ (if i == j then v else byte_at bs j)
unfolding byte_at set_byte
byte_at-set_byte [] i j v h = absurd (omega arith)
byte_at-set_byte (b ∷ bs) zero zero v h = ground arith
byte_at-set_byte (b ∷ bs) zero (suc j) v h = ground arith
byte_at-set_byte (b ∷ bs) (suc i) zero v h = ground arith
byte_at-set_byte (b ∷ bs) (suc i) (suc j) v h =
    ground (arith, byte_at-set_byte bs i j v (omega arith))

-- A bit is set alone.
pub get_bit-set_bit :
    (bits : List ℕ) (m n : ℕ) (v : Bool)
    → m < length bits * 8
    → get_bit (set_bit bits m v) n ≡ (if m == n then v else get_bit bits n)
unfolding get_bit set_bit
get_bit-set_bit bits m n v h =
    let byte = set_byte_bit (byte_at bits (m / 8)) (m % 8) v in
    ground (
      arith,
      byte_at-set_byte bits (m / 8) (n / 8) byte (omega arith),
      byte_bit-set_byte_bit (m % 8) (n % 8) (byte_at bits (m / 8)) v,
    )

pub length-set_bit : (bits : List ℕ) (m : ℕ) (v : Bool) → length (set_bit bits m v) ≡ length bits
unfolding set_bit
length-set_bit bits m v = go bits (m / 8) (set_byte_bit (byte_at bits (m / 8)) (m % 8) v)
  where
    go : (bs : List ℕ) (i w : ℕ) → length (set_byte bs i w) ≡ length bs
    go [] i w = refl
    go (b ∷ bs) zero w = refl
    go (b ∷ bs) (suc i) w = ap suc (go bs i w)

-- What is found is in range and free.
pub find_free-some :
    (bits : List ℕ) (start count id : ℕ)
    → find_free bits start count ≡ some id
    → (start ≤ id) × (id < start + count) × (get_bit bits id ≡ false)
unfolding find_free
find_free-some bits start zero id h = cc
find_free-some bits start (suc count) id h =
    ground (arith, find_free-some bits (suc start) count id)

pub find_free_in_range-some :
    (bits : List ℕ) (start end id : ℕ)
    → find_free_in_range bits start end ≡ some id
    → (start ≤ id) × (id < end) × (get_bit bits id ≡ false)
unfolding find_free_in_range
find_free_in_range-some bits start end id h =
    ground (arith, find_free-some bits start (end - start) id)

pub length-zeros : (n : ℕ) → length (zeros n) ≡ n
unfolding zeros
length-zeros zero = refl
length-zeros (suc n) = ap suc (length-zeros n)

byte_at-zeros : (n i : ℕ) → byte_at (zeros n) i ≡ 0
unfolding zeros byte_at
byte_at-zeros zero i = refl
byte_at-zeros (suc n) zero = refl
byte_at-zeros (suc n) (suc i) = byte_at-zeros n i

byte_bit-zero : (i : ℕ) → byte_bit 0 i ≡ false
unfolding byte_bit
byte_bit-zero zero = refl
byte_bit-zero (suc i) = byte_bit-zero i

pub get_bit-new_bitmap : (n : ℕ) → get_bit new_bitmap n ≡ (n == 0 || n == 1)
unfolding new_bitmap
get_bit-new_bitmap n =
    let none_set : get_bit (zeros page_size) n ≡ false =
      unfold get_bit in rw (byte_at-zeros page_size (n / 8)) (byte_bit-zero (n % 8)) in
    ground (
      arith,
      none_set,
      get_bit-set_bit (set_bit (zeros page_size) 0 true) 1 n true
          (omega (arith, length-set_bit (zeros page_size) 0 true, length-zeros page_size)),
      get_bit-set_bit (zeros page_size) 0 n true (omega (arith, length-zeros page_size)),
    )

pub length-new_bitmap : length new_bitmap ≡ page_size
unfolding new_bitmap
length-new_bitmap =
    length-set_bit (set_bit (zeros page_size) 0 true) 1 true
    ∙ (length-set_bit (zeros page_size) 0 true ∙ length-zeros page_size)
