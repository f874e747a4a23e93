-- ===== src/Pager/Bytes/Transfers.antt =====
-- A page is transferred in whole however many calls of the system it takes, so a file is its pages.
use nervusdb.Base.{
  ℕ, zero, suc, ◌+◌, ◌-◌, ◌*◌, ◌<◌, ◌≤◌, ◌≡◌, refl, sym, ap, ◌∙◌, true, inl, inr, List, [], ◌∷◌,
  ◌++◌, arith, ◌⊎◌, ◌≢◌,
}
use nervusdb.Base.{
  if◌then◌else◌, ltb, ◌==◌, ==_iff, length, take, drop, Bool-cases, ok, length-append, take-drop,
  length-drop,
}
use nervusdb.Pager.{Disk, read_page_raw, write_page_raw}
use nervusdb.Pager.Bitmap.{page_size}
use nervusdb.Pager.Bytes.{
  File, overlaid, write_at, bytes_at, read_at, read_exact_at, write_all_at, read_page_bytes,
  write_page_bytes, bytes_at-append, length-bytes_at, overlaid-before, overlaid-behind,
  overlaid-append, bytes_at-overlaid, bytes_at-same,
}

-- What the system documents: a transfer of anything moves a byte at least, and no more than was asked for.
abbrev pub IsGrant : (ℕ → ℕ → ℕ) → Type 0
IsGrant granted =
    (offset wanted : ℕ)
    → 0 < wanted
    → (0 < granted offset wanted) × (granted offset wanted ≤ wanted)

abbrev reach : ℕ → ℕ → ℕ
reach len stop = if ltb len stop then stop else len

module _ (granted : ℕ → ℕ → ℕ) (g : IsGrant granted) where
  read_exact_at-ok :
      (fuel : ℕ) (file : File) (offset wanted : ℕ)
      → wanted ≤ fuel
      → offset + wanted ≤ file.len
      → read_exact_at granted fuel file offset wanted ≡ ok (bytes_at file offset wanted)
  unfolding read_exact_at read_at bytes_at
  read_exact_at-ok fuel file offset zero h k = refl
  read_exact_at-ok zero file offset (suc wanted) h k = absurd (omega (arith, h))
  read_exact_at-ok (suc fuel) file offset (suc wanted) h k =
      let n = granted offset (suc wanted) in
      let (some_, most) = g offset (suc wanted) (omega arith) in
      let (m, e) : (m : ℕ) × (n ≡ suc m) = (n - 1, omega (arith, some_)) in
      let all : read_at granted file offset (suc wanted) ≡ bytes_at file offset (suc m) =
        ap (bytes_at file offset)
          (least n (suc m) (file.len - offset) e (omega (arith, e, most, k))) in
      let count = length-bytes_at file offset (suc m) in
      let split : suc wanted ≡ suc m + (suc wanted - suc m) = omega (arith, e, most) in
      rw
        (
          all,
          count,
          read_exact_at-ok fuel file (offset + suc m) (suc wanted - suc m) (omega (arith, h))
              (omega (arith, k, e, most)),
        )
        (ap ok (
          sym (bytes_at-append file offset (suc m) (suc wanted - suc m))
          ∙ ap (bytes_at file offset) (sym split)))
    where
      least : (n m there : ℕ) → n ≡ m → m ≤ there → (if ltb n there then n else there) ≡ m
      least n m there e h = ground (arith, e, h)

  write_all_at-step :
      (fuel : ℕ) (file : File) (offset b : ℕ) (bs : List ℕ) (m : ℕ)
      → granted offset (length (b ∷ bs)) ≡ suc m
      → write_all_at granted (suc fuel) file offset (b ∷ bs)
        ≡ write_all_at granted fuel
            (write_at file offset (take (suc m) (b ∷ bs)))
            (offset + suc m)
            (drop (suc m) (b ∷ bs))
  unfolding write_all_at
  write_all_at-step fuel file offset b bs m e = rw (e, write_all_at) refl

  write_all_at-ok :
      (fuel : ℕ) (file : File) (offset : ℕ) (buf : List ℕ)
      → length buf ≤ fuel
      → (after : File) × (write_all_at granted fuel file offset buf ≡ ok after)
        × ((i : ℕ) → after.byte i ≡ overlaid offset buf file.byte i)
        × (file.len ≤ after.len)
        × (0 < length buf → offset + length buf ≤ after.len)
  unfolding write_all_at write_at overlaid
  write_all_at-ok fuel file offset [] h =
      (file, refl, (λ i. refl), omega arith, λ p. absurd (omega (arith, p)))
  write_all_at-ok zero file offset (b ∷ bs) h = absurd (omega (arith, h))
  write_all_at-ok (suc fuel) file offset (b ∷ bs) h =
      let n = granted offset (length (b ∷ bs)) in
      let (some_, most) = g offset (length (b ∷ bs)) (omega arith) in
      let (m, e) : (m : ℕ) × (n ≡ suc m) = (n - 1, omega (arith, some_)) in
      let taken = take (suc m) (b ∷ bs) in
      let left = drop (suc m) (b ∷ bs) in
      let next = write_at file offset taken in
      let sizes = length-append taken left in
      let whole : taken ++ left ≡ b ∷ bs = take-drop (suc m) (b ∷ bs) in
      let left_size = length-drop (suc m) (b ∷ bs) in
      let total : length taken + length left ≡ length (b ∷ bs) = sym sizes ∙ ap length whole in
      let count : length taken ≡ suc m = omega (arith, total, left_size, e, most) in
      let (after, run, bytes, grows, far) =
        write_all_at-ok fuel next (offset + suc m) left (omega (arith, left_size, h, e, most)) in
      let (wide, reached) = covers file.len (offset + length taken) in
      (
        after,
        write_all_at-step fuel file offset b bs m e ∙ run,
        (λ i.
            bytes i
            ∙ (ap (λ k. overlaid (offset + k) left next.byte i) (sym count)
                ∙ (overlaid-append taken left offset file.byte i
                    ∙ ap (λ l. overlaid offset l file.byte i) whole))),
        omega (arith, grows, wide),
        λ p. elim (zero_or_more (length left)) [
          | inl none_left ↦ omega (arith, grows, reached, total, none_left)
          | inr more ↦ (let there = far more in omega (arith, there, total, count))
        ],
      )
    where
      covers : (a b : ℕ) → (a ≤ reach a b) × (b ≤ reach a b)
      covers a b = (ground arith, ground arith)

      zero_or_more : (n : ℕ) → (n ≡ 0) ⊎ (0 < n)
      zero_or_more zero = inl refl
      zero_or_more (suc n) = inr (omega arith)

  read_page_bytes-write_page_bytes :
      (file : File) (id : ℕ) (page : List ℕ)
      → length page ≡ page_size
      → (after : File) × (write_page_bytes granted file id page ≡ ok after)
        × (file.len ≤ after.len)
        × (read_page_bytes granted after id ≡ ok page)
        × ((other : ℕ)
            → other ≢ id
            → (other + 1) * page_size ≤ file.len
            → (read_page_bytes granted after other ≡ read_page_bytes granted file other)
              × (read_page_bytes granted file other
                  ≡ ok (bytes_at file (other * page_size) page_size)))
  unfolding write_page_bytes read_page_bytes
  read_page_bytes-write_page_bytes file id page full =
      let (after, run, bytes, grows, far) =
        write_all_at-ok page_size file (id * page_size) page (omega (arith, full)) in
      let in_file : id * page_size + page_size ≤ after.len =
        (let there = far (omega (arith, full)) in omega (arith, there, full)) in
      (
        after,
        run,
        grows,
        read_exact_at-ok page_size after (id * page_size) page_size (omega arith) in_file
            ∙ ap ok (
                ap (bytes_at after (id * page_size)) (sym full)
                ∙ bytes_at-overlaid after (id * page_size) page file.byte (λ i le. bytes i)),
        λ other ne within.
            let fits : other * page_size + page_size ≤ file.len = omega (arith, within) in
            let still : other * page_size + page_size ≤ after.len = omega (arith, fits, grows) in
            let before =
              read_exact_at-ok page_size file (other * page_size) page_size (omega arith) fits in
            (
              read_exact_at-ok page_size after (other * page_size) page_size (omega arith) still
                  ∙ (ap ok (
                        bytes_at-same after file page_size (other * page_size) (λ i a b.
                          bytes i ∙ elim (sides other id ne) [
                            | inl less ↦
                                overlaid-before (id * page_size) page file.byte i
                                  (omega (arith, a, b, less))
                            | inr more ↦
                                overlaid-behind (id * page_size) page file.byte i
                                  (omega (arith, a, b, more, full))
                          ]))
                      ∙ sym before),
              before,
            ),
      )
    where
      sides : (a b : ℕ) → a ≢ b → (a < b) ⊎ (b < a)
      sides a b ne = elim (Bool-cases (ltb a b)) [
        | inl e ↦ inl (ground (arith, e))
        | inr e ↦ elim (Bool-cases (ltb b a)) [
          | inl k ↦ inr (ground (arith, k))
          | inr k ↦ absurd (ne (ground (arith, e, k)))
        ]
      ]

  -- The file has the pages of the disk, each of which is read in whole.
  pub record Represents (file : File) (disk : Disk) : Type 0 where
    pub fits : disk.pages * page_size ≤ file.len
    pub alike : (id : ℕ) → id < disk.pages → read_page_bytes granted file id ≡ read_page_raw disk id

  -- The disk of the pages of a file
  pub paged-Represents :
      (file : File) (pages : ℕ)
      → pages * page_size ≤ file.len
      → Represents file
          (record { pages = pages; page = λ id. bytes_at file (id * page_size) page_size })
  unfolding read_page_bytes read_page_raw
  paged-Represents file pages h = record {
    fits = h;
    alike = λ id low.
        let within : ltb id pages ≡ true = ground (arith, low) in
        rw within (
          read_exact_at-ok page_size file (id * page_size) page_size (omega arith)
            (omega (arith, h, low)));
  }

  -- Where the system's calls move a byte at least, a page of full size that is written to a file which has
  -- the pages of a disk is written in whole, in as many calls as it takes: the file then has the pages of
  -- the disk to which that page was written, and every page of it is read in whole.
  pub write_page_bytes-Represents :
      (file : File) (disk : Disk) (id : ℕ) (page : List ℕ)
      → Represents file disk
      → length page ≡ page_size
      → id < disk.pages
      → (after : File) × (write_page_bytes granted file id page ≡ ok after)
        × Represents after (write_page_raw disk id page)
  unfolding write_page_raw read_page_raw
  write_page_bytes-Represents file disk id page r full there =
      let (after, run, grows, own, others) = read_page_bytes-write_page_bytes file id page full in
      (
        after,
        run,
        record {
          fits = (let old = r.fits in omega (arith, old, grows));
          alike = λ other low. elim (Bool-cases (other == id)) [
            | inl e ↦
                let same : other ≡ id = (==_iff other id).0 e in
                let within : ltb other disk.pages ≡ true = ground (arith, low) in
                rw (within, e) (ap (read_page_bytes granted after) same ∙ own)
            | inr e ↦
                let within : ltb other disk.pages ≡ true = ground (arith, low) in
                let apart : other ≢ id =
                  λ same. absurd (let k : other ≡ id = same in ground (arith, e, k)) in
                let old = r.fits in
                let known : read_page_bytes granted file other ≡ ok (disk.page other) =
                  r.alike other low ∙ rw within refl in
                rw (within, e) ((others other apart (omega (arith, old, low))).0 ∙ known)
          ];
        },
      )
