-- ===== src/IdMap/Records.antt =====
-- The records of the internal numbers in their pages: what is written is read, and the others stay.
use mathlib.Core.Path.{subst}
use nervusdb.Base.{
  ℕ, ◌+◌, ◌/◌, ◌%◌, ◌^◌, ◌<◌, ◌≤◌, ◌≡◌, ◌≢◌, ◌⊎◌, inl, inr, refl, ap, sym, ◌∙◌, List, [], ◌∷◌,
  arith,
}
use nervusdb.Base.{ltb, ◌==◌, length, take, drop, ok, ◌>>=◌, >>=-eq-ok, Bool-cases}
use nervusdb.Base.Bytes.{
  words, slice, le_bytes, from_le_bytes, length-words, from_le_bytes-le_bytes,
}
use nervusdb.Error.{Error}
use nervusdb.Pager.{
  Pager, write_page_raw, flush_meta_and_bitmap, grow, ensure_allocated, read_page, write_page,
}
use nervusdb.Pager.Bitmap.{page_size}
use nervusdb.Pager.Reopen.{IsOpen, ensured, ensure_allocated-eq_ok}
use nervusdb.Pager.Pages.{Holds, read_page-Holds, ensured-Holds, write_page-Holds, written}
use nervusdb.IdMap.{
  I2eRecord, encode_i2e_record, decode_i2e_record, record_size, records_per_page, i2e_location,
  read_i2e_record, splice, write_i2e_record,
}
use nervusdb.IdMap.Splice.{length-splice, slice-splice, slice-splice_apart}

pub record IsRecord (r : I2eRecord) : Type 0 where
  pub external_id_fits : r.external_id < 2 ^ 64
  pub label_id_fits : r.label_id < 2 ^ 32
  pub flags_fits : r.flags < 2 ^ 32

pub length-encode : (r : I2eRecord) → length (encode_i2e_record r) ≡ 16
unfolding encode_i2e_record
length-encode r = length-words ((8, r.external_id) ∷ (4, r.label_id) ∷ (4, r.flags) ∷ [])

module _ (r : I2eRecord) (h : IsRecord r) where
  external_id-encode : from_le_bytes (take 8 (encode_i2e_record r)) ≡ r.external_id
  unfolding encode_i2e_record words le_bytes
  external_id-encode = from_le_bytes-le_bytes 8 r.external_id h.external_id_fits

  label_id-encode : from_le_bytes (take 4 (drop 8 (encode_i2e_record r))) ≡ r.label_id
  unfolding encode_i2e_record words le_bytes
  label_id-encode = from_le_bytes-le_bytes 4 r.label_id h.label_id_fits

  flags-encode : from_le_bytes (take 4 (drop 12 (encode_i2e_record r))) ≡ r.flags
  unfolding encode_i2e_record words le_bytes
  flags-encode = from_le_bytes-le_bytes 4 r.flags h.flags_fits

  pub decode_i2e_record-encode : decode_i2e_record (encode_i2e_record r) ≡ r
  unfolding decode_i2e_record
  decode_i2e_record-encode = rw (external_id-encode, label_id-encode, flags-encode) refl

abbrev pub page_of : ℕ → ℕ → ℕ
page_of start k = (i2e_location start k).0

abbrev pub offset_of : ℕ → ℕ
offset_of k = (i2e_location 0 k).1

-- The record stands in its page.
pub record Recorded (p : Pager) (start k : ℕ) (r : I2eRecord) : Type 0 where
  pub page : List ℕ
  pub held : Holds p (page_of start k) page
  pub full : length page ≡ page_size
  pub there :
      slice {E = Error} page (offset_of k) (offset_of k + record_size) ≡ ok (encode_i2e_record r)

pub read_i2e_record-Recorded :
    (p : Pager) (start k : ℕ) (r : I2eRecord)
    → IsRecord r
    → Recorded p start k r
    → read_i2e_record p start k ≡ ok r
unfolding read_i2e_record
read_i2e_record-Recorded p start k r known h =
    rw
      (read_page-Holds p (page_of start k) h.page h.held, h.there, decode_i2e_record-encode r known)
      refl

-- Data pages are whole.
abbrev pub Full : Pager → Type 0
Full p = (i : ℕ) → 2 ≤ i → length (p.disk.page i) ≡ page_size

-- A write of one record from a state in step with its file.
pub record Recording (p q : Pager) (start k : ℕ) (r : I2eRecord) : Type 0 where
  pub opened : IsOpen q
  pub full : Full q
  pub here : Recorded q start k r
  pub others : (j : ℕ) (s : I2eRecord) → j ≢ k → Recorded p start j s → Recorded q start j s
  pub start_kept : q.meta.i2e_start_page_id ≡ p.meta.i2e_start_page_id

-- Other records of the same page lie beside the one that is written.
apart :
    (j k : ℕ)
    → j ≢ k
    → j / records_per_page ≡ k / records_per_page
    → (offset_of j + 16 ≤ offset_of k) ⊎ (offset_of k + 16 ≤ offset_of j)
apart j k ne e = elim (Bool-cases (ltb (j % records_per_page) (k % records_per_page))) [
  | inl b ↦ inl (ground arith)
  | inr b ↦ inr (ground arith)
]

written-Full :
    (p : Pager) (id : ℕ) (new : List ℕ) (i : ℕ)
    → 2 ≤ i
    → 2 ≤ id
    → Full p
    → length new ≡ page_size
    → length ((written id new (ensured id p)).disk.page i) ≡ page_size
unfolding write_page_raw flush_meta_and_bitmap grow
written-Full p id new i j low f size = ground (arith, f i j)

slice-record :
    (old : List ℕ) (k : ℕ) (r : I2eRecord)
    → offset_of k + length (encode_i2e_record r) ≤ length old
    → slice {E = Error}
        (splice old (offset_of k) (encode_i2e_record r))
        (offset_of k)
        (offset_of k + record_size)
      ≡ ok (encode_i2e_record r)
slice-record old k r room =
    subst
      (λ n.
        slice {E = Error} (splice old (offset_of k) (encode_i2e_record r)) (offset_of k)
          (offset_of k + n)
        ≡ ok (encode_i2e_record r))
      (length-encode r) (slice-splice old (encode_i2e_record r) (offset_of k) room)

start-ensured :
    (p : Pager) (id : ℕ) (new : List ℕ)
    → (written id new (ensured id p)).meta.i2e_start_page_id ≡ p.meta.i2e_start_page_id
unfolding flush_meta_and_bitmap
start-ensured p id new = ground arith

-- Another record, in another page or beside the new one.
other_record :
    (p u : Pager) (start j k : ℕ) (s r : I2eRecord)
    → length (p.disk.page (page_of start k)) ≡ page_size
    → Holds u
        (page_of start k)
        (splice (p.disk.page (page_of start k)) (offset_of k) (encode_i2e_record r))
    → ((other : ℕ) (kept : List ℕ)
        → Holds p other kept
        → other ≢ page_of start k
        → Holds u other kept)
    → j ≢ k
    → Recorded p start j s
    → Recorded u start j s
other_record p u start j k s r size held kept ne m =
    let old = p.disk.page (page_of start k) in
    let room : offset_of k + length (encode_i2e_record r) ≤ length old =
      omega (arith, length-encode r) in
    elim (Bool-cases (page_of start j == page_of start k)) [
      | inl b ↦
          let same : page_of start j ≡ page_of start k = ground arith in
          let whole : old ≡ m.page = ap (λ i. p.disk.page i) (sym same) ∙ m.held.content in
          let beside = apart j k ne (omega arith) in
          let around : (offset_of j + record_size ≤ offset_of k)
              ⊎ (offset_of k + length (encode_i2e_record r) ≤ offset_of j) =
            elim beside [ inl x ↦ inl x | inr x ↦ inr (omega (arith, length-encode r)) ] in
          record {
            page = splice old (offset_of k) (encode_i2e_record r);
            held =
                subst (λ i. Holds u i (splice old (offset_of k) (encode_i2e_record r))) (sym same)
                  held;
            full = omega (arith, length-splice old (encode_i2e_record r) (offset_of k) room);
            there =
                slice-splice_apart old (encode_i2e_record r) (offset_of k) room (offset_of j)
                  (offset_of j + record_size) (omega arith) around
                ∙ (ap (λ b. slice {E = Error} b (offset_of j) (offset_of j + record_size)) whole
                    ∙ m.there);
          }
      | inr b ↦
          let other : page_of start j ≢ page_of start k = λ same. ground arith in
          record {
            page = m.page;
            held = kept (page_of start j) m.page m.held other;
            full = m.full;
            there = m.there;
          }
    ]

pub write_i2e_record-Recording :
    (start k : ℕ) (r : I2eRecord) (p q : Pager)
    → IsOpen p
    → Full p
    → write_i2e_record start k r p ≡ ok q
    → Recording p q start k r
unfolding write_i2e_record
write_i2e_record-Recording start k r p q h f e =
    let id = page_of start k in
    let old = p.disk.page id in
    let new = splice old (offset_of k) (encode_i2e_record r) in
    let put = λ (t : Pager). read_page t id >>= λ page.
    write_page id (splice page (offset_of k) (encode_i2e_record r)) t in
    let (t, e₁, e₂) = >>=-eq-ok (ensure_allocated id p) put e in
    let (low, high, same) = ensure_allocated-eq_ok id p t e₁ in
    let (opened, held, kept, same_pages) = ensured-Holds p id low high h in
    let (wrote, w_open, w_held, w_kept) = write_page-Holds (ensured id p) id old new opened held in
    let run : put (ensured id p) ≡ ok (written id new (ensured id p)) =
      rw (read_page-Holds (ensured id p) id old held) wrote in
    let last : put (ensured id p) ≡ ok q = rw (← same) at e₂ in
    let there : written id new (ensured id p) ≡ q = cc in
    let room : offset_of k + length (encode_i2e_record r) ≤ length old =
      omega (arith, f id low, length-encode r) in
    subst (λ u. Recording p u start k r) there
      (record {
        opened = w_open;
        full = λ i j.
            written-Full p id new i j low f
              (omega (arith, length-splice old (encode_i2e_record r) (offset_of k) room, f id low));
        here = record {
          page = new;
          held = w_held;
          full =
              omega (arith, length-splice old (encode_i2e_record r) (offset_of k) room, f id low);
          there = slice-record old k r room;
        };
        others = λ j s ne m.
            other_record p (written id new (ensured id p)) start j k s r (f id low) w_held
              (λ other bytes there apart. w_kept other bytes (kept other bytes there) apart) ne m;
        start_kept = start-ensured p id new;
      })
