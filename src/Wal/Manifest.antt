-- ===== src/Wal/Manifest.antt =====
-- The payload of a manifest switch is read back.
use nervusdb.Base.{ℕ, ◌+◌, ◌*◌, ◌^◌, ◌<◌, ◌≡◌, refl, ◌∙◌, List, [], ◌∷◌, ◌++◌, length, arith}
use nervusdb.Base.{ok}
use nervusdb.Base.Bytes.{Word, words, width, length-words}
use nervusdb.Api.Words.{fits}
use nervusdb.Api.Decode.{u64_at}
use nervusdb.Error.{Error}
use nervusdb.Wal.{SegmentPointer, manifest_switch, segment_words}
use nervusdb.Wal.Decode.{decode_segments, decode_manifest_switch}
use nervusdb.Api.Payload.{u32_at-words, u64_at-words}
use nervusdb.Wal.Loggable.{AreSegments}
use mathlib.Core.List.{append_assoc}

width-append : (xs ys : List Word) → width (xs ++ ys) ≡ width xs + width ys
width-append [] ys = omega arith
width-append ((w, v) ∷ xs) ys = omega (arith, width-append xs ys)

width-segment_words : (segs : List SegmentPointer) → width (segment_words segs) ≡ length segs * 16
unfolding segment_words
width-segment_words [] = refl
width-segment_words (seg ∷ segs) = omega (arith, width-segment_words segs)

-- The segments are read back from among other words.
segments-words :
    (segs : List SegmentPointer) (xs ys : List Word) (offset : ℕ)
    → AreSegments segs
    → width xs ≡ offset
    → decode_segments (length segs) (words (xs ++ (segment_words segs ++ ys))) offset ≡ ok segs
unfolding decode_segments segment_words
segments-words [] xs ys offset h e = refl
segments-words (seg ∷ segs) xs ys offset h e =
    let id = seg.id in
    let meta = seg.meta_page_id in
    let rest = segment_words segs ++ ys in
    let one = xs ++ ((8, id) ∷ []) in
    let two = one ++ ((8, meta) ∷ []) in
    let w₁ : width one ≡ offset + 8 = omega (arith, width-append xs ((8, id) ∷ [])) in
    let w₂ : width two ≡ offset + 16 = omega (arith, width-append one ((8, meta) ∷ [])) in
    let e₁ : one ++ ((8, meta) ∷ rest) ≡ xs ++ ((8, id) ∷ (8, meta) ∷ rest) =
      append_assoc xs ((8, id) ∷ []) ((8, meta) ∷ rest) in
    let e₂ : two ++ rest ≡ xs ++ ((8, id) ∷ (8, meta) ∷ rest) =
      append_assoc one ((8, meta) ∷ []) rest ∙ e₁ in
    let first : u64_at {E = Error} (words (xs ++ ((8, id) ∷ (8, meta) ∷ rest))) offset ≡ ok id =
      rw e at (u64_at-words {E = Error} xs id ((8, meta) ∷ rest) h.0) in
    let second : u64_at {E = Error} (words (xs ++ ((8, id) ∷ (8, meta) ∷ rest))) (offset + 8)
        ≡ ok meta =
      rw (e₁, w₁) at (u64_at-words {E = Error} one meta rest h.1) in
    let tail : decode_segments (length segs) (words (xs ++ ((8, id) ∷ (8, meta) ∷ rest)))
          (offset + 16)
        ≡ ok segs =
      rw e₂ at (segments-words segs two ys (offset + 16) h.2 w₂) in
    rw (first, second, tail) refl

module _ (epoch : ℕ) (segs : List SegmentPointer) (props stats : ℕ) (he : epoch < 2 ^ 64)
    (hs : AreSegments segs) (hp : props < 2 ^ 64) (ht : stats < 2 ^ 64)
    (short : length segs < 2 ^ 32) where
  abbrev pub manifest_words : List Word
  manifest_words =
      (8, epoch) ∷ (4, length segs) ∷ (segment_words segs ++ ((8, props) ∷ (8, stats) ∷ []))

  manifest_width : length (words manifest_words) ≡ 28 + length segs * 16
  manifest_width = omega (
    arith,
    length-words manifest_words,
    width-append (segment_words segs) ((8, props) ∷ (8, stats) ∷ []),
    width-segment_words segs,
  )

  pub manifest_switch-words :
      decode_manifest_switch (words manifest_words) ≡ ok (manifest_switch epoch segs props stats)
  unfolding decode_manifest_switch
  manifest_switch-words =
      let head = (8, epoch) ∷ (4, length segs) ∷ segment_words segs in
      let w : width head ≡ 12 + length segs * 16 = omega (arith, width-segment_words segs) in
      let w₁ : width (head ++ ((8, props) ∷ [])) ≡ 12 + length segs * 16 + 8 =
        omega (arith, width-append head ((8, props) ∷ [])) in
      let e₁ : (head ++ ((8, props) ∷ [])) ++ ((8, stats) ∷ []) ≡ manifest_words =
        append_assoc head ((8, props) ∷ []) ((8, stats) ∷ []) in
      let p : u64_at {E = Error} (words manifest_words) (12 + length segs * 16) ≡ ok props =
        rw w at (u64_at-words {E = Error} head props ((8, stats) ∷ []) hp) in
      let t : u64_at {E = Error} (words manifest_words) (12 + length segs * 16 + 8) ≡ ok stats =
        rw (e₁, w₁) at (u64_at-words {E = Error} (head ++ ((8, props) ∷ [])) stats [] ht) in
      rw
        (
          fits {a = 28} (words manifest_words) (omega (arith, manifest_width)),
          u64_at-words [] epoch
              ((4, length segs) ∷ (segment_words segs ++ ((8, props) ∷ (8, stats) ∷ []))) he,
          u32_at-words ((8, epoch) ∷ []) (length segs)
              (segment_words segs ++ ((8, props) ∷ (8, stats) ∷ [])) short,
          fits {a = 12 + length segs * 16 + 8} (words manifest_words)
              (omega (arith, manifest_width)),
          segments-words segs ((8, epoch) ∷ (4, length segs) ∷ []) ((8, props) ∷ (8, stats) ∷ []) 12
              hs refl,
          p,
          t,
        )
        refl
