-- ===== src/Csr/Layout.antt =====
-- The lookup of a source in a built segment gives its edges, sorted.
use nervusdb.Base.{
  ℕ, zero, suc, ◌+◌, ◌-◌, ◌^◌, ◌<◌, ◌≤◌, ◌≡◌, ◌||◌, refl, sym, ap, ◌∙◌, true, false, inl, inr,
  Option, none, some, List, [], ◌∷◌, ◌++◌, arith,
}
use nervusdb.Base.{
  if◌then◌else◌, ltb, ◌==◌, length, take, drop, take-append, drop-append_past, retain, All,
  Bool-cases, ==_iff,
}
use mathlib.Core.List.{append_assoc, append-nil}
use nervusdb.Base.OrdMap.{Map, get, get_or, insert, get-insert}
use nervusdb.Api.Edge.{EdgeKey, node_key}
use nervusdb.Run.{L0Run, sort_edges}
use nervusdb.Base.{ok, get_elem?, length-append}
use nervusdb.Csr.{
  EdgeRecord, CsrSegment, rel_matches, outgoing_keys, neighbors, bucket, index_at, edge_slice,
}
use nervusdb.Csr.Bounds.{offset_at, records_at, found_neighbors, AreOffsets, neighbors-found}
use nervusdb.Csr.Build.{
  src_range, to_record, group, sort_records, layout, segment_of_edges, build_segment_from_runs,
  visible_edges,
}

-- The records of one source, in order.
unfoldable pub records_from : ℕ → List EdgeKey → List EdgeRecord
records_from src [] = []
records_from src (e ∷ es) =
    let rest = records_from src es in if e.src == src then to_record e ∷ rest else rest

or_empty : Option (List EdgeRecord) → List EdgeRecord
or_empty o = elim o [ none ↦ [] | some v ↦ v ]

get_or-insert :
    (a b : ℕ) (v : List EdgeRecord) (m : Map ℕ (List EdgeRecord))
    → get_or [] b (insert a v m) ≡ (if a == b then v else get_or [] b m)
unfolding get_or or_empty
get_or-insert a b v m =
    ap or_empty (get-insert a b v m)
    ∙ elim (Bool-cases (a == b)) [ inl e ↦ rw e refl | inr e ↦ rw e refl ]

get_or-group :
    (src : ℕ) (es : List EdgeKey) (m : Map ℕ (List EdgeRecord))
    → get_or [] src (group m es) ≡ get_or [] src m ++ records_from src es
unfolding group records_from
get_or-group src [] m = sym (append-nil (get_or [] src m))
get_or-group src (e ∷ es) m = elim (Bool-cases (e.src == src)) [
  | inl b ↦
      let same : e.src ≡ src = (==_iff e.src src).0 b in
      get_or-group src es (insert e.src (get_or [] e.src m ++ (to_record e ∷ [])) m)
      ∙ rw (get_or-insert e.src src (get_or [] e.src m ++ (to_record e ∷ [])) m, b)
          (append_assoc (get_or [] e.src m) (to_record e ∷ []) (records_from src es)
            ∙ ap (λ s. get_or [] s m ++ (to_record e ∷ records_from src es)) same)
  | inr b ↦
      get_or-group src es (insert e.src (get_or [] e.src m ++ (to_record e ∷ [])) m)
      ∙ rw (get_or-insert e.src src (get_or [] e.src m ++ (to_record e ∷ [])) m, b) refl
]

head_slice :
    (l rest : List EdgeRecord) (a b c : ℕ)
    → a ≡ c
    → b ≡ c + length l
    → take (b - a) (drop (a - c) (l ++ rest)) ≡ l
head_slice l rest a b c e f =
    let width : b - a ≡ length l = omega arith in
    let none_before : a - c ≡ 0 = omega arith in rw (width, none_before) (take-append l rest)

tail_slice :
    (l rest : List EdgeRecord) (a b c : ℕ)
    → c + length l ≤ a
    → take (b - a) (drop (a - c) (l ++ rest)) ≡ take (b - a) (drop (a - (c + length l)) rest)
tail_slice l rest a b c h =
    ap (take (b - a)) (drop-append_past (a - c) (a - (c + length l)) l rest (omega arith))

-- The edges of the source at an index stand between its offsets.
module _ (g : Map ℕ (List EdgeRecord)) where
  list_at : ℕ → List EdgeRecord
  list_at src = sort_records (get_or [] src g)

  layout-head : (n src c : ℕ) → offset_at ((layout g n src c).0) 0 ≡ c
  unfolding layout offset_at
  layout-head zero src c = refl
  layout-head (suc n) src c = refl

  layout-at :
      (n src c idx : ℕ)
      → idx < n
      → (c ≤ offset_at ((layout g n src c).0) idx)
        × (take
              (offset_at ((layout g n src c).0) (suc idx) - offset_at ((layout g n src c).0) idx)
              (drop (offset_at ((layout g n src c).0) idx - c) ((layout g n src c).1))
            ≡ list_at (src + idx))
  unfolding layout list_at offset_at
  layout-at zero src c idx h = absurd (omega arith)
  layout-at (suc n) src c zero h =
      let l = sort_records (get_or [] src g) in
      let rest = layout g n (suc src) (c + length l) in
      (
        omega arith,
        head_slice l (rest.1) c (offset_at (rest.0) 0) c refl
              (layout-head n (suc src) (c + length l))
            ∙ ap list_at (let same : src ≡ src + 0 = omega arith in same),
      )
  layout-at (suc n) src c (suc idx) h =
      let l = sort_records (get_or [] src g) in
      let rest = layout g n (suc src) (c + length l) in
      let (low, there) = layout-at n (suc src) (c + length l) idx (omega arith) in
      (
        omega (arith, low),
        tail_slice l (rest.1) (offset_at (rest.0) idx) (offset_at (rest.0) (suc idx)) c low
            ∙ (there ∙ ap list_at (let same : suc src + idx ≡ src + suc idx = omega arith in same)),
      )

  first_offset : (n src c : ℕ) → get_elem? ((layout g n src c).0) 0 ≡ some c
  unfolding layout
  first_offset zero src c = refl
  first_offset (suc n) src c = refl

  layout-offsets :
      (n src c idx : ℕ)
      → idx < n
      → (start : ℕ) × (stop : ℕ) × (get_elem? ((layout g n src c).0) idx ≡ some start)
        × (get_elem? ((layout g n src c).0) (suc idx) ≡ some stop)
        × (start ≤ stop)
        × (stop ≤ c + length ((layout g n src c).1))
  unfolding layout
  layout-offsets zero src c idx h = absurd (omega arith)
  layout-offsets (suc n) src c zero h =
      let l = sort_records (get_or [] src g) in
      let rest = layout g n (suc src) (c + length l) in
      (
        c,
        c + length l,
        refl,
        first_offset n (suc src) (c + length l),
        omega arith,
        ground (arith, length-append l (rest.1)),
      )
  layout-offsets (suc n) src c (suc idx) h =
      let l = sort_records (get_or [] src g) in
      let rest = layout g n (suc src) (c + length l) in
      let (start, stop, a, b, le, within) =
        layout-offsets n (suc src) (c + length l) idx (omega arith) in
      (start, stop, a, b, le, ground (arith, length-append l (rest.1), within))

-- The range holds every source.
src_range-holds :
    (es : List EdgeKey) (lo hi : ℕ)
    → ((src_range (lo, hi) es).0 ≤ lo)
      × (hi ≤ (src_range (lo, hi) es).1)
      × All (λ e. ((src_range (lo, hi) es).0 ≤ e.src) × (e.src ≤ (src_range (lo, hi) es).1)) es
unfolding src_range
src_range-holds [] lo hi = (omega arith, omega arith, tt)
src_range-holds (e ∷ es) lo hi =
    let (low, high, rest) =
      src_range-holds es (if ltb e.src lo then e.src else lo)
        (if ltb hi e.src then e.src else hi) in
    (ground (arith, low), ground (arith, high), ((ground (arith, low), ground (arith, high)), rest))

records_from-outside :
    (src lo hi : ℕ) (es : List EdgeKey)
    → All (λ e. (lo ≤ e.src) × (e.src ≤ hi)) es
    → (ltb src lo || ltb hi src) ≡ true
    → records_from src es ≡ []
unfolding records_from
records_from-outside src lo hi [] a h = refl
records_from-outside src lo hi (e ∷ es) a h =
    let other : (e.src == src) ≡ false = ground (arith, a.0) in
    rw other (records_from-outside src lo hi es a.1 h)

abbrev laid_out : ℕ → ℕ → ℕ → List EdgeKey → CsrSegment
laid_out seg_id lo hi es = record {
  id = seg_id;
  meta_page_id = 0;
  min_src = lo;
  max_src = hi;
  min_dst = 0;
  max_dst = 0;
  offsets = (layout (group [] es) (suc (hi - lo)) lo 0).0;
  edges = (layout (group [] es) (suc (hi - lo)) lo 0).1;
  in_offsets = [];
  in_edges = [];
}

-- The bucket of a source in the range.
records_at-laid_out :
    (lo hi src : ℕ) (rel : Option ℕ) (es : List EdgeKey)
    → lo ≤ src
    → src ≤ hi
    → records_at
        ((layout (group [] es) (suc (hi - lo)) lo 0).0)
        ((layout (group [] es) (suc (hi - lo)) lo 0).1)
        (src - lo)
        rel
      ≡ retain (λ r. rel_matches rel r.rel) (sort_records (records_from src es))
unfolding records_at list_at
records_at-laid_out lo hi src rel es low high =
    let g = group [] es in
    let n = suc (hi - lo) in
    let idx = src - lo in
    let laid = layout g n lo 0 in
    let start = offset_at (laid.0) idx in
    let next : idx + 1 ≡ suc idx = omega arith in
    let (above, there) = layout-at g n lo 0 idx (omega arith) in
    let whole : start - 0 ≡ start = omega arith in
    let here : lo + idx ≡ src = omega arith in
    let grouped : get_or [] src g ≡ records_from src es =
      get_or-group src es [] ∙ unfold get_or get in refl in
    let slice : take (offset_at (laid.0) (idx + 1) - start) (drop start (laid.1))
        ≡ sort_records (records_from src es) =
      ap (λ i. take (offset_at (laid.0) i - start) (drop start (laid.1))) next
      ∙ (ap (λ k. take (offset_at (laid.0) (suc idx) - start) (drop k (laid.1))) (sym whole)
          ∙ (there ∙ (ap (λ i. sort_records (get_or [] i g)) here ∙ ap sort_records grouped))) in
    ap (retain (λ r. rel_matches rel r.rel)) slice

found-laid_out :
    (seg_id lo hi src : ℕ) (rel : Option ℕ) (es : List EdgeKey)
    → All (λ e. (lo ≤ e.src) × (e.src ≤ hi)) es
    → found_neighbors (laid_out seg_id lo hi es) src rel
      ≡ outgoing_keys src (retain (λ r. rel_matches rel r.rel) (sort_records (records_from src es)))
unfolding found_neighbors outgoing_keys sort_records
found-laid_out seg_id lo hi src rel es a = elim (Bool-cases (ltb src lo || ltb hi src)) [
  | inl out ↦ rw (out, records_from-outside src lo hi es a out) refl
  | inr within ↦
      rw within (
        ap (outgoing_keys src) (records_at-laid_out lo hi src rel es (ground arith) (ground arith)))
]

laid_out-AreOffsets :
    (seg_id lo hi : ℕ) (es : List EdgeKey)
    → AreOffsets (laid_out seg_id lo hi es).offsets (laid_out seg_id lo hi es).edges (hi - lo)
laid_out-AreOffsets seg_id lo hi es i h =
    let (start, stop, a, b, le, within) =
      layout-offsets (group [] es) (suc (hi - lo)) lo 0 i (omega arith) in
    let next : i + 1 ≡ suc i = omega arith in
    (
      start,
      stop,
      a,
      ap (get_elem? ((layout (group [] es) (suc (hi - lo)) lo 0).0)) next ∙ b,
      le,
      omega (arith, within),
    )

neighbors-laid_out :
    (seg_id lo hi src : ℕ) (rel : Option ℕ) (es : List EdgeKey)
    → All (λ e. (lo ≤ e.src) × (e.src ≤ hi)) es
    → neighbors (laid_out seg_id lo hi es) src rel
      ≡ ok (
          outgoing_keys src
            (retain (λ r. rel_matches rel r.rel) (sort_records (records_from src es))))
neighbors-laid_out seg_id lo hi src rel es a =
    neighbors-found (laid_out seg_id lo hi es) src rel (laid_out-AreOffsets seg_id lo hi es)
    ∙ ap ok (found-laid_out seg_id lo hi src rel es a)

segment_of_edges-nil :
    (seg_id src : ℕ) (rel : Option ℕ)
    → neighbors (segment_of_edges seg_id []) src rel
      ≡ ok (
          outgoing_keys src
            (retain (λ r. rel_matches rel r.rel) (sort_records (records_from src []))))
unfolding neighbors segment_of_edges bucket index_at edge_slice sort_records records_from
    outgoing_keys
segment_of_edges-nil seg_id src rel = elim (Bool-cases (ltb src 0 || ltb 0 src)) [
  | inl out ↦ rw out refl
  | inr within ↦ let first : src ≡ 0 = ground arith in rw (within, first) refl
]

of_edges :
    (seg_id src : ℕ) (rel : Option ℕ) (es : List EdgeKey)
    → neighbors (segment_of_edges seg_id es) src rel
      ≡ ok (
          outgoing_keys src
            (retain (λ r. rel_matches rel r.rel) (sort_records (records_from src es))))
unfolding segment_of_edges
of_edges seg_id src rel [] = segment_of_edges-nil seg_id src rel
of_edges seg_id src rel (e ∷ es) =
    let range = src_range (2 ^ 32 - 1, 0) (e ∷ es) in
    neighbors-laid_out seg_id (range.0) (range.1) src rel (e ∷ es)
      ((src_range-holds (e ∷ es) (2 ^ 32 - 1) 0).2)

pub neighbors-visible_edges :
    (seg_id src : ℕ) (rel : Option ℕ) (runs : List L0Run)
    → neighbors (build_segment_from_runs seg_id runs) src rel
      ≡ ok (
          outgoing_keys src (
            retain
              (λ r. rel_matches rel r.rel)
              (sort_records (records_from src (sort_edges (visible_edges [] [] runs))))))
unfolding build_segment_from_runs
neighbors-visible_edges seg_id src rel runs =
    of_edges seg_id src rel (sort_edges (visible_edges [] [] runs))
