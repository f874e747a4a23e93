-- ===== src/Csr/Bounds.antt =====
-- The lookups of a segment do not panic where every node of its range has offsets, in order and within
-- its edges.
use nervusdb.Base.{ℕ, ◌+◌, ◌-◌, ◌≤◌, ◌≡◌, refl, true, ◌||◌, Option, none, some, List, [], arith}
use nervusdb.Base.{if◌then◌else◌, ltb, leb, length, get_elem?, take, drop, retain, Bool-cases}
use mathlib.Core.Logic.{inl, inr}
use nervusdb.Base.{ok}
use nervusdb.Api.Edge.{EdgeKey}
use nervusdb.Csr.{
  CsrSegment, EdgeRecord, index_at, edge_slice, rel_matches, bucket, outgoing_keys, incoming_keys,
  neighbors, incoming_neighbors,
}

-- The value of an offset, 0 where there is none
unfoldable pub offset_at : List ℕ → ℕ → ℕ
offset_at offsets i = elim (get_elem? offsets i) [ none ↦ 0 | some v ↦ v ]

-- The records between two offsets, and the lookups made of them
unfoldable pub records_at : List ℕ → List EdgeRecord → ℕ → Option ℕ → List EdgeRecord
unfolding offset_at
records_at offsets edges idx rel =
    let start = offset_at offsets idx in
    let stop = offset_at offsets (idx + 1) in
    retain (λ e. rel_matches rel e.rel) (take (stop - start) (drop start edges))

unfoldable pub found_neighbors : CsrSegment → ℕ → Option ℕ → List EdgeKey
unfolding records_at
found_neighbors seg src rel =
    if ltb src seg.min_src || ltb seg.max_src src
    then []
    else outgoing_keys src (records_at seg.offsets seg.edges (src - seg.min_src) rel)

unfoldable pub found_incoming : CsrSegment → ℕ → Option ℕ → List EdgeKey
unfolding records_at
found_incoming seg dst rel =
    if ltb dst seg.min_dst || ltb seg.max_dst dst
    then []
    else incoming_keys dst (records_at seg.in_offsets seg.in_edges (dst - seg.min_dst) rel)

-- Offsets for `span + 1` nodes, in order and within the edges.
abbrev pub AreOffsets : List ℕ → List EdgeRecord → ℕ → Type 0
AreOffsets offsets edges span =
    (i : ℕ)
    → i ≤ span
    → (start : ℕ) × (stop : ℕ) × (get_elem? offsets i ≡ some start)
      × (get_elem? offsets (i + 1) ≡ some stop)
      × (start ≤ stop)
      × (stop ≤ length edges)

pub record IsValid (seg : CsrSegment) : Type 0 where
  pub out_offsets : AreOffsets seg.offsets seg.edges (seg.max_src - seg.min_src)
  pub in_offsets : AreOffsets seg.in_offsets seg.in_edges (seg.max_dst - seg.min_dst)

module _ (offsets : List ℕ) (i v : ℕ) (e : get_elem? offsets i ≡ some v) where
  index_at-some : index_at offsets i ≡ ok v
  unfolding index_at
  index_at-some = rw (e, index_at) refl

  offset_at-some : offset_at offsets i ≡ v
  unfolding offset_at
  offset_at-some = rw (e, offset_at) refl

edge_slice-ok :
    (edges : List EdgeRecord) (start stop : ℕ)
    → start ≤ stop
    → stop ≤ length edges
    → edge_slice edges start stop ≡ ok (take (stop - start) (drop start edges))
unfolding edge_slice
edge_slice-ok edges start stop le within =
    let a : leb start stop ≡ true = ground arith in
    let b : leb stop (length edges) ≡ true = ground arith in rw (a, b) refl

bucket-ok :
    (offsets : List ℕ) (edges : List EdgeRecord) (span idx : ℕ) (rel : Option ℕ)
    → AreOffsets offsets edges span
    → idx ≤ span
    → bucket offsets edges idx rel ≡ ok (records_at offsets edges idx rel)
unfolding bucket records_at
bucket-ok offsets edges span idx rel valid h =
    let (start, stop, e₁, e₂, le, within) = valid idx h in
    rw
      (
        index_at-some offsets idx start e₁,
        index_at-some offsets (idx + 1) stop e₂,
        offset_at-some offsets idx start e₁,
        offset_at-some offsets (idx + 1) stop e₂,
        edge_slice-ok edges start stop le within,
      )
      refl

pub neighbors-found :
    (seg : CsrSegment) (node : ℕ) (rel : Option ℕ)
    → AreOffsets seg.offsets seg.edges (seg.max_src - seg.min_src)
    → neighbors seg node rel ≡ ok (found_neighbors seg node rel)
unfolding neighbors found_neighbors
neighbors-found seg node rel valid =
    elim (Bool-cases (ltb node seg.min_src || ltb seg.max_src node)) [
      | inl out ↦ rw out refl
      | inr in_range ↦
          rw
            (
              in_range,
              bucket-ok seg.offsets seg.edges (seg.max_src - seg.min_src) (node - seg.min_src) rel
                  valid (ground arith),
            )
            refl
    ]

pub incoming_neighbors-found :
    (seg : CsrSegment) (node : ℕ) (rel : Option ℕ)
    → AreOffsets seg.in_offsets seg.in_edges (seg.max_dst - seg.min_dst)
    → incoming_neighbors seg node rel ≡ ok (found_incoming seg node rel)
unfolding incoming_neighbors found_incoming
incoming_neighbors-found seg node rel valid =
    elim (Bool-cases (ltb node seg.min_dst || ltb seg.max_dst node)) [
      | inl out ↦ rw out refl
      | inr in_range ↦
          rw
            (
              in_range,
              bucket-ok seg.in_offsets seg.in_edges (seg.max_dst - seg.min_dst) (node - seg.min_dst)
                  rel valid (ground arith),
            )
            refl
    ]

-- In a segment with offsets for every node of its two ranges, in order and within its edges, neither
-- lookup panics, for any node and relationship type, and each gives the records between the offsets of
-- the node, of the type that is asked for.
pub neighbors-ok :
    (seg : CsrSegment) (node : ℕ) (rel : Option ℕ)
    → IsValid seg
    → (neighbors seg node rel ≡ ok (found_neighbors seg node rel))
      × (incoming_neighbors seg node rel ≡ ok (found_incoming seg node rel))
neighbors-ok seg node rel valid = (
  neighbors-found seg node rel valid.out_offsets,
  incoming_neighbors-found seg node rel valid.in_offsets,
)
