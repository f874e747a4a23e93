-- ===== src/Csr.antt =====
-- `CsrSegment` of nervusdb-storage/src/csr.rs: an immutable block of edges with offsets by source, and
-- by destination in the reverse index. An offset that is missing and a slice that does not fit are
-- panics.
pub mod Bounds
pub mod Build
pub mod Layout
pub mod Counts
pub mod Ordered
pub mod Built
use nervusdb.Base.{
  ℕ, ◌+◌, ◌-◌, Bool, true, ◌||◌, ◌&&◌, Option, none, some, List, [], ◌∷◌, if◌then◌else◌,
}
use nervusdb.Base.{ltb, leb, ◌==◌, get_elem?, take, drop, retain, length}
use nervusdb.Base.{ok, panic, ◌>>=◌}
use nervusdb.Api.Edge.{EdgeKey}
use nervusdb.Error.{Storage}

pub record EdgeRecord : Type 0 where
  pub rel : ℕ
  pub dst : ℕ

pub record CsrSegment : Type 0 where
  pub id : ℕ
  pub meta_page_id : ℕ
  pub min_src : ℕ
  pub max_src : ℕ
  pub min_dst : ℕ
  pub max_dst : ℕ
  pub offsets : List ℕ
  pub edges : List EdgeRecord
  pub in_offsets : List ℕ
  pub in_edges : List EdgeRecord

-- `offsets[i] as usize`
unfoldable pub index_at : List ℕ → ℕ → Storage ℕ
index_at offsets i = elim (get_elem? offsets i) [ none ↦ panic | some v ↦ ok v ]

-- `&edges[start..end]`
unfoldable pub edge_slice : List EdgeRecord → ℕ → ℕ → Storage (List EdgeRecord)
edge_slice edges start stop =
    if leb start stop && leb stop (length edges)
    then ok (take (stop - start) (drop start edges))
    else panic

-- `rel.map_or(true, |r| e.rel == r)`
unfoldable pub rel_matches : Option ℕ → ℕ → Bool
rel_matches none rel = true
rel_matches (some r) rel = rel == r

-- `edges[offsets[idx]..offsets[idx + 1]]`, filtered by relationship type
unfoldable pub bucket : List ℕ → List EdgeRecord → ℕ → Option ℕ → Storage (List EdgeRecord)
unfolding index_at edge_slice rel_matches
bucket offsets edges idx rel = do
  start ← index_at offsets idx
  stop ← index_at offsets (idx + 1)
  found ← edge_slice edges start stop
  ok (retain (λ e. rel_matches rel e.rel) found)

unfoldable pub outgoing_keys : ℕ → List EdgeRecord → List EdgeKey
outgoing_keys src [] = []
outgoing_keys src (e ∷ es) = record { src = src; rel = e.rel; dst = e.dst } ∷ outgoing_keys src es

-- The reverse index stores the source in the field `dst`.
unfoldable pub incoming_keys : ℕ → List EdgeRecord → List EdgeKey
incoming_keys dst [] = []
incoming_keys dst (e ∷ es) = record { src = e.dst; rel = e.rel; dst = dst } ∷ incoming_keys dst es

unfoldable pub neighbors : CsrSegment → ℕ → Option ℕ → Storage (List EdgeKey)
unfolding bucket outgoing_keys
neighbors seg src rel =
    let found : Storage (List EdgeKey) = (do
      edges ← bucket seg.offsets seg.edges (src - seg.min_src) rel
      ok (outgoing_keys src edges)) in
    if ltb src seg.min_src || ltb seg.max_src src then ok [] else found

unfoldable pub incoming_neighbors : CsrSegment → ℕ → Option ℕ → Storage (List EdgeKey)
unfolding bucket incoming_keys
incoming_neighbors seg dst rel =
    let found : Storage (List EdgeKey) = (do
      edges ← bucket seg.in_offsets seg.in_edges (dst - seg.min_dst) rel
      ok (incoming_keys dst edges)) in
    if ltb dst seg.min_dst || ltb seg.max_dst dst then ok [] else found
