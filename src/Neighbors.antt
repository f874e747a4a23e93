-- ===== src/Neighbors.antt =====
-- nervusdb-storage/src/read_path_iters.rs and read_path_neighbors.rs: the iterators over the edges of a
-- node, newest run first and the segments last, with the tombstones of newer runs hiding older edges.
-- `NeighborsIter` and `IncomingNeighborsIter` are one text but for the names in `Direction`.
pub mod Reference
pub mod Rounds
pub mod SegmentRounds
pub mod Collect
use nervusdb.Base.{
  ℕ, zero, suc, ◌+◌, Bool, true, false, ◌&&◌, ◌||◌, Option, none, some, List, [], ◌∷◌,
}
use nervusdb.Base.{if◌then◌else◌, get_elem?, is_empty}
use nervusdb.Base.OrdMap.{Key, Set, contains, add}
use nervusdb.Api.Edge.{EdgeKey, node_key, edge_key}
use nervusdb.Base.{ok, err, panic, ◌>>=◌}
use nervusdb.Error.{Storage}
use nervusdb.Run.{L0Run, edges_for_src, edges_for_dst}
use nervusdb.Csr
use nervusdb.Csr.{CsrSegment, rel_matches}

-- What differs between the two iterators: whose edges of a run and of a segment are loaded, and the
-- end of an edge whose tombstone hides it.
pub record Direction : Type 0 where
  pub run_edges : L0Run → ℕ → List EdgeKey
  pub segment_edges : CsrSegment → ℕ → Option ℕ → Storage (List EdgeKey)
  pub far_end : EdgeKey → ℕ

unfoldable pub outgoing : Direction
unfolding edges_for_src Csr.neighbors
outgoing = record { run_edges = edges_for_src; segment_edges = Csr.neighbors; far_end = λ e. e.dst }

unfoldable pub incoming : Direction
unfolding edges_for_dst Csr.incoming_neighbors
incoming = record {
  run_edges = edges_for_dst;
  segment_edges = Csr.incoming_neighbors;
  far_end = λ e. e.src;
}

-- `set.extend(items)`
unfoldable pub extend : {K : Type 0} ⦃k : Key K⦄ → Set K → List K → Set K
extend s [] = s
extend s (x ∷ xs) = extend (add x s) xs

pub record NeighborsIter : Type 0 where
  pub runs : List L0Run
  pub segments : List CsrSegment
  pub node : ℕ
  pub rel : Option ℕ
  pub run_idx : ℕ
  pub edge_idx : ℕ
  pub current_edges : List EdgeKey
  pub segment_idx : ℕ
  pub segment_edge_idx : ℕ
  pub current_segment_edges : List EdgeKey
  pub blocked_nodes : Set ℕ
  pub blocked_edges : Set EdgeKey
  pub pending_tombstoned_nodes : Set ℕ
  pub pending_tombstoned_edges : Set EdgeKey
  pub terminated : Bool

unfoldable pub new : List L0Run → List CsrSegment → ℕ → Option ℕ → NeighborsIter
new runs segments node rel = record {
  runs = runs;
  segments = segments;
  node = node;
  rel = rel;
  run_idx = 0;
  edge_idx = 0;
  current_edges = [];
  segment_idx = 0;
  segment_edge_idx = 0;
  current_segment_edges = [];
  blocked_nodes = [];
  blocked_edges = [];
  pending_tombstoned_nodes = [];
  pending_tombstoned_edges = [];
  terminated = false;
}

unfoldable pub apply_pending_tombstones : NeighborsIter → NeighborsIter
apply_pending_tombstones s =
    if is_empty s.pending_tombstoned_nodes && is_empty s.pending_tombstoned_edges
    then s
    else (let nodes = extend s.blocked_nodes s.pending_tombstoned_nodes in
        record s {
          blocked_nodes = nodes;
          blocked_edges = extend s.blocked_edges s.pending_tombstoned_edges;
          pending_tombstoned_nodes = [];
          pending_tombstoned_edges = [];
          terminated = if contains s.node nodes then true else s.terminated;
        })

-- What one round of the loop in `next` does: `return Some(edge)`, `continue`, `return None`, or a
-- panic.
pub data Round : Type 0 where
  yielded : EdgeKey → NeighborsIter → Round
  continued : NeighborsIter → Round
  ended : NeighborsIter → Round
  panicked : Round

-- A round that goes on from a state
unfoldable pub continue_from : Storage NeighborsIter → Round
continue_from (ok s) = continued s
continue_from (err e) = panicked
continue_from panic = panicked

module _ (d : Direction) where
  unfoldable pub load_run : NeighborsIter → NeighborsIter
  load_run s = elim (get_elem? s.runs s.run_idx) [
    | none ↦ record s { current_edges = []; edge_idx = 0; terminated = true }
    | some run ↦
        if contains s.node s.blocked_nodes
        then record s { current_edges = []; edge_idx = 0; terminated = true }
        else (let nodes = extend [] run.tombstoned_nodes in
            record s {
              current_edges = if contains s.node nodes then [] else d.run_edges run s.node;
              edge_idx = 0;
              pending_tombstoned_nodes = nodes;
              pending_tombstoned_edges = extend [] run.tombstoned_edges;
            })
  ]

  unfoldable pub load_segment : NeighborsIter → Storage NeighborsIter
  load_segment s = elim (get_elem? s.segments s.segment_idx) [
    | none ↦ ok (record s { current_segment_edges = []; segment_edge_idx = 0 })
    | some seg ↦ d.segment_edges seg s.node s.rel >>= λ edges.
        ok (record s { current_segment_edges = edges; segment_edge_idx = 0 })
  ]

  -- `edge_blocked_outgoing`, `edge_blocked_incoming`
  unfoldable pub edge_blocked : EdgeKey → Set ℕ → Set EdgeKey → Bool
  edge_blocked e nodes edges = contains (d.far_end e) nodes || contains e edges

  -- The rounds once the edges of the current run are used up and there is no further run.
  unfoldable pub segment_round : NeighborsIter → Round
  unfolding load_segment edge_blocked continue_from
  segment_round s = elim (get_elem? s.current_segment_edges s.segment_edge_idx) [
    | none ↦ elim (get_elem? s.segments s.segment_idx) [
      | none ↦ ended (record s { terminated = true })
      | some seg ↦
          continue_from
            (load_segment s >>= λ s'. ok (record s' { segment_idx = s'.segment_idx + 1 }))
    ]
    | some edge ↦
        let s' : NeighborsIter = record s { segment_edge_idx = s.segment_edge_idx + 1 } in
        if edge_blocked edge s.blocked_nodes s.blocked_edges then continued s' else yielded edge s'
  ]

  -- The rounds once the edges of the current run are used up: the next run, or the segments.
  unfoldable pub next_run_round : NeighborsIter → Round
  unfolding load_run segment_round
  next_run_round s = elim (get_elem? s.runs s.run_idx) [
    | none ↦ if s.terminated then ended s else segment_round s
    | some run ↦
        if s.terminated
        then ended s
        else continued (record (load_run s) { run_idx = s.run_idx + 1 })
  ]

  unfoldable pub round : NeighborsIter → Round
  unfolding edge_blocked rel_matches
  round s = elim (get_elem? s.current_edges s.edge_idx) [
    | none ↦ next_run_round (apply_pending_tombstones s)
    | some edge ↦
        let s' : NeighborsIter = record s { edge_idx = s.edge_idx + 1 } in
        if rel_matches s.rel edge.rel
        then (if edge_blocked edge s.blocked_nodes s.blocked_edges
            then continued s'
            else yielded edge s')
        else continued s'
  ]

  -- The `loop` of `next` with fuel for its rounds; `none` is that the fuel ran out.
  unfoldable pub next_loop : ℕ → NeighborsIter → Option (Storage (Option EdgeKey × NeighborsIter))
  next_loop zero s = none
  next_loop (suc fuel) s = elim (round s) [
    | yielded edge s' ↦ some (ok (some edge, s'))
    | continued s' ↦ next_loop fuel s'
    | ended s' ↦ some (ok (none, s'))
    | panicked ↦ some panic
  ]

  unfoldable pub next : ℕ → NeighborsIter → Option (Storage (Option EdgeKey × NeighborsIter))
  unfolding next_loop
  next fuel s = if s.terminated then some (ok (none, s)) else next_loop fuel s
