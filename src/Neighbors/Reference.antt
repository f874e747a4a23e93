-- ===== src/Neighbors/Reference.antt =====
-- What the neighbour iterators should yield, by recursion on the runs and the segments, and what a
-- state of an iterator has still to yield.
use nervusdb.Base.{ℕ, suc, ◌+◌, Bool, false, not, ◌&&◌, ◌≡◌, List, [], ◌∷◌, ◌++◌, Option}
use nervusdb.Base.{if◌then◌else◌, retain, length, drop}
use nervusdb.Base.{All, ok, err, panic}
use nervusdb.Base.OrdMap.{Set, contains}
use nervusdb.Api.Edge.{EdgeKey, node_key, edge_key}
use nervusdb.Run.{L0Run}
use nervusdb.Csr.{CsrSegment, rel_matches}
use nervusdb.Neighbors.{Direction, NeighborsIter, extend, edge_blocked}

module _ (d : Direction) (node : ℕ) where
  -- The edges of a run: none if the run buries the node itself.
  unfoldable pub own_edges : L0Run → List EdgeKey
  own_edges run =
      if contains node (extend [] run.tombstoned_nodes) then [] else d.run_edges run node

  unfoldable pub runs_cost : List L0Run → ℕ
  unfolding own_edges
  runs_cost [] = 0
  runs_cost (run ∷ runs) = suc (length (own_edges run) + runs_cost runs)

module _ (d : Direction) (node : ℕ) (rel : Option ℕ) where
  -- What a segment has for the node
  unfoldable pub found_edges : CsrSegment → List EdgeKey
  found_edges seg = elim (d.segment_edges seg node rel) [
    | ok edges ↦ edges
    | err e ↦ []
    | panic ↦ []
  ]

  -- The lookup does not panic.
  abbrev pub Answers : CsrSegment → Type 0
  Answers seg = d.segment_edges seg node rel ≡ ok (found_edges seg)

  unfoldable pub wanted : Set ℕ → Set EdgeKey → EdgeKey → Bool
  unfolding rel_matches edge_blocked
  wanted nodes edges e = rel_matches rel e.rel && not (edge_blocked d e nodes edges)

  unfoldable pub unblocked : Set ℕ → Set EdgeKey → EdgeKey → Bool
  unfolding edge_blocked
  unblocked nodes edges e = not (edge_blocked d e nodes edges)

  unfoldable pub from_segments : List CsrSegment → Set ℕ → Set EdgeKey → List EdgeKey
  unfolding unblocked found_edges
  from_segments [] nodes edges = []
  from_segments (seg ∷ segs) nodes edges =
      retain (unblocked nodes edges) (found_edges seg) ++ from_segments segs nodes edges

  -- `nodes` and `edges` are buried by newer runs; a buried node ends the iteration.
  unfoldable pub from_runs :
      (Set ℕ → Set EdgeKey → List EdgeKey) → List L0Run → Set ℕ → Set EdgeKey → List EdgeKey
  unfolding wanted own_edges
  from_runs rest [] nodes edges = if contains node nodes then [] else rest nodes edges
  from_runs rest (run ∷ runs) nodes edges =
      let older =
        from_runs rest runs (extend nodes (extend [] run.tombstoned_nodes))
          (extend edges (extend [] run.tombstoned_edges)) in
      if contains node nodes
      then []
      else retain (wanted nodes edges) (own_edges d node run) ++ older

  unfoldable pub reference : List L0Run → List CsrSegment → List EdgeKey
  unfolding from_runs from_segments
  reference runs segs = from_runs (from_segments segs) runs [] []

  unfoldable pub segments_cost : List CsrSegment → ℕ
  segments_cost [] = 0
  segments_cost (seg ∷ segs) = suc (length (found_edges seg) + segments_cost segs)

module _ (d : Direction) where
  unfoldable pub segment_tail : NeighborsIter → Set ℕ → Set EdgeKey → List EdgeKey
  unfolding unblocked from_segments
  segment_tail s nodes edges =
      retain (unblocked d s.node s.rel nodes edges)
        (drop s.segment_edge_idx s.current_segment_edges)
      ++ from_segments d s.node s.rel (drop s.segment_idx s.segments) nodes edges

  -- What the iterator has still to yield.
  unfoldable pub remaining : NeighborsIter → List EdgeKey
  unfolding segment_tail from_runs
  remaining s =
      retain (wanted d s.node s.rel s.blocked_nodes s.blocked_edges)
        (drop s.edge_idx s.current_edges)
      ++ from_runs d s.node s.rel (segment_tail s) (drop s.run_idx s.runs)
          (extend s.blocked_nodes s.pending_tombstoned_nodes)
          (extend s.blocked_edges s.pending_tombstoned_edges)

  -- The rounds that are left.
  unfoldable pub cost : NeighborsIter → ℕ
  unfolding runs_cost segments_cost
  cost s =
      length (drop s.edge_idx s.current_edges)
      + runs_cost d s.node (drop s.run_idx s.runs)
      + length (drop s.segment_edge_idx s.current_segment_edges)
      + segments_cost d s.node s.rel (drop s.segment_idx s.segments)

-- An iterator that has not ended, over segments that answer.
pub record IsRunning (d : Direction) (s : NeighborsIter) : Type 0 where
  pub answering : All (Answers d s.node s.rel) (drop s.segment_idx s.segments)
  pub going : s.terminated ≡ false
  pub visible : contains s.node s.blocked_nodes ≡ false
