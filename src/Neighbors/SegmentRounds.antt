-- ===== src/Neighbors/SegmentRounds.antt =====
-- The rounds of the neighbour iterators over the segments, and all rounds together.
use nervusdb.Base.{ok, ◌>>=◌, All, drop}
use nervusdb.Error.{Storage}
use nervusdb.Base.{◌+◌, ◌<◌, Bool, true, false, ◌≡◌, refl, ◌∙◌, ap}
use nervusdb.Base.{◌∷◌, none, some, arith, inl, inr}
use nervusdb.Base.{
  if◌then◌else◌, get_elem?, drop-get_elem?-some, drop-get_elem?-none, Bool-cases, Option-cases,
}
use nervusdb.Base.OrdMap.{contains}
use nervusdb.Api.Edge.{EdgeKey, node_key, edge_key}
use nervusdb.Csr.{CsrSegment}
use nervusdb.Neighbors.{
  Direction, NeighborsIter, extend, yielded, continued, ended, Round, segment_round, round,
  continue_from, load_segment,
}
use nervusdb.Neighbors.Reference.{
  unblocked, found_edges, Answers, from_segments, from_runs, segment_tail, remaining, cost,
  IsRunning,
}
use nervusdb.Neighbors.Rounds.{
  IsSound, settled, hides, round-segment, remaining-segment, edge_round-IsSound, stop_round-IsSound,
  run_step-IsSound,
}

-- What is left once the edges of the last run are used up.
remaining-past :
    (d : Direction) (t : NeighborsIter)
    → get_elem? t.current_edges t.edge_idx ≡ none
    → get_elem? t.runs t.run_idx ≡ none
    → contains t.node (extend t.blocked_nodes t.pending_tombstoned_nodes) ≡ false
    → remaining d t
      ≡ segment_tail d t
          (extend t.blocked_nodes t.pending_tombstoned_nodes)
          (extend t.blocked_edges t.pending_tombstoned_edges)
unfolding remaining from_runs
remaining-past d t c r e =
    rw (drop-get_elem?-none t.current_edges t.edge_idx c, drop-get_elem?-none t.runs t.run_idx r, e)

module _ (d : Direction) (s : NeighborsIter) (v : IsRunning d s)
    (h : get_elem? s.current_edges s.edge_idx ≡ none) (f : hides d s v h ≡ false)
    (g : get_elem? s.runs s.run_idx ≡ none) where
  module _ (edge : EdgeKey)
      (k : get_elem? s.current_segment_edges s.segment_edge_idx ≡ some edge) where
    abbrev past : NeighborsIter
    past = record (settled d s) { segment_edge_idx = s.segment_edge_idx + 1 }

    abbrev shown : Bool
    shown = unblocked d s.node s.rel (settled d s).blocked_nodes (settled d s).blocked_edges edge

    round-shown : round d s ≡ (if shown then yielded edge past else continued past)
    unfolding segment_round unblocked
    round-shown = round-segment d s v h f g ∙ ground (arith, k)

    remaining-shown : remaining d s ≡ (if shown then edge ∷ remaining d past else remaining d past)
    unfolding segment_tail extend
    remaining-shown =
        let e = drop-get_elem?-some s.current_segment_edges s.segment_edge_idx k in
        remaining-segment d s v h f g ∙ elim (Bool-cases shown) [
          | inl t ↦ rw (remaining-past d past h g f, e, t) refl
          | inr t ↦ rw (remaining-past d past h g f, e, t) refl
        ]

    cost-past : cost d past < cost d s
    unfolding cost
    cost-past = rw (drop-get_elem?-some s.current_segment_edges s.segment_edge_idx k) (omega arith)

    segment_edge-IsSound : IsSound d s (round d s)
    segment_edge-IsSound =
        let running : IsRunning d past = record {
          going = f;
          visible = f;
          answering = v.answering;
        } in
        elim (Bool-cases shown) [
          | inl t ↦ rw (round-shown, t) (rw (remaining-shown, t) refl, running, cost-past)
          | inr t ↦ rw (round-shown, t) (rw (remaining-shown, t) refl, running, cost-past)
        ]

  module _ (k : get_elem? s.current_segment_edges s.segment_edge_idx ≡ none) where
    end-IsSound : get_elem? s.segments s.segment_idx ≡ none → IsSound d s (round d s)
    unfolding segment_round segment_tail from_segments
    end-IsSound l =
        let e : round d s ≡ ended (record (settled d s) { terminated = true }) =
          round-segment d s v h f g ∙ rw (k, l, segment_round) refl in
        let nothing =
          rw
            (
              drop-get_elem?-none s.current_segment_edges s.segment_edge_idx k,
              drop-get_elem?-none s.segments s.segment_idx l,
            )
            at (remaining-segment d s v h f g) in
        rw e (nothing, refl)

    module _ (seg : CsrSegment) (l : get_elem? s.segments s.segment_idx ≡ some seg) where
      left : All (Answers d s.node s.rel) (seg ∷ drop (s.segment_idx + 1) s.segments)
      left = rw (drop-get_elem?-some s.segments s.segment_idx l) at v.answering

      abbrev next_segment : NeighborsIter
      next_segment = record (settled d s) {
        current_segment_edges = found_edges d s.node s.rel seg;
        segment_edge_idx = 0;
        segment_idx = s.segment_idx + 1;
      }

      load_segment-settled : load_segment d (settled d s) ≡ (
          d.segment_edges seg s.node s.rel >>= λ edges.
          ok (record (settled d s) { current_segment_edges = edges; segment_edge_idx = 0 }))
      unfolding load_segment
      load_segment-settled = rw (l, load_segment) refl

      loaded :
          load_segment d (settled d s)
          ≡ ok (record (settled d s) {
            current_segment_edges = found_edges d s.node s.rel seg;
            segment_edge_idx = 0;
          })
      loaded =
          load_segment-settled
          ∙ ap
              (λ r. r >>= λ edges.
                ok (record (settled d s) { current_segment_edges = edges; segment_edge_idx = 0 }))
              (left.0)

      segment_round-settled :
          segment_round d (settled d s)
          ≡ continue_from (
              load_segment d (settled d s) >>= λ s'.
              ok (record s' { segment_idx = s'.segment_idx + 1 }))
      unfolding segment_round
      segment_round-settled = rw (k, l, segment_round) refl

      round-next_segment : round d s ≡ continued next_segment
      unfolding continue_from
      round-next_segment =
          let advanced : Storage NeighborsIter → Round =
            λ r. continue_from (r >>= λ s'. ok (record s' { segment_idx = s'.segment_idx + 1 })) in
          round-segment d s v h f g ∙ (segment_round-settled ∙ ap advanced loaded)

      remaining-next_segment : remaining d s ≡ remaining d next_segment
      unfolding segment_tail from_segments extend
      remaining-next_segment =
          remaining-segment d s v h f g
          ∙ rw
              (
                remaining-past d next_segment h g f,
                drop-get_elem?-none s.current_segment_edges s.segment_edge_idx k,
                drop-get_elem?-some s.segments s.segment_idx l,
              )
              refl

      cost-next_segment : cost d next_segment < cost d s
      unfolding cost
      cost-next_segment =
          rw
            (
              drop-get_elem?-none s.current_segment_edges s.segment_edge_idx k,
              drop-get_elem?-some s.segments s.segment_idx l,
            )
            (omega arith)

      next_segment-IsSound : IsSound d s (round d s)
      next_segment-IsSound = rw round-next_segment (
        remaining-next_segment,
        record { going = f; visible = f; answering = left.1 },
        cost-next_segment,
      )

pub round-IsSound : (d : Direction) (s : NeighborsIter) → IsRunning d s → IsSound d s (round d s)
round-IsSound d s v = elim (Option-cases (get_elem? s.current_edges s.edge_idx)) [
  | inr (edge, h) ↦ edge_round-IsSound d s edge h v
  | inl h ↦ elim (Bool-cases (hides d s v h)) [
    | inl t ↦ stop_round-IsSound d s v h t
    | inr f ↦ elim (Option-cases (get_elem? s.runs s.run_idx)) [
      | inr (run, g) ↦ run_step-IsSound d s v h f run g
      | inl g ↦ elim (Option-cases (get_elem? s.current_segment_edges s.segment_edge_idx)) [
        | inr (edge, k) ↦ segment_edge-IsSound d s v h f g edge k
        | inl k ↦ elim (Option-cases (get_elem? s.segments s.segment_idx)) [
          | inl l ↦ end-IsSound d s v h f g k l
          | inr (seg, l) ↦ next_segment-IsSound d s v h f g k seg l
        ]
      ]
    ]
  ]
]
