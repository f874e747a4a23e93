-- ===== src/Neighbors/Rounds.antt =====
-- One round of the iterators' loop against what is left to yield.
use nervusdb.Base.{ℕ, ◌+◌, ◌<◌, Bool, true, false, ◌≡◌, refl, ap, ◌∙◌}
use nervusdb.Base.{List, [], ◌∷◌, Option, none, some, arith, inl, inr}
use nervusdb.Base.{
  if◌then◌else◌, drop, get_elem?, drop-get_elem?-some, drop-get_elem?-none, Bool-cases,
}
use nervusdb.Base.OrdMap.{Set, contains}
use nervusdb.Api.Edge.{EdgeKey, node_key, edge_key}
use nervusdb.Run.{L0Run}
use nervusdb.Neighbors.{
  Direction, NeighborsIter, extend, apply_pending_tombstones, Round, yielded, continued, ended,
  panicked, segment_round, next_run_round, round,
}
use nervusdb.Neighbors.Reference.{
  wanted, own_edges, from_runs, segment_tail, remaining, cost, IsRunning,
}

module _ (d : Direction) where
  -- What a round has to do, by its outcome.
  abbrev pub IsSound : NeighborsIter → Round → Type 0
  IsSound s (yielded e s') =
      (remaining d s ≡ e ∷ remaining d s') × IsRunning d s' × (cost d s' < cost d s)
  IsSound s (continued s') =
      (remaining d s ≡ remaining d s') × IsRunning d s' × (cost d s' < cost d s)
  IsSound s (ended s') = (remaining d s ≡ []) × (s'.terminated ≡ true)
  IsSound s panicked = ⊥

  module _ (s : NeighborsIter) (edge : EdgeKey)
      (h : get_elem? s.current_edges s.edge_idx ≡ some edge) where
    abbrev past_edge : NeighborsIter
    past_edge = record s { edge_idx = s.edge_idx + 1 }

    cost-past_edge : cost d past_edge < cost d s
    unfolding cost
    cost-past_edge = rw (drop-get_elem?-some s.current_edges s.edge_idx h) (omega arith)

    remaining-past_edge : remaining d s ≡ (
        if wanted d s.node s.rel s.blocked_nodes s.blocked_edges edge
        then edge ∷ remaining d past_edge
        else remaining d past_edge)
    unfolding remaining
    remaining-past_edge =
        let e = drop-get_elem?-some s.current_edges s.edge_idx h in
        elim (Bool-cases (wanted d s.node s.rel s.blocked_nodes s.blocked_edges edge)) [
          | inl t ↦ rw (e, t) refl
          | inr f ↦ rw (e, f) refl
        ]

    round-past_edge : round d s ≡ (
        if wanted d s.node s.rel s.blocked_nodes s.blocked_edges edge
        then yielded edge past_edge
        else continued past_edge)
    unfolding round wanted
    round-past_edge = ground (arith, h)

    running : IsRunning d s → IsRunning d past_edge
    running v = record { going = v.going; visible = v.visible; answering = v.answering }

    pub edge_round-IsSound : IsRunning d s → IsSound s (round d s)
    edge_round-IsSound v =
        elim (Bool-cases (wanted d s.node s.rel s.blocked_nodes s.blocked_edges edge)) [
          | inl t ↦
              rw (round-past_edge, t) (rw (remaining-past_edge, t) refl, running v, cost-past_edge)
          | inr f ↦
              rw (round-past_edge, f) (rw (remaining-past_edge, f) refl, running v, cost-past_edge)
        ]

  -- The state with its pending tombstones in force.
  abbrev pub settled : NeighborsIter → NeighborsIter
  settled s =
      let nodes = extend s.blocked_nodes s.pending_tombstoned_nodes in
      record s {
        blocked_nodes = nodes;
        blocked_edges = extend s.blocked_edges s.pending_tombstoned_edges;
        pending_tombstoned_nodes = [];
        pending_tombstoned_edges = [];
        terminated = contains s.node nodes;
      }

  apply_pending-settled :
      (s : NeighborsIter) → IsRunning d s → apply_pending_tombstones s ≡ settled s
  unfolding apply_pending_tombstones extend
  apply_pending-settled s v = ground arith

  from_runs-stop :
      (node : ℕ) (rel : Option ℕ) (rest : Set ℕ → Set EdgeKey → List EdgeKey) (runs : List L0Run)
      (nodes : Set ℕ) (edges : Set EdgeKey)
      → contains node nodes ≡ true
      → from_runs d node rel rest runs nodes edges ≡ []
  unfolding from_runs
  from_runs-stop node rel rest [] nodes edges h = rw h
  from_runs-stop node rel rest (run ∷ runs) nodes edges h = rw h

  module _ (s : NeighborsIter) (v : IsRunning d s)
      (h : get_elem? s.current_edges s.edge_idx ≡ none) where
    abbrev pub hides : Bool
    hides = contains s.node (extend s.blocked_nodes s.pending_tombstoned_nodes)

    round-settled : round d s ≡ next_run_round d (settled s)
    unfolding round
    round-settled = rw (h, round) (ap (next_run_round d) (apply_pending-settled s v))

    remaining-settled :
        remaining d s
        ≡ from_runs d s.node s.rel
            (segment_tail d s)
            (drop s.run_idx s.runs)
            (extend s.blocked_nodes s.pending_tombstoned_nodes)
            (extend s.blocked_edges s.pending_tombstoned_edges)
    unfolding remaining
    remaining-settled = rw (drop-get_elem?-none s.current_edges s.edge_idx h) refl

    pub stop_round-IsSound : hides ≡ true → IsSound s (round d s)
    unfolding next_run_round
    stop_round-IsSound t =
        let e : round d s ≡ ended (settled s) = round-settled ∙ ground (arith, t) in
        rw e (remaining-settled ∙ from_runs-stop s.node s.rel (segment_tail d s) _ _ _ t, t)

    module _ (f : hides ≡ false) where
      module _ (run : L0Run) (g : get_elem? s.runs s.run_idx ≡ some run) where
        abbrev next_run : NeighborsIter
        next_run = record (settled s) {
          current_edges = own_edges d s.node run;
          edge_idx = 0;
          pending_tombstoned_nodes = extend [] run.tombstoned_nodes;
          pending_tombstoned_edges = extend [] run.tombstoned_edges;
          run_idx = s.run_idx + 1;
        }

        round-next_run : round d s ≡ continued next_run
        unfolding next_run_round own_edges
        round-next_run = round-settled ∙ rw (g, next_run_round) (ground (arith, f))

        remaining-next_run : remaining d s ≡ remaining d next_run
        unfolding from_runs
        remaining-next_run =
            remaining-settled
            ∙ rw (drop-get_elem?-some s.runs s.run_idx g, f) (unfold remaining in refl)

        cost-next_run : cost d next_run < cost d s
        unfolding cost
        cost-next_run =
            rw
              (
                drop-get_elem?-some s.runs s.run_idx g,
                drop-get_elem?-none s.current_edges s.edge_idx h,
              )
              (omega arith)

        pub run_step-IsSound : IsSound s (round d s)
        run_step-IsSound = rw round-next_run (
          remaining-next_run,
          record { going = f; visible = f; answering = v.answering },
          cost-next_run,
        )

      module _ (g : get_elem? s.runs s.run_idx ≡ none) where
        pub round-segment : round d s ≡ segment_round d (settled s)
        unfolding next_run_round
        round-segment = round-settled ∙ ground (arith, g, f)

        pub remaining-segment :
            remaining d s
            ≡ segment_tail d s
                (extend s.blocked_nodes s.pending_tombstoned_nodes)
                (extend s.blocked_edges s.pending_tombstoned_edges)
        unfolding from_runs
        remaining-segment = remaining-settled ∙ rw (drop-get_elem?-none s.runs s.run_idx g, f) refl
