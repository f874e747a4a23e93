-- ===== src/Neighbors/Collect.antt =====
-- Running a neighbour iterator to its end yields the reference, in as many rounds as `cost` counts.
use nervusdb.Base.{ℕ, zero, suc, ◌+◌, ◌<◌, true, ◌≡◌, refl, ◌∙◌}
use nervusdb.Base.{List, [], ◌∷◌, Option, none, some, arith}
use nervusdb.Base.OrdMap.{contains}
use nervusdb.Api.Edge.{EdgeKey, node_key}
use nervusdb.Run.{L0Run}
use nervusdb.Base.{All, ok, err, panic, ◌>>=◌}
use nervusdb.Error.{Storage}
use nervusdb.Csr.{CsrSegment}
use nervusdb.Neighbors.{
  Direction, NeighborsIter, extend, Round, yielded, continued, ended, panicked, round, next_loop,
  next, new,
}
use nervusdb.Neighbors.Reference.{
  runs_cost, segments_cost, reference, segment_tail, remaining, cost, IsRunning, Answers,
}
use nervusdb.Neighbors.Rounds.{IsSound}
use nervusdb.Neighbors.SegmentRounds.{round-IsSound}

unfoldable with_edge : EdgeKey → Option (Storage (List EdgeKey)) → Option (Storage (List EdgeKey))
with_edge edge none = none
with_edge edge (some rest) = some (rest >>= λ edges. ok (edge ∷ edges))

module _ (d : Direction) where
  -- `while let Some(edge) = iter.next()`: `fuel` bounds the calls and the rounds of each.
  unfoldable pub collect : ℕ → ℕ → NeighborsIter → Option (Storage (List EdgeKey))
  unfolding next with_edge
  collect zero rounds s = none
  collect (suc calls) rounds s = elim (next d rounds s) [
    | none ↦ none
    | some answer ↦ elim answer [
      | panic ↦ some panic
      | err e ↦ some (err e)
      | ok (found, s') ↦ elim found [
        | none ↦ some (ok [])
        | some edge ↦ with_edge edge (collect calls rounds s')
      ]
    ]
  ]

  -- What a call of `next` comes to.
  abbrev NextIsSound : NeighborsIter → Option (Storage (Option EdgeKey × NeighborsIter)) → Type 0
  NextIsSound s none = ⊥
  NextIsSound s (some (err e)) = ⊥
  NextIsSound s (some panic) = ⊥
  NextIsSound s (some (ok (none, s'))) = (remaining d s ≡ []) × (s'.terminated ≡ true)
  NextIsSound s (some (ok (some e, s'))) =
      (remaining d s ≡ e ∷ remaining d s') × IsRunning d s' × (cost d s' < cost d s)

  next_loop-IsSound :
      (fuel : ℕ) (s : NeighborsIter)
      → IsRunning d s
      → cost d s < fuel
      → NextIsSound s (next_loop d fuel s)
  unfolding next_loop
  next_loop-IsSound zero s v h = absurd (omega arith)
  next_loop-IsSound (suc fuel) s v h = go (next_loop-IsSound fuel) (round d s) (round-IsSound d s v)
    where
      later :
          (s' : NeighborsIter) (r : Option (Storage (Option EdgeKey × NeighborsIter)))
          → remaining d s ≡ remaining d s'
          → cost d s' < cost d s
          → NextIsSound s' r
          → NextIsSound s r
      later s' none e c n = n
      later s' (some (err x)) e c n = n
      later s' (some panic) e c n = n
      later s' (some (ok (none, t))) e c n = (e ∙ n.0, n.1)
      later s' (some (ok (some x, t))) e c n = (e ∙ n.0, n.1, omega arith)

      go :
          ((t : NeighborsIter)
            → IsRunning d t
            → cost d t < fuel
            → NextIsSound t (next_loop d fuel t))
          → (r : Round) → IsSound d s r
          → NextIsSound s (elim r [
            | yielded edge s' ↦ some (ok (some edge, s'))
            | continued s' ↦ next_loop d fuel s'
            | ended s' ↦ some (ok (none, s'))
            | panicked ↦ some panic
          ])
      go ih (yielded e s') n = n
      go ih (continued s') n = later s' (next_loop d fuel s') n.0 n.2 (ih s' n.1 (omega arith))
      go ih (ended s') n = n
      go ih panicked n = absurd n

  next-IsSound :
      (fuel : ℕ) (s : NeighborsIter)
      → IsRunning d s
      → cost d s < fuel
      → NextIsSound s (next d fuel s)
  unfolding next
  next-IsSound fuel s v h = simp v.going (next_loop-IsSound fuel s v h)

  collect-remaining :
      (calls rounds : ℕ) (s : NeighborsIter)
      → IsRunning d s
      → cost d s < calls
      → cost d s < rounds
      → collect calls rounds s ≡ some (ok (remaining d s))
  unfolding collect
  collect-remaining zero rounds s v h k = absurd (omega arith)
  collect-remaining (suc calls) rounds s v h k =
      go (collect-remaining calls rounds) (next d rounds s) (next-IsSound rounds s v k)
    where
      go :
          ((t : NeighborsIter)
            → IsRunning d t
            → cost d t < calls
            → cost d t < rounds
            → collect calls rounds t ≡ some (ok (remaining d t)))
          → (r : Option (Storage (Option EdgeKey × NeighborsIter))) → NextIsSound s r
          → elim r [
            | none ↦ none
            | some answer ↦ elim answer [
              | panic ↦ some panic
              | err e ↦ some (err e)
              | ok (found, s') ↦ elim found [
                | none ↦ some (ok [])
                | some edge ↦ with_edge edge (collect calls rounds s')
              ]
            ]
          ]
            ≡ some (ok (remaining d s))
      go ih none n = absurd n
      go ih (some (err e)) n = absurd n
      go ih (some panic) n = absurd n
      go ih (some (ok (none, t))) n = rw n.0 refl
      go ih (some (ok (some x, t))) n =
          rw (n.0, ih t n.1 (omega arith) (omega arith), with_edge) refl

  -- The rounds that an iterator over these runs and segments needs at most.
  unfoldable pub total_cost : List L0Run → List CsrSegment → ℕ → Option ℕ → ℕ
  unfolding runs_cost segments_cost
  total_cost runs segs node rel = runs_cost d node runs + segments_cost d node rel segs

  -- Where no lookup of the node in a segment panics, an iterator that is run to its end with fuel above the
  -- cost, in either direction, yields the reference without a panic.
  pub collect-new :
      (runs : List L0Run) (segs : List CsrSegment) (node : ℕ) (rel : Option ℕ) (fuel : ℕ)
      → All (Answers d node rel) segs
      → total_cost runs segs node rel < fuel
      → collect fuel fuel (new runs segs node rel) ≡ some (ok (reference d node rel runs segs))
  unfolding total_cost new remaining cost reference segment_tail extend contains
  collect-new runs segs node rel fuel a h =
      collect-remaining fuel fuel (new runs segs node rel)
        (record { going = refl; visible = refl; answering = a }) (omega arith) (omega arith)
