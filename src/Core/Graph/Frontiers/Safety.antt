-- ===== src/Core/Graph/Frontiers/Safety.antt =====
-- What the acceptance by `validate_subgraph_frontiers` in crates/group-agent-core/src/graph.rs
-- guarantees.
use group.Prelude.{
  Bool-cases, All, List-cases, All-found, nat_eq, string_eq, bool_eq, option_eq, list_eq, contains,
  Result-cases, ok, ℕ, zero, suc, ◌≡◌, ◌⊎◌, inl, inr, true, some, List, ◌∷◌, arith,
}
use group.Core.Graph.{StateGraph}
use group.Core.Graph.Edges.{EdgeAggregation}
use group.Core.Graph.Frontiers.{
  Worklist, canonical_pair, pair_eq, pair_beq, pair_beq_iff, enqueue_each, next_frontiers,
  declared_frontiers, drain,
}
use group.Core.Graph.Frontiers.Measure.{Pair}
use group.Core.Graph.Frontiers.Reach.{parallel, Reached, declared, follows}
use group.Core.Graph.Frontiers.Growth.{Grew, Fine, Covered, Covered-Grew, enqueue_each-Covered}

module _ {S E N : Type 0} (graph : StateGraph S E N) (edges : EdgeAggregation S E) where
  -- A queued pair is to visit, or all that follows it is queued.
  abbrev pub IsPending : Worklist → Type 0
  IsPending list =
      (q : Pair)
      → contains q list.queued ≡ true
      → (contains q list.work ≡ true)
        ⊎ Covered graph.items list.queued (next_frontiers graph edges q)

  -- A set of pairs that is closed under what follows them.
  pub record Closed (queued : List Pair) : Type 0 where
    pub start : Covered graph.items queued (declared_frontiers graph edges)
    pub next :
        (q : Pair)
        → contains q queued ≡ true
        → Covered graph.items queued (next_frontiers graph edges q)

  IsPending-step :
      (p : Pair) (rest : List Pair) (list after : Worklist)
      → list.work ≡ p ∷ rest
      → IsPending list
      → enqueue_each graph.items (next_frontiers graph edges p) (record list { work = rest })
        ≡ ok after
      → IsPending after × Grew (record list { work = rest }) after
  unfolding contains
  IsPending-step p rest list after e pending h =
      let popped : Worklist = record list { work = rest } in
      let (covered, grew) =
        enqueue_each-Covered graph.items (next_frontiers graph edges p) popped after h in
      (
        λ q k. elim (grew.new q k) [
          | inr w ↦ inl w
          | inl old ↦ elim (pending q old) [
            | inr c ↦
                inr (Covered-Grew graph.items popped after (next_frontiers graph edges q) grew c)
            | inl w ↦ elim (Bool-cases (pair_beq p q)) [
              | inl same ↦ inr (rw (← (pair_beq_iff p q).0 same) covered)
              | inr other ↦ inl (grew.work q (ground arith))
            ]
          ]
        ],
        grew,
      )

  pub drain-Closed :
      (fuel : ℕ) (list : Worklist)
      → IsPending list
      → Covered graph.items list.queued (declared_frontiers graph edges)
      → drain graph edges fuel list ≡ some (ok tt)
      → (queued : List Pair) × Closed queued
  unfolding drain contains
  drain-Closed zero list pending start h = elim (List-cases list.work) [
    | inl e ↦ (
      list.queued,
      record {
        start = start;
        next = λ q k. elim (pending q k) [ inl w ↦ absurd (ground arith) | inr c ↦ c ];
      },
    )
    | inr (p, rest, e) ↦ absurd (ground arith)
  ]
  drain-Closed (suc fuel) list pending start h = elim (List-cases list.work) [
    | inl e ↦ (
      list.queued,
      record {
        start = start;
        next = λ q k. elim (pending q k) [ inl w ↦ absurd (ground arith) | inr c ↦ c ];
      },
    )
    | inr (p, rest, e) ↦
        let popped : Worklist = record list { work = rest } in
        elim (Result-cases (enqueue_each graph.items (next_frontiers graph edges p) popped)) [
          | inr (reason, f) ↦ absurd (ground arith)
          | inl (after, f) ↦
              let (still, grew) = IsPending-step p rest list after e pending f in
              drain-Closed fuel after still
                (Covered-Grew graph.items popped after (declared_frontiers graph edges) grew start)
                (rw (e, f, drain) at h)
        ]
  ]

  -- A closed set holds every pair that is reached.
  pub Closed-Reached :
      (queued : List Pair) (p : Pair)
      → Closed queued
      → Reached graph edges p
      → Fine graph.items queued p
  Closed-Reached queued p c (declared frontier _ m n) =
      All-found (Fine graph.items queued) p (parallel frontier) n (
        All-found (λ f. All (Fine graph.items queued) (parallel f)) frontier
          (declared_frontiers graph edges) m c.start)
  Closed-Reached queued p c (follows q frontier _ r m n) =
      let old = Closed-Reached queued q c r in
      All-found (Fine graph.items queued) p (parallel frontier) n (
        All-found (λ f. All (Fine graph.items queued) (parallel f)) frontier
          (next_frontiers graph edges (canonical_pair q.0 q.1)) m
          (c.next (canonical_pair q.0 q.1) old.found))
