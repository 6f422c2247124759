-- ===== src/Core/Graph/Frontiers/Fuel.antt =====
-- How long the worklist of `validate_subgraph_frontiers` in crates/group-agent-core/src/graph.rs
-- runs.
use group.Prelude.{
  Bool-cases, length, List-cases, is_empty, nat_eq, string_eq, bool_eq, option_eq, list_eq, Result,
  Result-cases, ok, err, ℕ, zero, suc, ◌*◌, ◌≤◌, ◌≡◌, refl, inl, inr, not, ◌&&◌, ◌||◌, some, [],
  arith,
}
use native.Mathlib.Nat.{le_trans}
use group.Core.Graph.{StateGraph, GraphCompileError}
use group.Core.Graph.Edges.{EdgeAggregation}
use group.Core.Graph.Frontiers.{
  Worklist, drain, next_frontiers, enqueue_each, declared_frontiers, has_mount,
  validate_subgraph_frontiers,
}
use group.Core.Graph.Frontiers.Targets.{mentioned, Within-declared_frontiers, Within-next_frontiers}
use group.Core.Graph.Frontiers.Measure.{
  measure, enqueue_each-measure, missing-le-length, product, length-product,
}

abbrev pub Answer : Type 0
Answer = Result (Unit {0}) GraphCompileError

module _ {S E N : Type 0} (graph : StateGraph S E N) (edges : EdgeAggregation S E) where
  -- One for each pair of targets that the edges name.
  abbrev pub pair_bound : ℕ
  pair_bound = length (mentioned graph edges) * length (mentioned graph edges)

  abbrev left : Worklist → ℕ
  left = measure (mentioned graph edges)

  -- A loop that has fuel enough ends.
  drain-ends :
      (fuel : ℕ) (list : Worklist)
      → left list ≤ fuel
      → (answer : Answer) × (drain graph edges fuel list ≡ some answer)
  unfolding drain measure
  drain-ends zero list h = elim (List-cases list.work) [
    | inl e ↦ (ok tt, rw (e, drain) refl)
    | inr (p, rest, e) ↦ absurd (ground arith)
  ]
  drain-ends (suc fuel) list h = elim (List-cases list.work) [
    | inl e ↦ (ok tt, rw (e, drain) refl)
    | inr (p, rest, e) ↦
        let popped : Worklist = record list { work = rest } in
        elim (Result-cases (enqueue_each graph.items (next_frontiers graph edges p) popped)) [
          | inr (reason, f) ↦ (err reason, rw (e, f, drain) refl)
          | inl (after, f) ↦
              let step =
                enqueue_each-measure (mentioned graph edges) graph.items
                  (next_frontiers graph edges p) popped after (Within-next_frontiers graph edges p)
                  f in
              let (answer, g) = drain-ends fuel after (ground (arith, step)) in
              (answer, rw (e, f, drain) g)
        ]
  ]

  -- More fuel gives the same answer.
  drain-more :
      (fuel more : ℕ) (list : Worklist) (answer : Answer)
      → drain graph edges fuel list ≡ some answer
      → fuel ≤ more
      → drain graph edges more list ≡ some answer
  unfolding drain
  drain-more zero zero list answer h l = h
  drain-more zero (suc more) list answer h l = elim (List-cases list.work) [
    | inl e ↦ rw (e, drain) (rw (e, drain) at h)
    | inr (p, rest, e) ↦ absurd (ground arith)
  ]
  drain-more (suc fuel) zero list answer h l = absurd (ground arith)
  drain-more (suc fuel) (suc more) list answer h l = elim (List-cases list.work) [
    | inl e ↦ rw (e, drain) (rw (e, drain) at h)
    | inr (p, rest, e) ↦
        let popped : Worklist = record list { work = rest } in
        elim (Result-cases (enqueue_each graph.items (next_frontiers graph edges p) popped)) [
          | inr (reason, f) ↦ rw (e, f, drain) (rw (e, f, drain) at h)
          | inl (after, f) ↦
              rw (e, f, drain)
                (drain-more fuel more after answer (rw (e, f, drain) at h) (omega (arith, l)))
        ]
  ]

  abbrev start_list : Worklist
  start_list = record { queued = []; work = [] }

  start-le-pair_bound : left start_list ≤ pair_bound
  unfolding measure
  start-le-pair_bound =
      let known = mentioned graph edges in
      omega (arith, missing-le-length [] (product known known), length-product known known)

  -- The check of parallel frontiers ends: it has one answer, and gives it with every fuel that is
  -- at least the square of the number of targets that the edges name.
  pub validate_subgraph_frontiers_total :
      (answer : Answer) × ((fuel : ℕ)
        → pair_bound ≤ fuel
        → validate_subgraph_frontiers graph edges fuel ≡ some answer)
  unfolding validate_subgraph_frontiers
  validate_subgraph_frontiers_total =
      elim (Bool-cases (
        not (has_mount graph edges graph.items)
        || is_empty edges.fan_out_by_source && is_empty edges.conditional_fan_out_by_source)) [
          | inl e ↦ (ok tt, λ fuel h. rw (e, validate_subgraph_frontiers) refl)
          | inr e ↦
              elim (Result-cases
                (enqueue_each graph.items (declared_frontiers graph edges) start_list)) [
                  | inr (reason, f) ↦
                      (err reason, λ fuel h. rw (e, f, validate_subgraph_frontiers) refl)
                  | inl (list, f) ↦
                      let first =
                        enqueue_each-measure (mentioned graph edges) graph.items
                          (declared_frontiers graph edges) start_list list
                          (Within-declared_frontiers graph edges) f in
                      let (answer, g) =
                        drain-ends pair_bound list (le_trans first start-le-pair_bound) in
                      (
                        answer,
                        λ fuel h.
                            rw (e, f, validate_subgraph_frontiers)
                              (drain-more pair_bound fuel list answer g h),
                      )
                ]
        ]
