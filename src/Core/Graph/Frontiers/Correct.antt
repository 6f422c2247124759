-- ===== src/Core/Graph/Frontiers/Correct.antt =====
-- `validate_subgraph_frontiers` of crates/group-agent-core/src/graph.rs decides whether a mounted
-- subgraph can run beside another node.
use group.Prelude.{
  Bool-cases, Option-cases, is_empty, Among, Among-nil, Map, get, nat_eq, string_eq, bool_eq,
  option_eq, list_eq, contains, Result-cases, ok, err, ℕ, ◌≤◌, ◌≡◌, refl, subst, ◌↔◌, inl, inr,
  true, false, ◌&&◌, some, [], ◌∷◌, arith,
}
use group.Core.Path.{NodeId}
use group.Core.Graph.{
  StateGraph, GraphCompileError, DeclaredItem, declared_node, declared_subgraph, CompiledGraph,
}
use group.Core.Graph.Edges.{EdgeAggregation, aggregate_edges}
use group.Core.Graph.Edges.Parts.{
  aggregate_edges-Parts, aggregate_fan_out-empty, aggregate_conditional_fan_out-empty,
}
use group.Core.Graph.Frontiers.{
  Worklist, enqueue_each, declared_frontiers, has_mount, is_mount, pair_eq,
  validate_subgraph_frontiers,
}
use group.Core.Graph.Frontiers.Fuel.{pair_bound, validate_subgraph_frontiers_total}
use group.Core.Graph.Frontiers.Measure.{Pair}
use group.Core.Graph.Frontiers.Reach.{Reached, declared, follows}
use group.Core.Graph.Frontiers.Concurrent.{Concurrent}
use group.Core.Graph.Frontiers.Steps.{Concurrent-swapped, Reached-Concurrent, Concurrent-Reached}
use group.Core.Graph.Frontiers.Growth.{enqueue_each-Covered}
use group.Core.Graph.Frontiers.Safety.{drain-Closed, Closed-Reached}
use group.Core.Graph.Frontiers.Refusal.{
  Conflict, enqueue_declared-Conflict, enqueue_declared-IsTraced, drain-Conflict,
}

module _ {S E N : Type 0} (graph : StateGraph S E N) (edges : EdgeAggregation S E) where
  -- Neither node is a mounted subgraph.
  abbrev pub MountFree : Pair → Type 0
  MountFree p = (is_mount graph.items p.0 ≡ false) × (is_mount graph.items p.1 ≡ false)

  has_mount-is_mount :
      (items : Map NodeId (DeclaredItem S E N)) (id : NodeId)
      → has_mount graph edges items ≡ false
      → is_mount items id ≡ false
  unfolding has_mount is_mount get
  has_mount-is_mount [] id h = refl
  has_mount-is_mount ((j, item) ∷ items) id h = ground (arith, has_mount-is_mount items id)

  no_fan_outs :
      aggregate_edges graph ≡ ok edges
      → is_empty edges.fan_out_by_source ≡ true
      → is_empty edges.conditional_fan_out_by_source ≡ true
      → declared_frontiers graph edges ≡ []
  no_fan_outs h a b =
      let parts = aggregate_edges-Parts graph edges h in
      let e =
        aggregate_fan_out-empty graph.items graph.fan_out_edges edges.fan_out_by_source
          parts.fan_out a in
      let f =
        aggregate_conditional_fan_out-empty graph.items graph.conditional_fan_out_edges
          edges.conditional_fan_out_by_source parts.conditional_fan_out b in
      rw (e, f) refl

  Reached-none : (p : Pair) → declared_frontiers graph edges ≡ [] → Reached graph edges p → ⊥
  Reached-none p e (declared f _ m n) = Among-nil f (subst (Among f) e m)
  Reached-none p e (follows q f _ r m n) = Reached-none q e r

  abbrev start_list : Worklist
  start_list = record { queued = []; work = [] }

  accepted-MountFree :
      (fuel : ℕ) (p : Pair)
      → aggregate_edges graph ≡ ok edges
      → validate_subgraph_frontiers graph edges fuel ≡ some (ok tt)
      → Reached graph edges p
      → MountFree p
  unfolding validate_subgraph_frontiers contains
  accepted-MountFree fuel p agg h r = elim (Bool-cases (has_mount graph edges graph.items)) [
    | inr e ↦ (has_mount-is_mount graph.items p.0 e, has_mount-is_mount graph.items p.1 e)
    | inl e ↦
        elim (Bool-cases
          (is_empty edges.fan_out_by_source && is_empty edges.conditional_fan_out_by_source)) [
            | inl f ↦
                absurd (Reached-none p (no_fan_outs agg (ground (arith, f)) (ground (arith, f))) r)
            | inr f ↦
                elim (Result-cases
                  (enqueue_each graph.items (declared_frontiers graph edges) start_list)) [
                    | inr (reason, g) ↦ absurd (ground arith)
                    | inl (list, g) ↦
                        let (covered, grew) =
                          enqueue_each-Covered graph.items (declared_frontiers graph edges)
                            start_list list g in
                        let (queued, closed) =
                          drain-Closed graph edges fuel list
                            (λ q k. elim (grew.new q k) [
                              | inl old ↦ absurd (ground arith)
                              | inr w ↦ inl w
                            ])
                            covered (ground arith) in
                        let fine = Closed-Reached graph edges queued p closed r in
                        (fine.left, fine.right)
                  ]
          ]
  ]

  refused-Conflict :
      (fuel : ℕ) (reason : GraphCompileError)
      → validate_subgraph_frontiers graph edges fuel ≡ some (err reason)
      → Conflict graph edges
  unfolding validate_subgraph_frontiers
  refused-Conflict fuel reason h =
      elim (Result-cases (enqueue_each graph.items (declared_frontiers graph edges) start_list)) [
        | inr (why, g) ↦ enqueue_declared-Conflict graph edges start_list why g
        | inl (list, g) ↦
            drain-Conflict graph edges fuel list reason
              (enqueue_declared-IsTraced graph edges start_list list refl g) (ground arith)
      ]

  -- A mounted subgraph stands under this identifier.
  abbrev pub IsMounted : NodeId → Type 0
  IsMounted id =
      (inner : CompiledGraph S E N) × (get id graph.items ≡ some (declared_subgraph inner))

  IsMounted-is_mount : (id : NodeId) → IsMounted id → is_mount graph.items id ≡ true
  unfolding is_mount
  IsMounted-is_mount id (inner, e) = rw (e, is_mount) refl

  is_mount-IsMounted : (id : NodeId) → is_mount graph.items id ≡ true → IsMounted id
  unfolding is_mount
  is_mount-IsMounted id h = elim (Option-cases (get id graph.items)) [
    | inl e ↦ absurd (ground arith)
    | inr (declared_node n, e) ↦ absurd (ground arith)
    | inr (declared_subgraph inner, e) ↦ (inner, e)
  ]

  safe-MountFree :
      ((a b : NodeId) → Concurrent graph edges a b → ¬ IsMounted a)
      → (p : Pair) → Reached graph edges p
      → MountFree p
  safe-MountFree safe p r =
      let c = Reached-Concurrent graph edges p r in
      (
        free p.0 (safe p.0 p.1 c),
        free p.1 (safe p.1 p.0 (Concurrent-swapped graph edges p.0 p.1 c)),
      )
    where
      free : (id : NodeId) → ¬ IsMounted id → is_mount graph.items id ≡ false
      free id h = elim (Bool-cases (is_mount graph.items id)) [
        | inl e ↦ absurd (h (is_mount-IsMounted id e))
        | inr e ↦ e
      ]

  MountFree-safe :
      ((p : Pair) → Reached graph edges p → MountFree p)
      → (a b : NodeId) → Concurrent graph edges a b
      → ¬ IsMounted a
  MountFree-safe free a b c mounted =
      let mount = IsMounted-is_mount a mounted in
      elim (Concurrent-Reached graph edges a b c) [
        | inl r ↦ let f = free (a, b) r in let g = f.0 in absurd (cc)
        | inr r ↦ let f = free (b, a) r in let g = f.1 in absurd (cc)
      ]

  -- For the edges that a graph aggregates to, and with fuel of at least the bound, the check of
  -- parallel frontiers accepts exactly when no node that can run in one step with another is a
  -- mounted subgraph. Two nodes can run in one step when they are distinct executable targets of a
  -- declared fan-out, or of what two such nodes select by their edges: the target of a fixed edge,
  -- the targets of a fan-out, or one target of the conditional edges.
  pub validate_subgraph_frontiers_iff :
      (fuel : ℕ)
      → aggregate_edges graph ≡ ok edges
      → pair_bound graph edges ≤ fuel
      → (validate_subgraph_frontiers graph edges fuel ≡ some (ok tt))
        ↔ ((a b : NodeId) → Concurrent graph edges a b → ¬ IsMounted a)
  validate_subgraph_frontiers_iff fuel agg enough = (
    λ h. MountFree-safe (λ p r. accepted-MountFree fuel p agg h r),
    λ safe.
        let (answer, same) = validate_subgraph_frontiers_total graph edges in
        elim (Result-cases answer) [
          | inl (_, e) ↦
              subst (λ a. validate_subgraph_frontiers graph edges fuel ≡ some a) e
                (same fuel enough)
          | inr (reason, e) ↦
              let (p, r, mount) = refused-Conflict fuel reason (
                subst (λ a. validate_subgraph_frontiers graph edges fuel ≡ some a) e
                  (same fuel enough)) in
              let (a, b) = safe-MountFree safe p r in absurd (ground arith)
        ],
  )
