-- ===== src/Core/Runtime/Frame/Route.antt =====
-- The routes and the boundaries of subgraphs keep a session's relation.
use group.Prelude.{
  get_elem?, ℕ, zero, suc, Result, ok, err, Option, none, some, Bool, true, ◌≡◌, refl, List, [],
  ◌∷◌, ◌++◌,
}
use group.Core.Path.{GraphPath, NodePath, mount_path, graph_path}
use group.Core.Transition.{
  NodeIndex, CompiledTransition, RouteDecision, TransitionError, single, multiple, resolve_into,
}
use group.Core.Graph.{CompiledItem, node, enter_subgraph, exit_subgraph, CompiledGraph}
use group.Core.Runtime.Event.{GraphEvent}
use group.Core.Runtime.Session.{Session, Stop, out_of_fuel, Action}
use group.Core.Runtime.Route.{
  SubgraphBoundary, started, completed, path_at, item_at, node_at, emit_decision, route_result,
  after_item, resolve_transition, leave_item, normalize_frontier, boundary_event, emit_boundaries,
}
use group.Core.Runtime.Frame.{
  Frame, Keeps, Any, is_plain, bind-Keeps, then-Keeps, pure-Keeps, stop-Keeps, raise-Keeps,
  expect-Keeps, emit-Keeps,
}

module _ {W S E N P C : Type 0} (graph : CompiledGraph S E N)
    {R : Session W C P → Session W C P → Type 0} {F : Stop E → Type 0} {allowed : GraphEvent → Bool}
    (frame : Frame R F allowed)
    (inner : (event : GraphEvent) → is_plain event ≡ true → allowed event ≡ true) where
  pub node_at-Keeps : (index : NodeIndex) → Keeps R F Any (node_at graph index)
  unfolding node_at
  node_at-Keeps index = expect-Keeps frame _ (λ compiled p. tt)

  emit_decision-Keeps :
      (source : NodePath) (step : ℕ) (decision : Option RouteDecision)
      → Keeps R F Any (emit_decision graph source step decision)
  unfolding emit_decision
  emit_decision-Keeps source step none = pure-Keeps frame tt tt
  emit_decision-Keeps source step (some (single target)) = emit-Keeps frame _ (λ s. inner _ refl)
  emit_decision-Keeps source step (some (multiple targets)) = emit-Keeps frame _ (λ s. inner _ refl)

  route_result-Keeps :
      (path : GraphPath) (source : NodePath) (step : ℕ) (targets : List NodeIndex)
      (r : Result (Option RouteDecision) (TransitionError E))
      → Keeps R F Any (route_result graph path source step targets r)
  unfolding route_result
  route_result-Keeps path source step targets (err e) = raise-Keeps frame _
  route_result-Keeps path source step targets (ok decision) =
      then-Keeps frame (emit_decision-Keeps source step decision) (pure-Keeps frame targets tt)

  pub resolve_transition-Keeps :
      (transition : CompiledTransition S E) (state : S) (path : GraphPath) (source : NodePath)
      (step : ℕ) (targets : List NodeIndex)
      → Keeps R F Any (resolve_transition graph transition state path source step targets)
  unfolding resolve_transition
  resolve_transition-Keeps transition state path source step targets =
      let resolved = resolve_into transition state path targets (path_at graph) in
      route_result-Keeps path source step resolved.1 resolved.0

  abbrev pub LeaveKeeps : Option (SubgraphBoundary × Action W C P E (List NodeIndex)) → Type 0
  LeaveKeeps none = Unit {0}
  LeaveKeeps (some (boundary, targets)) = Keeps R F Any targets

  pub leave_item-Keeps :
      (state : S) (step : ℕ) (item : CompiledItem S E N)
      → LeaveKeeps (leave_item graph state step item)
  unfolding leave_item
  leave_item-Keeps state step (node compiled) = tt
  leave_item-Keeps state step (enter_subgraph entered transition) =
      bind-Keeps frame (expect-Keeps frame {Q = Any} (mount_path entered) (λ source p. tt))
        (λ source q.
          bind-Keeps frame (expect-Keeps frame {Q = Any} (graph_path source) (λ outer p. tt))
            (λ outer q. resolve_transition-Keeps transition state outer source step []))
  leave_item-Keeps state step (exit_subgraph left mount transition) =
      bind-Keeps frame (expect-Keeps frame {Q = Any} (graph_path mount) (λ outer p. tt)) (λ outer q.
        bind-Keeps frame (resolve_transition-Keeps transition state outer mount step [])
          (λ targets q. pure-Keeps frame _ tt))

  after_item-Keeps :
      (next : List NodeIndex
        → List SubgraphBoundary
        → Action W C P E (List NodeIndex × List SubgraphBoundary))
      (index : NodeIndex) (boundaries : List SubgraphBoundary)
      (left : Option (SubgraphBoundary × Action W C P E (List NodeIndex)))
      → LeaveKeeps left
      → ((frontier : List NodeIndex) (later : List SubgraphBoundary)
          → Keeps R F Any (next frontier later))
      → Keeps R F Any (after_item graph next index boundaries left)
  after_item-Keeps next index boundaries none h k = pure-Keeps frame _ tt
  after_item-Keeps next index boundaries (some (boundary, targets)) h k =
      bind-Keeps frame h (λ frontier q. k frontier (boundaries ++ boundary ∷ []))

  pub normalize_frontier-Keeps :
      F out_of_fuel
      → (fuel : ℕ) (state : S) (step : ℕ) (frontier : List NodeIndex)
        (boundaries : List SubgraphBoundary)
      → Keeps R F Any (normalize_frontier graph fuel state step frontier boundaries)
  unfolding normalize_frontier item_at
  normalize_frontier-Keeps o zero state step frontier boundaries = stop-Keeps frame out_of_fuel o
  normalize_frontier-Keeps o (suc fuel) state step [] boundaries = pure-Keeps frame _ tt
  normalize_frontier-Keeps o (suc fuel) state step (i ∷ j ∷ rest) boundaries = pure-Keeps frame _ tt
  normalize_frontier-Keeps o (suc fuel) state step (index ∷ []) boundaries =
      bind-Keeps frame (expect-Keeps frame {Q = Any} (get_elem? graph.items index) (λ item p. tt))
        (λ item q.
          after_item-Keeps (normalize_frontier graph fuel state step) index boundaries
            (leave_item graph state step item) (leave_item-Keeps state step item)
            (normalize_frontier-Keeps o fuel state step))

  boundary_event-Keeps :
      (boundary : SubgraphBoundary) → Keeps R F Any (boundary_event graph boundary)
  unfolding boundary_event
  boundary_event-Keeps (started entered) = emit-Keeps frame _ (λ s. inner _ refl)
  boundary_event-Keeps (completed left) = emit-Keeps frame _ (λ s. inner _ refl)

  pub emit_boundaries-Keeps :
      (boundaries : List SubgraphBoundary) → Keeps R F Any (emit_boundaries graph boundaries)
  unfolding emit_boundaries
  emit_boundaries-Keeps [] = pure-Keeps frame tt tt
  emit_boundaries-Keeps (boundary ∷ rest) =
      then-Keeps frame (boundary_event-Keeps boundary) (emit_boundaries-Keeps rest)
