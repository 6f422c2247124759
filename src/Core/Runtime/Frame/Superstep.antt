-- ===== src/Core/Runtime/Frame/Superstep.antt =====
-- A superstep keeps a session's relation, and its steps stay within the limit.
use group.Prelude.{
  All, ltb, ltb→le, length, get_elem?, head?, is_empty, nat_eq, string_eq, bool_eq, option_eq,
  list_eq, ℕ, ◌+◌, ◌-◌, ◌≤◌, ◌<◌, ◌≡◌, refl, Bool, true, false, Option, none, some, List, [], ◌∷◌,
  arith,
}
use group.Core.Path.{NodePath}
use group.Core.Record.{RunId}
use group.Core.Transition.{NodeIndex}
use group.Core.Graph.{CompiledGraph}
use group.Core.Runtime.Event.{GraphEvent, node_started}
use group.Core.Runtime.Session.{Environment, Session, Stop, emit}
use group.Core.Runtime.Control.{ActiveControl, check_run}
use group.Core.Runtime.Route.{SubgraphBoundary, canonical, scope_exit, normalize_frontier}
use group.Core.Runtime.Save.{RuntimeCheckpoint, should_save}
use group.Core.Runtime.Node.{
  Execution, Placed, path_of, Phase, updated, interrupted, InterruptReport,
}
use group.Core.Runtime.Execute.{
  place_frontier, check_steps, emit_updates, resolve_frontier, save_boundary, emit_if, advance,
  after_phase, run_nodes, run_superstep,
}
use group.Core.Runtime.Frame.{
  Keeps, Finishes, Follows, Any, Post, is_plain, bind-Keeps, then-Keeps, pure-Keeps, panic-Keeps,
  raise-Keeps, expect-Keeps, emit-Keeps, if-Keeps, bind-Finishes, follow-Finishes, Keeps-Finishes,
  Finishes-after, Post-after,
}
use group.Core.Runtime.Frame.Control.{check_run-Keeps, await_run_boundary-Keeps}
use group.Core.Runtime.Frame.Route.{node_at-Keeps, resolve_transition-Keeps, emit_boundaries-Keeps}
use group.Core.Runtime.Frame.Parallel.{Counts, Updates, MayStart}
use group.Core.Runtime.Frame.Node.{
  AtSteps, RunFrame, PhaseEnds, PhaseEnds-follows, Updates-ends, run_single-Finishes,
  run_parallel-Finishes,
}

-- A superstep that completes takes steps, which stay within the limit, and visits as many nodes;
-- one that is interrupted takes none, and visits the node that asked.
abbrev pub Advances : {S P : Type 0} → ℕ → Execution S P → Phase S P → Type 0
Advances limit ex (updated next) =
    (ex.steps < next.steps)
    × (next.steps ≤ limit)
    × (next.steps + length ex.visited_nodes ≡ ex.steps + length next.visited_nodes)
Advances limit ex (interrupted report) =
    (report.steps ≡ ex.steps) × (length report.visited_nodes ≡ length ex.visited_nodes + 1)

Counts-Advances :
    {S P : Type 0} (limit n : ℕ) (ex : Execution S P) (phase : Phase S P)
    → 1 ≤ n
    → n ≤ limit - ex.steps
    → Counts ex n phase
    → Advances limit ex phase
Counts-Advances limit n ex (updated next) positive within (steps, visited, superstep) =
    (omega arith, omega arith, omega arith)
Counts-Advances limit n ex (interrupted report) positive within (steps, visited, superstep) =
    (steps, visited)

head-length : {A : Type 0} (xs : List A) (x : A) → head? xs ≡ some x → 1 ≤ length xs
head-length [] x h = cc
head-length (y ∷ ys) x h = omega arith

module _ {W S E N U P C : Type 0} (env : Environment W S E N U P C) (control : ActiveControl)
    (mode : RuntimeCheckpoint) {R : Session W C P → Session W C P → Type 0}
    {I : InterruptReport S P → Session W C P → Session W C P → Type 0} {F : Stop E → Type 0}
    {allowed : GraphEvent → Bool} (run : RunFrame env mode R I F allowed)
    (graph : CompiledGraph S E N) (fuel : ℕ)
    (normalizes : (state : S) (step : ℕ) (frontier : List NodeIndex)
        (boundaries : List SubgraphBoundary)
      → Keeps R F Any (normalize_frontier graph fuel state step frontier boundaries)) where
  open run use {frame, inner, saves}

  checked :
      (node_id : Option NodePath) (step : ℕ) → Keeps R F Any (check_run env control node_id step)
  checked node_id step = check_run-Keeps env control frame node_id step

  emitted :
      (event : Session W C P → GraphEvent)
      → ((s : Session W C P) → is_plain (event s) ≡ true)
      → Keeps R F Any (λ s. emit (event s) s)
  emitted event h = emit-Keeps frame event (λ s. inner (event s) (h s))

  place_frontier-Keeps :
      (step : ℕ) (frontier : List NodeIndex)
      → Keeps R F (AtSteps step) (place_frontier env control mode graph fuel step frontier)
  unfolding place_frontier
  place_frontier-Keeps step [] = pure-Keeps frame _ tt
  place_frontier-Keeps step (index ∷ rest) =
      bind-Keeps frame (node_at-Keeps graph frame inner index) (λ compiled q.
        bind-Keeps frame (place_frontier-Keeps (step + 1) rest)
          (λ nodes placed. pure-Keeps frame _ (refl, placed)))

  check_steps-Keeps :
      (max_steps limit : ℕ) (ex : Execution S P) (nodes : List (Placed S E N))
      → Keeps R F
          (λ done. length nodes ≤ limit - ex.steps)
          (check_steps env control mode graph fuel max_steps limit ex nodes)
  unfolding check_steps
  check_steps-Keeps max_steps limit ex nodes =
      if-Keeps frame (ltb (limit - ex.steps) (length nodes))
        (λ p.
          bind-Keeps frame
            (expect-Keeps frame {Q = Any} (get_elem? nodes (limit - ex.steps)) (λ blocked q. tt))
            (λ blocked q. raise-Keeps frame _))
        (λ p. pure-Keeps frame tt (ltb→le (limit - ex.steps) (length nodes) p))

  emit_updates-Keeps :
      (nodes : List (Placed S E N)) → Keeps R F Any (emit_updates env control mode graph fuel nodes)
  unfolding emit_updates
  emit_updates-Keeps [] = pure-Keeps frame tt tt
  emit_updates-Keeps (placed ∷ rest) =
      then-Keeps frame
        (then-Keeps frame (emitted _ (λ s. refl)) (checked (some (path_of placed)) placed.step))
        (emit_updates-Keeps rest)

  resolve_frontier-Keeps :
      (state : S) (nodes : List (Placed S E N)) (targets : List NodeIndex)
      → Keeps R F Any (resolve_frontier env control mode graph fuel state nodes targets)
  unfolding resolve_frontier
  resolve_frontier-Keeps state [] targets = pure-Keeps frame targets tt
  resolve_frontier-Keeps state (placed ∷ rest) targets =
      bind-Keeps frame
        (resolve_transition-Keeps graph frame inner placed.compiled.transition state
          placed.compiled.graph_path (path_of placed) placed.step targets)
        (λ next q.
          then-Keeps frame (checked (some (path_of placed)) placed.step)
            (resolve_frontier-Keeps state rest next))

  save_boundary-Keeps :
      (ex : Execution S P) (frontier : List NodeIndex)
      → Keeps R F Any (save_boundary env control mode graph fuel ex frontier)
  unfolding save_boundary
  save_boundary-Keeps ex frontier =
      if-Keeps frame (should_save mode (is_empty frontier))
        (λ p. bind-Keeps frame (place_frontier-Keeps ex.steps frontier) (λ nodes q.
          bind-Keeps frame (await_run_boundary-Keeps env control frame ex.steps (saves ex.state _))
            (λ saved q. then-Keeps frame (emitted _ (λ s. refl)) (checked none ex.steps))))
        (λ p. pure-Keeps frame tt tt)

  emit_if-Keeps :
      (test : Bool) (event : RunId → GraphEvent)
      → ((id : RunId) → is_plain (event id) ≡ true)
      → Keeps R F Any (emit_if env control mode graph fuel test event)
  unfolding emit_if
  emit_if-Keeps true event h = emitted (λ s. event s.run_id) (λ s. h s.run_id)
  emit_if-Keeps false event h = pure-Keeps frame tt tt

  advance-Keeps :
      (first : Placed S E N) (nodes : List (Placed S E N)) (ex₀ ex : Execution S P) (n : ℕ)
      → Counts ex₀ n (updated ex)
      → Keeps R F
          (λ next. Counts ex₀ n (updated next))
          (advance env control mode graph fuel first nodes ex)
  unfolding advance
  advance-Keeps first nodes ex₀ ex n counts =
      bind-Keeps frame
        (then-Keeps frame (emit_updates-Keeps nodes) (resolve_frontier-Keeps ex.state nodes []))
        (λ targets q.
          bind-Keeps frame
            (normalizes ex.state ex.steps
              (scope_exit graph first.compiled.graph_path (canonical targets)) [])
            (λ (frontier, boundaries) q.
              then-Keeps frame
                (then-Keeps frame
                  (then-Keeps frame
                    (then-Keeps frame (save_boundary-Keeps ex frontier)
                      (emit_boundaries-Keeps graph frame inner boundaries))
                    (emit_if-Keeps (ltb 1 (length nodes)) _ (λ id. refl)))
                  (checked (some (path_of first)) first.step))
                (pure-Keeps frame _ counts)))

  after_phase-Finishes :
      (first : Placed S E N) (nodes : List (Placed S E N)) (ex₀ : Execution S P) (n : ℕ)
      (phase : Phase S P) (s t : Session W C P)
      → PhaseEnds env control mode run ex₀ n phase s t
      → Post
          (λ e s t. F e × R s t)
          (PhaseEnds env control mode run ex₀ n)
          (after_phase env control mode graph fuel first nodes phase t).0
          s
          (after_phase env control mode graph fuel first nodes phase t).1
  unfolding after_phase
  after_phase-Finishes first nodes ex₀ n (interrupted report) s t h = h
  after_phase-Finishes first nodes ex₀ n (updated ex) s t (r, counts) =
      Finishes-after frame (PhaseEnds env control mode run ex₀ n) _ s t
        (PhaseEnds-follows env control mode run ex₀ n) r
        (bind-Finishes frame (PhaseEnds-follows env control mode run ex₀ n)
          (advance-Keeps first nodes ex₀ ex n counts)
          (λ next q.
            Keeps-Finishes frame (λ phase s t. Updates-ends env control mode run ex₀ n phase s t)
              (pure-Keeps frame {Q = Updates ex₀ n} (updated next) q)))

  run_nodes-Finishes :
      (ex : Execution S P) (nodes : List (Placed S E N))
      → AtSteps ex.steps nodes
      → All (MayStart env control mode frame inner) nodes
      → Finishes R F
          (PhaseEnds env control mode run ex (length nodes))
          (run_nodes env control mode graph fuel ex nodes)
  unfolding run_nodes
  run_nodes-Finishes ex [] placed may =
      Keeps-Finishes frame (λ phase s t. Updates-ends env control mode run ex 0 phase s t)
        (panic-Keeps frame)
  run_nodes-Finishes ex (first ∷ []) (step, later) may =
      follow-Finishes frame (after_phase env control mode graph fuel first (first ∷ []))
        (run_single-Finishes env control mode run ex first step may.0)
        (after_phase-Finishes first (first ∷ []) ex 1)
  run_nodes-Finishes ex (first ∷ second ∷ rest) placed may =
      let nodes = first ∷ second ∷ rest in
      follow-Finishes frame (after_phase env control mode graph fuel first nodes)
        (bind-Finishes frame (PhaseEnds-follows env control mode run ex (length nodes))
          (emitted _ (λ s. refl))
          (λ done q. run_parallel-Finishes env control mode run ex first nodes may))
        (after_phase-Finishes first nodes ex (length nodes))

  -- How a session goes on after a superstep.
  abbrev pub SuperstepEnds : ℕ → Execution S P → Phase S P → Session W C P → Session W C P → Type 0
  SuperstepEnds limit ex (updated next) s t = R s t × Advances limit ex (updated next)
  SuperstepEnds limit ex (interrupted report) s t =
      I report s t × Advances limit ex (interrupted report) × (report.events ≡ t.retained)

  SuperstepEnds-follows : (limit : ℕ) (ex : Execution S P) → Follows frame (SuperstepEnds limit ex)
  SuperstepEnds-follows limit ex (updated next) s t u r (k, a) = (frame.keep_trans s t u r k, a)
  SuperstepEnds-follows limit ex (interrupted report) s t u r (i, a, e) =
      (run.follows report s t u r i, a, e)

  phase_within :
      (limit : ℕ) (ex : Execution S P) (nodes : List (Placed S E N)) (phase : Phase S P)
      (s t : Session W C P)
      → 1 ≤ length nodes
      → length nodes ≤ limit - ex.steps
      → PhaseEnds env control mode run ex (length nodes) phase s t
      → SuperstepEnds limit ex phase s t
  phase_within limit ex nodes (updated next) s t positive within (r, counts) =
      (r, Counts-Advances limit (length nodes) ex (updated next) positive within counts)
  phase_within limit ex nodes (interrupted report) s t positive within (i, counts, e) =
      (i, Counts-Advances limit (length nodes) ex (interrupted report) positive within counts, e)

  nodes_within :
      (limit : ℕ) (ex : Execution S P) (nodes : List (Placed S E N))
      → AtSteps ex.steps nodes
      → 1 ≤ length nodes
      → length nodes ≤ limit - ex.steps
      → All (MayStart env control mode frame inner) nodes
      → Finishes R F (SuperstepEnds limit ex) (run_nodes env control mode graph fuel ex nodes)
  nodes_within limit ex nodes placed positive within may = record {
    ends = λ s.
        Post-after frame (PhaseEnds env control mode run ex (length nodes)) (SuperstepEnds limit ex)
          (run_nodes env control mode graph fuel ex nodes s).0 s s
          (run_nodes env control mode graph fuel ex nodes s).1 (frame.keep_refl s)
          (λ phase. phase_within limit ex nodes phase s _ positive within)
          ((run_nodes-Finishes ex nodes placed may).ends s);
  }

  -- A node may start at a step within the limit.
  abbrev pub StartsWithin : ℕ → Type 0
  StartsWithin limit =
      (id : RunId) (path : NodePath) (step : ℕ)
      → step ≤ limit
      → allowed (node_started id path step) ≡ true

  placed_within :
      (limit step : ℕ) (nodes : List (Placed S E N))
      → StartsWithin limit
      → AtSteps step nodes
      → step + length nodes ≤ limit
      → All (MayStart env control mode frame inner) nodes
  placed_within limit step [] starts placed within = tt
  placed_within limit step (placed ∷ rest) starts (at, later) within = (
    λ id. starts id (path_of placed) placed.step (omega arith),
    placed_within limit (step + 1) rest starts later (omega arith),
  )

  pub run_superstep-Finishes :
      (max_steps limit : ℕ) (ex : Execution S P)
      → StartsWithin limit
      → Finishes R F
          (SuperstepEnds limit ex)
          (run_superstep env control mode graph fuel max_steps limit ex)
  unfolding run_superstep
  run_superstep-Finishes max_steps limit ex starts =
      let follow = SuperstepEnds-follows limit ex in
      bind-Finishes frame follow (place_frontier-Keeps ex.steps ex.frontier) (λ nodes placed.
        bind-Finishes frame follow
          (expect-Keeps frame {Q = λ first. 1 ≤ length nodes} (head? nodes)
            (λ first p. head-length nodes first p))
          (λ first positive.
            bind-Finishes frame follow
              (then-Keeps frame (checked (some (path_of first)) (ex.steps + 1))
                (check_steps-Keeps max_steps limit ex nodes))
              (λ done within.
                nodes_within limit ex nodes placed positive within
                  (placed_within limit ex.steps nodes starts placed (omega arith)))))
