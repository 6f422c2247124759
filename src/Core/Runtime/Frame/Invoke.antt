-- ===== src/Core/Runtime/Frame/Invoke.antt =====
-- An invocation keeps a relation that each event keeps, and visits as many nodes as it takes steps.
use group.Prelude.{
  nat_eq, string_eq, bool_eq, option_eq, list_eq, Result, ok, err, ℕ, ◌-◌, ◌<◌, ◌≡◌, ◌⊎◌, inl, inr,
  Bool, true, Option, none, some, List, [], ◌∷◌, arith,
}
use group.Core.Record.{CheckpointId}
use group.Core.Transition.{NodeIndex}
use group.Core.Graph.{CompiledGraph}
use group.Core.Runtime.Event.{GraphEvent, run_completed}
use group.Core.Runtime.Session.{Environment, Session, Stop, out_of_fuel, emit}
use group.Core.Runtime.Control.{ActiveControl}
use group.Core.Runtime.Route.{SubgraphBoundary, normalize_frontier}
use group.Core.Runtime.Save.{RuntimeCheckpoint}
use group.Core.Runtime.Node.{Execution}
use group.Core.Runtime.Execute.{
  run_finished, run_suspended, ExecutionOutcome, saturating_add, execute_internal,
}
use group.Core.Runtime.Invoke.{
  initial_execution, parent_of, entry_frontier, first_path, prepare, expect_parent, invoke_internal,
  finished_report,
}
use group.Core.Runtime.Frame.{
  Keeps, Finishes, Follows, Any, bind-Keeps, then-Keeps, pure-Keeps, emit-Keeps, failing-Keeps,
  failing-Finishes, bind-Finishes, Post, panic-Keeps, Frame, is_plain,
}
use group.Core.Runtime.Frame.Control.{check_run-Keeps}
use group.Core.Runtime.Frame.Route.{node_at-Keeps, emit_boundaries-Keeps}
use group.Core.Runtime.Frame.Node.{RunFrame}
use group.Core.Runtime.Frame.Execute.{RunEnds, RunEnds-follows, execute_body-Finishes}

module _ {W S E N U P C : Type 0} (env : Environment W S E N U P C) (graph : CompiledGraph S E N)
    (rounds fuel max_steps : ℕ) {R : Session W C P → Session W C P → Type 0} {F : Stop E → Type 0}
    {allowed : GraphEvent → Bool} (frame : Frame R F allowed)
    (inner : (event : GraphEvent) → is_plain event ≡ true → allowed event ≡ true) where
  pub first_path-Keeps :
      (frontier : List NodeIndex)
      → Keeps R F Any (first_path env graph rounds fuel max_steps frontier)
  unfolding first_path
  first_path-Keeps [] = pure-Keeps frame none tt
  first_path-Keeps (index ∷ rest) =
      bind-Keeps frame (node_at-Keeps graph frame inner index)
        (λ compiled q. pure-Keeps frame (some compiled.path) tt)

  pub finished_report-Keeps :
      (outcome : ExecutionOutcome S P)
      → Keeps R F Any (finished_report env graph rounds fuel max_steps outcome)
  finished_report-Keeps (run_finished report) = pure-Keeps frame report tt
  finished_report-Keeps (run_suspended report) = panic-Keeps frame

module _ {W S E N U P C : Type 0} (env : Environment W S E N U P C) (control : ActiveControl)
    (mode : RuntimeCheckpoint) {R : Session W C P → Session W C P → Type 0} {F : Stop E → Type 0}
    {allowed : GraphEvent → Bool} (run : RunFrame env mode R (λ report. R) F allowed)
    (all : (event : GraphEvent) → allowed event ≡ true)
    (keep_parent : (s : Session W C P) (parent : Option CheckpointId)
      → R s (record s { expected_parent = parent }))
    (graph : CompiledGraph S E N) (rounds fuel max_steps : ℕ)
    (normalizes : (state : S) (step : ℕ) (frontier : List NodeIndex)
        (boundaries : List SubgraphBoundary)
      → Keeps R F Any (normalize_frontier graph fuel state step frontier boundaries)) where
  open run use {frame, inner}

  -- How a run ends: with an event that the relation keeps as well.
  abbrev pub Ran : ℕ → Execution S P → ExecutionOutcome S P → Session W C P → Session W C P → Type 0
  Ran =
      RunEnds env control mode {D = λ steps. R} run
        (λ s steps. frame.keep_event (run_completed s.run_id steps) s (all _))
        (λ steps. frame.keep_trans) graph fuel normalizes

  Ran-follows : (limit : ℕ) (ex : Execution S P) → Follows frame (Ran limit ex)
  Ran-follows =
      RunEnds-follows env control mode {D = λ steps. R} run
        (λ s steps. frame.keep_event (run_completed s.run_id steps) s (all _))
        (λ steps. frame.keep_trans) graph fuel normalizes

  pub execute_internal-Finishes :
      (save_empty_checkpoint : Bool) (ex : Execution S P)
      → F out_of_fuel ⊎ (saturating_add ex.steps max_steps - ex.steps < rounds)
      → Finishes R F
          (Ran (saturating_add ex.steps max_steps) ex)
          (execute_internal env control mode graph fuel rounds max_steps save_empty_checkpoint ex)
  unfolding execute_internal
  execute_internal-Finishes save_empty_checkpoint ex fuelled = failing-Finishes frame all (
      execute_body-Finishes env control mode {D = λ steps. R} run
        (λ s steps. frame.keep_event (run_completed s.run_id steps) s (all _))
        (λ steps. frame.keep_trans) graph fuel normalizes rounds max_steps save_empty_checkpoint ex
        fuelled (λ id path step h. all _))

  emitted : (event : Session W C P → GraphEvent) → Keeps R F Any (λ s. emit (event s) s)
  emitted event = emit-Keeps frame event (λ s. all (event s))

  pub expect_parent-Keeps :
      (parent : Option CheckpointId)
      → Keeps R F Any (expect_parent env graph rounds fuel max_steps parent)
  expect_parent-Keeps parent = record { ends = λ s. (keep_parent s parent, tt) }

  prepare-Keeps :
      (initial_state : S)
      → Keeps R F Any (prepare env graph rounds fuel max_steps control initial_state)
  unfolding prepare
  prepare-Keeps initial_state =
      bind-Keeps frame
        (then-Keeps frame (emitted _)
          (normalizes initial_state 0 (entry_frontier graph.entry_index) []))
        (λ (frontier, boundaries) q.
          bind-Keeps frame
            (then-Keeps frame (emit_boundaries-Keeps graph frame inner boundaries)
              (first_path-Keeps env graph rounds fuel max_steps frame inner frontier))
            (λ initial_node q.
              then-Keeps frame (check_run-Keeps env control frame initial_node _)
                (pure-Keeps frame frontier tt)))

  pub invoke_internal-Finishes :
      (initial_state : S)
      → F out_of_fuel ⊎ (max_steps < rounds)
      → Finishes R F
          (Ran (saturating_add 0 max_steps) (initial_execution initial_state []))
          (invoke_internal env graph rounds fuel max_steps mode initial_state control)
  unfolding invoke_internal
  invoke_internal-Finishes initial_state fuelled =
      bind-Finishes frame
        (Ran-follows (saturating_add 0 max_steps) (initial_execution initial_state []))
        (failing-Keeps frame all
          (then-Keeps frame (expect_parent-Keeps (parent_of mode)) (prepare-Keeps initial_state)))
        (λ frontier q.
          execute_internal-Finishes true (initial_execution initial_state frontier)
            (fuelled_start fuelled))
    where
      fuelled_start :
          F out_of_fuel ⊎ (max_steps < rounds)
          → F out_of_fuel ⊎ (saturating_add 0 max_steps - 0 < rounds)
      fuelled_start (inl o) = inl o
      fuelled_start (inr h) = inr (omega arith)

  pub outcome-ends :
      (limit : ℕ) (ex : Execution S P) (r : Result (ExecutionOutcome S P) (Stop E))
      (s t : Session W C P)
      → Post (λ e s t. F e × R s t) (Ran limit ex) r s t
      → Post (λ e s t. F e × R s t) (λ a s t. R s t × Any a) r s t
  outcome-ends limit ex (ok (run_finished report)) s t (r, visits, e) = (r, tt)
  outcome-ends limit ex (ok (run_suspended report)) s t (r, visits, e) = (r, tt)
  outcome-ends limit ex (err e) s t h = h
