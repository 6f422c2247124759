-- ===== src/Core/Runtime/Frame/Recover.antt =====
-- A replay keeps a relation that each event keeps.
use group.Prelude.{
  nat_eq, string_eq, bool_eq, option_eq, list_eq, ℕ, ◌≡◌, inl, Bool, true, false, Option, none,
  some, List,
}
use group.Core.Record.{CheckpointId, ThreadId}
use group.Core.Transition.{NodeIndex}
use group.Core.Graph.{CompiledGraph}
use group.Core.Runtime.Event.{GraphEvent}
use group.Core.Runtime.Session.{Environment, Session, Stop, out_of_fuel, emit}
use group.Core.Runtime.Control.{ActiveControl}
use group.Core.Runtime.Route.{SubgraphBoundary, normalize_frontier}
use group.Core.Runtime.Save.{read_only_replay}
use group.Core.Runtime.Node.{Execution}
use group.Core.Runtime.Execute.{saturating_add, execute_internal}
use group.Core.Runtime.Load.{Restored}
use group.Core.Runtime.Recover.{continue_restored, open_exact, open_replay, replay_action}
use group.Core.Runtime.Frame.{
  Keeps, Any, bind-Keeps, then-Keeps, pure-Keeps, emit-Keeps, failing-Keeps,
}
use group.Core.Runtime.Frame.Control.{check_run-Keeps, await_run_boundary-Keeps}
use group.Core.Runtime.Frame.Node.{RunFrame}
use group.Core.Runtime.Frame.Load.{
  load_exact-Keeps, check_id-Keeps, check_thread-Keeps, restore_checkpoint-Keeps,
  emit_enclosing-Keeps,
}
use group.Core.Runtime.Frame.Invoke.{
  execute_internal-Finishes, outcome-ends, finished_report-Keeps, expect_parent-Keeps,
}

module _ {W S E N U P C : Type 0} (env : Environment W S E N U P C) (control : ActiveControl)
    (thread_id : ThreadId) (checkpoint_id : CheckpointId)
    {R : Session W C P → Session W C P → Type 0} {F : Stop E → Type 0} {allowed : GraphEvent → Bool}
    (run : RunFrame env (read_only_replay thread_id checkpoint_id) R (λ report. R) F allowed)
    (all : (event : GraphEvent) → allowed event ≡ true)
    (keep_parent : (s : Session W C P) (parent : Option CheckpointId)
      → R s (record s { expected_parent = parent }))
    (graph : CompiledGraph S E N) (rounds fuel max_steps : ℕ)
    (normalizes : (state : S) (step : ℕ) (frontier : List NodeIndex)
        (boundaries : List SubgraphBoundary)
      → Keeps R F Any (normalize_frontier graph fuel state step frontier boundaries)) where
  open run use {frame, inner}

  emitted : (event : Session W C P → GraphEvent) → Keeps R F Any (λ s. emit (event s) s)
  emitted event = emit-Keeps frame event (λ s. all (event s))

  open_exact-Keeps :
      (value : Option P)
      → Keeps R F Any
          (open_exact env graph rounds fuel max_steps thread_id checkpoint_id value control)
  unfolding open_exact
  open_exact-Keeps value =
      bind-Keeps frame
        (then-Keeps frame (then-Keeps frame (emitted _) (check_run-Keeps env control frame none 0))
          (await_run_boundary-Keeps env control frame 0
            (load_exact-Keeps env control graph frame inner thread_id checkpoint_id)))
        (λ checkpoint q.
          then-Keeps frame
            (then-Keeps frame
              (check_id-Keeps env control graph frame inner thread_id (some checkpoint_id)
                checkpoint)
              (check_thread-Keeps env control graph frame inner thread_id checkpoint))
            (restore_checkpoint-Keeps env control graph frame inner thread_id value checkpoint))

  open_replay-Keeps :
      (value : Option P)
      → Keeps R F Any
          (open_replay env graph rounds fuel max_steps thread_id checkpoint_id value control)
  unfolding open_replay
  open_replay-Keeps value = bind-Keeps frame (open_exact-Keeps value) (λ restored q.
      then-Keeps frame
        (then-Keeps frame (emitted _)
          (emit_enclosing-Keeps env control graph frame inner restored.frontier))
        (pure-Keeps frame restored tt))

  executed-Keeps :
      F out_of_fuel
      → (ex : Execution S P)
      → Keeps R F Any (
          execute_internal env control
            (read_only_replay thread_id checkpoint_id)
            graph
            fuel
            rounds
            max_steps
            false
            ex)
  executed-Keeps o ex =
      let action =
        execute_internal env control (read_only_replay thread_id checkpoint_id) graph fuel rounds
          max_steps false ex in
      record {
        ends = λ s.
            outcome-ends env control (read_only_replay thread_id checkpoint_id) run all keep_parent
              graph rounds fuel max_steps normalizes (saturating_add ex.steps max_steps) ex
              (action s).0 s (action s).1
              ((execute_internal-Finishes env control (read_only_replay thread_id checkpoint_id) run
                  all keep_parent graph rounds fuel max_steps normalizes false ex (inl o)).ends
                s);
      }

  continue_restored-Keeps :
      F out_of_fuel
      → (restored : Restored S C P)
      → Keeps R F Any (
          continue_restored env graph rounds fuel max_steps
            (read_only_replay thread_id checkpoint_id)
            control
            restored)
  unfolding continue_restored
  continue_restored-Keeps o restored =
      then-Keeps frame
        (expect_parent-Keeps env control (read_only_replay thread_id checkpoint_id) run all
          keep_parent graph rounds fuel max_steps normalizes none)
        (executed-Keeps o _)

  pub replay_action-Keeps :
      F out_of_fuel
      → (value : Option P)
      → Keeps R F Any
          (replay_action env graph rounds fuel max_steps thread_id checkpoint_id value control)
  unfolding replay_action
  replay_action-Keeps o value =
      bind-Keeps frame (failing-Keeps frame all (open_replay-Keeps value)) (λ restored q.
        bind-Keeps frame
          (bind-Keeps frame (continue_restored-Keeps o restored) (λ outcome q.
            finished_report-Keeps env graph rounds fuel max_steps frame inner outcome))
          (λ report q. pure-Keeps frame _ tt))
