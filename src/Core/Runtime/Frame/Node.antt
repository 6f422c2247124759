-- ===== src/Core/Runtime/Frame/Node.antt =====
-- The nodes of a superstep keep a session's relation, and count their steps. `I` is what holds
-- after an interrupt.
use group.Prelude.{
  All, length, length-append, nat_eq, string_eq, bool_eq, option_eq, list_eq, Result, ok, err, ℕ,
  ◌+◌, ◌≡◌, refl, Bool, true, none, some, List, [], ◌∷◌, ◌++◌,
}
use group.Core.Path.{NodePath}
use group.Core.Checkpoint.{
  CheckpointInterrupt, InterruptRequest, into_checkpoint, NodeOutcome, update, interrupt,
}
use group.Core.Runtime.Event.{GraphEvent, run_interrupted}
use group.Core.Runtime.Session.{Environment, Session, Stop, emit}
use group.Core.Runtime.Control.{ActiveControl}
use group.Core.Runtime.Save.{
  RuntimeCheckpoint, CheckpointBoundary, SavedCheckpoint, save_checkpoint,
}
use group.Core.Runtime.Node.{
  Execution, Placed, path_of, Phase, updated, interrupted, apply_update, complete_single,
  report_interrupt, suspend, interrupt_single, finish_single, run_single, run_parallel,
  InterruptReport,
}
use group.Core.Runtime.Frame.{
  Frame, Keeps, Finishes, Follows, Any, is_plain, then-Keeps, pure-Keeps, raise-Keeps, emit-Keeps,
  bind-Finishes, follow-Finishes, emit-Finishes, Keeps-Finishes,
}
use group.Core.Runtime.Frame.Control.{check_run-Keeps, await_run_boundary-Keeps, execute_node-Keeps}
use group.Core.Runtime.Frame.Parallel.{
  Counts, Updates, MayStart, start_node-Keeps, raise_if_some-Keeps, run_parallel-Keeps,
}

-- The nodes stand at the steps after a number.
abbrev pub AtSteps : {S E N : Type 0} → ℕ → List (Placed S E N) → Type 0
AtSteps step [] = Unit {0}
AtSteps step (placed ∷ rest) = (placed.step ≡ step + 1) × AtSteps (step + 1) rest

-- What a run needs of a relation: its saves keep it, and `I` may follow it and holds after the
-- event of an interrupt.
pub record RunFrame {W S E N U P C : Type 0} (env : Environment W S E N U P C)
    (mode : RuntimeCheckpoint) (R : Session W C P → Session W C P → Type 0)
    (I : InterruptReport S P → Session W C P → Session W C P → Type 0) (F : Stop E → Type 0)
    (allowed : GraphEvent → Bool) : Type 0 where
  pub frame : Frame R F allowed
  pub inner : (event : GraphEvent) → is_plain event ≡ true → allowed event ≡ true
  pub saves :
      (state : S) (boundary : CheckpointBoundary P)
      → Keeps R F Any (save_checkpoint env mode state boundary)
  pub ends_interrupted :
      (report : InterruptReport S P) (node_id : NodePath) (s : Session W C P)
      → I report s
          (emit {E = E}
            (run_interrupted s.run_id report.interrupt.id report.checkpoint_id report.thread_id
              node_id report.superstep report.steps)
            s).1
  pub follows :
      (report : InterruptReport S P) (s t u : Session W C P) → R s t → I report t u → I report s u

module _ {W S E N U P C : Type 0} (env : Environment W S E N U P C) (control : ActiveControl)
    (mode : RuntimeCheckpoint) {R : Session W C P → Session W C P → Type 0}
    {I : InterruptReport S P → Session W C P → Session W C P → Type 0} {F : Stop E → Type 0}
    {allowed : GraphEvent → Bool} (run : RunFrame env mode R I F allowed) where
  open run use {frame, inner, saves, ends_interrupted, follows}

  -- How a session goes on after the nodes of a superstep.
  abbrev pub PhaseEnds : Execution S P → ℕ → Phase S P → Session W C P → Session W C P → Type 0
  PhaseEnds ex n (updated next) s t = R s t × Counts ex n (updated next)
  PhaseEnds ex n (interrupted report) s t =
      I report s t × Counts ex n (interrupted report) × (report.events ≡ t.retained)

  pub PhaseEnds-follows : (ex : Execution S P) (n : ℕ) → Follows frame (PhaseEnds ex n)
  PhaseEnds-follows ex n (updated next) s t u r (k, c) = (frame.keep_trans s t u r k, c)
  PhaseEnds-follows ex n (interrupted report) s t u r (i, c, e) = (follows report s t u r i, c, e)

  pub Updates-ends :
      (ex : Execution S P) (n : ℕ) (phase : Phase S P) (s t : Session W C P)
      → R s t
      → Updates ex n phase
      → PhaseEnds ex n phase s t
  Updates-ends ex n (updated next) s t r c = (r, c)
  Updates-ends ex n (interrupted report) s t r c = cc

  apply_update-Keeps :
      (ex : Execution S P) (placed : Placed S E N) (result : Result S E)
      → placed.step ≡ ex.steps + 1
      → Keeps R F (Updates ex 1) (apply_update env control mode ex placed result)
  apply_update-Keeps ex placed (err source) h = raise-Keeps frame _
  apply_update-Keeps ex placed (ok state) h =
      pure-Keeps frame _ (h, length-append {0} ex.visited_nodes (path_of placed ∷ []), refl)

  complete_single-Keeps :
      (ex : Execution S P) (placed : Placed S E N) (u : U)
      → placed.step ≡ ex.steps + 1
      → Keeps R F (Updates ex 1) (complete_single env control mode ex placed u)
  unfolding complete_single
  complete_single-Keeps ex placed u h =
      let checked = check_run-Keeps env control frame (some (path_of placed)) placed.step in
      then-Keeps frame
        (then-Keeps frame (then-Keeps frame (emit-Keeps frame _ (λ s. inner _ refl)) checked)
          checked)
        (apply_update-Keeps ex placed (env.apply u ex.state) h)

  -- The report of an interrupted run.
  abbrev report_of :
      Execution S P
      → Placed S E N
      → CheckpointInterrupt P
      → SavedCheckpoint
      → Session W C P
      → InterruptReport S P
  report_of ex placed waiting saved t = record {
    run_id = t.run_id;
    state = ex.state;
    steps = ex.steps;
    superstep = ex.superstep;
    visited_nodes = ex.visited_nodes ++ path_of placed ∷ [];
    events = t.retained;
    checkpoint_id = saved.id;
    thread_id = saved.thread_id;
    interrupt = waiting;
  }

  suspend-Finishes :
      (ex : Execution S P) (placed : Placed S E N) (waiting : CheckpointInterrupt P)
      (saved : SavedCheckpoint)
      → Finishes R F (PhaseEnds ex 1) (suspend env control mode ex placed waiting saved)
  unfolding suspend
  suspend-Finishes ex placed waiting saved =
      follow-Finishes frame (λ done. report_interrupt env control mode ex placed waiting saved)
        (emit-Finishes frame {G = λ s t. I (report_of ex placed waiting saved t) s t} _ (λ s.
          let event =
            run_interrupted s.run_id waiting.id saved.id saved.thread_id (path_of placed)
              ex.superstep ex.steps in
          ends_interrupted (report_of ex placed waiting saved (emit {E = E} event s).1)
            (path_of placed) s))
        (λ done s t i.
          (i, (refl, length-append {0} ex.visited_nodes (path_of placed ∷ []), refl), refl))

  interrupt_single-Finishes :
      (ex : Execution S P) (placed : Placed S E N) (request : InterruptRequest P)
      → Finishes R F (PhaseEnds ex 1) (interrupt_single env control mode ex placed request)
  unfolding interrupt_single
  interrupt_single-Finishes ex placed request =
      let follow = PhaseEnds-follows ex 1 in
      bind-Finishes frame follow
        (then-Keeps frame
          (then-Keeps frame (emit-Keeps frame _ (λ s. inner _ refl))
            (raise_if_some-Keeps env control mode frame inner _))
          (await_run_boundary-Keeps env control frame ex.steps (saves ex.state _)))
        (λ saved q.
          bind-Finishes frame follow
            (then-Keeps frame (emit-Keeps frame _ (λ s. inner _ refl))
              (check_run-Keeps env control frame none ex.steps))
            (λ done q. suspend-Finishes ex placed (into_checkpoint (path_of placed) request) saved))

  finish_single-Finishes :
      (ex : Execution S P) (placed : Placed S E N) (outcome : NodeOutcome U P)
      → placed.step ≡ ex.steps + 1
      → Finishes R F (PhaseEnds ex 1) (finish_single env control mode ex placed outcome)
  unfolding finish_single
  finish_single-Finishes ex placed (update u) h =
      Keeps-Finishes frame (λ phase s t. Updates-ends ex 1 phase s t)
        (complete_single-Keeps ex placed u h)
  finish_single-Finishes ex placed (interrupt request) h =
      interrupt_single-Finishes ex placed request

  pub run_single-Finishes :
      (ex : Execution S P) (placed : Placed S E N)
      → placed.step ≡ ex.steps + 1
      → MayStart env control mode frame inner placed
      → Finishes R F (PhaseEnds ex 1) (run_single env control mode ex placed)
  unfolding run_single
  run_single-Finishes ex placed h may =
      bind-Finishes frame (PhaseEnds-follows ex 1)
        (start_node-Keeps env control mode frame inner ex placed may)
        (λ (context, limit) q.
          bind-Finishes frame (PhaseEnds-follows ex 1)
            (execute_node-Keeps env control frame placed.compiled ex.state context limit)
            (λ outcome q. finish_single-Finishes ex placed outcome h))

  pub run_parallel-Finishes :
      (ex : Execution S P) (first : Placed S E N) (nodes : List (Placed S E N))
      → All (MayStart env control mode frame inner) nodes
      → Finishes R F (PhaseEnds ex (length nodes)) (run_parallel env control mode ex first nodes)
  run_parallel-Finishes ex first nodes may =
      Keeps-Finishes frame
        (λ phase s t r (u, applied). Updates-ends ex (length nodes) phase s t r u)
        (run_parallel-Keeps env control mode frame inner ex first nodes may)
