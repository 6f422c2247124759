-- ===== src/Core/Runtime/Frame/Control.antt =====
-- The control checks, the routes and the execution of a node keep a session's relation.
use group.Prelude.{
  leb, nat_eq, string_eq, bool_eq, option_eq, list_eq, Result, ok, err, ℕ, ◌≡◌, Bool, false, Option,
  none, some,
}
use group.Core.Path.{NodePath}
use group.Core.Graph.{CompiledNode}
use group.Core.Checkpoint.{NodeOutcome}
use group.Core.Runtime.Event.{GraphEvent}
use group.Core.Runtime.Session.{
  NodeContext, Readiness, cancellation, deadline, completion, Environment, Session, Stop, Action,
}
use group.Core.Runtime.Control.{
  ActiveControl, ActiveDeadline, run_limit, node_limit, instant, deadline_of, timeout_error,
  raise_cancelled, observe_cancelled, check_deadline, check, check_run, choose, race, is_disabled,
  await_run_boundary, node_result, execute_node,
}
use group.Core.Runtime.Frame.{
  Frame, Keeps, Any, bind-Keeps, then-Keeps, pure-Keeps, raise-Keeps, expect-Keeps, call-Keeps,
  call-result, if-Keeps,
}

module _ {W S E N U P C : Type 0} (env : Environment W S E N U P C) (control : ActiveControl)
    {R : Session W C P → Session W C P → Type 0} {F : Stop E → Type 0} {allowed : GraphEvent → Bool}
    (frame : Frame R F allowed) where
  timeout_error-Keeps :
      {A : Type 0} {Q : A → Type 0} (node_id : Option NodePath) (step : ℕ) (limit : ActiveDeadline)
      → Keeps {A = A} R F Q (timeout_error env control node_id step limit)
  unfolding timeout_error
  timeout_error-Keeps node_id step (run_limit time) =
      bind-Keeps frame (expect-Keeps frame {Q = Any} control.run_timeout (λ timeout p. tt))
        (λ timeout q. raise-Keeps frame _)
  timeout_error-Keeps node_id step (node_limit time) =
      bind-Keeps frame (expect-Keeps frame {Q = Any} node_id (λ path p. tt)) (λ path q.
        bind-Keeps frame (expect-Keeps frame {Q = Any} control.node_timeout (λ timeout p. tt))
          (λ timeout q. raise-Keeps frame _))

  observe_cancelled-Keeps : Keeps R F Any (observe_cancelled env control)
  observe_cancelled-Keeps =
      if-Keeps frame control.cancellation_enabled (λ p. call-Keeps frame env.is_cancelled)
        (λ p. pure-Keeps frame false tt)

  raise_cancelled-Keeps :
      {A : Type 0} {Q : A → Type 0} (node_id : Option NodePath) (step : ℕ)
      → Keeps {A = A} R F Q (raise_cancelled env control node_id step)
  raise_cancelled-Keeps node_id step = raise-Keeps frame _

  check_deadline-Keeps :
      (node_id : Option NodePath) (step : ℕ) (limit : Option ActiveDeadline)
      → Keeps R F Any (check_deadline env control node_id step limit)
  unfolding check_deadline
  check_deadline-Keeps node_id step none = pure-Keeps frame tt tt
  check_deadline-Keeps node_id step (some limit) =
      bind-Keeps frame (call-Keeps frame env.now) (λ now q.
        if-Keeps frame (leb (instant limit) now) (λ p. timeout_error-Keeps node_id step limit)
          (λ p. pure-Keeps frame tt tt))

  pub check-Keeps :
      (node_id : Option NodePath) (step : ℕ) (limit : Option ActiveDeadline)
      → Keeps R F Any (check env control node_id step limit)
  unfolding check
  check-Keeps node_id step limit = bind-Keeps frame observe_cancelled-Keeps (λ is_cancelled q.
      if-Keeps frame is_cancelled (λ p. raise_cancelled-Keeps node_id step)
        (λ p. check_deadline-Keeps node_id step limit))

  pub check_run-Keeps :
      (node_id : Option NodePath) (step : ℕ) → Keeps R F Any (check_run env control node_id step)
  unfolding check_run
  check_run-Keeps node_id step = check-Keeps node_id step (deadline_of control none)

  choose-Keeps :
      {A : Type 0} {Q : A → Type 0} {future : Action W C P E A} (node_id : Option NodePath)
      (step : ℕ) (limit : Option ActiveDeadline) (readiness : Readiness)
      → Keeps R F Q future
      → Keeps R F Q (choose env control node_id step limit future readiness)
  unfolding choose
  choose-Keeps node_id step limit cancellation h =
      if-Keeps frame control.cancellation_enabled (λ p. raise_cancelled-Keeps node_id step) (λ p. h)
  choose-Keeps node_id step none deadline h = h
  choose-Keeps node_id step (some limit) deadline h = timeout_error-Keeps node_id step limit
  choose-Keeps node_id step limit completion h = h

  race-Keeps :
      {A : Type 0} {Q : A → Type 0} {future : Action W C P E A} (node_id : Option NodePath)
      (step : ℕ) (limit : Option ActiveDeadline)
      → Keeps R F Q future
      → Keeps R F Q (race env control node_id step limit future)
  unfolding race
  race-Keeps node_id step limit h =
      if-Keeps frame (is_disabled control) (λ p. h)
        (λ p.
          bind-Keeps frame (call-Keeps frame env.select)
            (λ readiness q. choose-Keeps node_id step limit readiness h))

  pub await_run_boundary-Keeps :
      {A : Type 0} {Q : A → Type 0} {future : Action W C P E A} (step : ℕ)
      → Keeps R F Q future
      → Keeps R F Q (await_run_boundary env control step future)
  unfolding await_run_boundary
  await_run_boundary-Keeps step h = race-Keeps none step (deadline_of control none) h

  -- What a node has returned, in some world.
  abbrev pub Returns : CompiledNode S E N → S → NodeContext P → NodeOutcome U P → Type 0
  Returns compiled state context outcome =
      (w : W) × ((env.run_node compiled.kind state context w).0 ≡ ok outcome)

  node_result-Keeps :
      (compiled : CompiledNode S E N) (state : S) (context : NodeContext P)
      (result : Result (NodeOutcome U P) E) (w : W)
      → (env.run_node compiled.kind state context w).0 ≡ result
      → Keeps R F
          (Returns compiled state context)
          (node_result env control compiled.path context.step result)
  node_result-Keeps compiled state context (ok outcome) w h = pure-Keeps frame outcome (w, h)
  node_result-Keeps compiled state context (err source) w h = raise-Keeps frame _

  pub execute_node-Keeps :
      (compiled : CompiledNode S E N) (state : S) (context : NodeContext P) (limit : Option ℕ)
      → Keeps R F
          (Returns compiled state context)
          (execute_node env control compiled state context limit)
  unfolding execute_node
  execute_node-Keeps compiled state context limit =
      bind-Keeps frame
        (then-Keeps frame
          (check-Keeps (some compiled.path) context.step (deadline_of control limit))
          (race-Keeps (some compiled.path) context.step (deadline_of control limit)
            (call-result frame (env.run_node compiled.kind state context))))
        (λ result (w, h).
          then-Keeps frame (check_run-Keeps (some compiled.path) context.step)
            (node_result-Keeps compiled state context result w h))
