-- ===== src/Core/Runtime/Control.antt =====
-- `ActiveControl`, `await_run_boundary` and `execute_node` of
-- crates/group-agent-core/src/runtime.rs. A token that was not given is never cancelled, and the
-- future of a deadline that is not set is never ready.
use group.Prelude.{
  leb, if◌then◌else◌, is_some, nat_eq, string_eq, bool_eq, option_eq, list_eq, Result, ok, err, ℕ,
  ◌+◌, Bool, false, not, ◌&&◌, Option, none, some,
}
use group.Core.Path.{NodePath}
use group.Core.Graph.{CompiledNode}
use group.Core.Checkpoint.{NodeOutcome}
use group.Core.Runtime.Error.{GraphRunError, run_timed_out, node_timed_out, node_failed}
use group.Core.Runtime.Session.{
  NodeContext, Readiness, cancellation, deadline, completion, Environment, Action, pure, raise,
  expect, ◌>>=◌, ◌>>◌, call,
}

-- `RunControl` of context.rs.
pub record RunControl : Type 0 where
  pub has_token : Bool
  pub run_timeout : Option ℕ
  pub node_timeout : Option ℕ

pub record ActiveControl : Type 0 where
  pub cancellation_enabled : Bool
  pub run_timeout : Option ℕ
  pub run_deadline : Option ℕ
  pub node_timeout : Option ℕ

pub data ActiveDeadline : Type 0 where
  run_limit node_limit : ℕ → ActiveDeadline

abbrev pub instant : ActiveDeadline → ℕ
instant (run_limit time) = time
instant (node_limit time) = time

abbrev pub after : Option ℕ → ℕ → Option ℕ
after none start = none
after (some timeout) start = some (start + timeout)

-- `ActiveControl::new`.
abbrev pub activate : RunControl → ℕ → ActiveControl
activate control invocation_started = record {
  cancellation_enabled = control.has_token;
  run_timeout = control.run_timeout;
  run_deadline = after control.run_timeout invocation_started;
  node_timeout = control.node_timeout;
}

abbrev pub is_disabled : ActiveControl → Bool
is_disabled control =
    not control.cancellation_enabled
    && not (is_some control.run_deadline)
    && not (is_some control.node_timeout)

-- `ActiveControl::deadline` at the deadline of the run and of the node.
abbrev pub earlier : Option ℕ → Option ℕ → Option ActiveDeadline
earlier (some run) (some node) = some (if leb run node then run_limit run else node_limit node)
earlier (some run) none = some (run_limit run)
earlier none (some node) = some (node_limit node)
earlier none none = none

abbrev pub deadline_of : ActiveControl → Option ℕ → Option ActiveDeadline
deadline_of control node_deadline = earlier control.run_deadline node_deadline

module _ {W S E N U P C : Type 0} (env : Environment W S E N U P C) (control : ActiveControl) where
  unfoldable pub timeout_error :
      {A : Type 0} → Option NodePath → ℕ → ActiveDeadline → Action W C P E A
  timeout_error node_id step (run_limit _) = expect control.run_timeout >>= λ timeout.
      λ s. raise (run_timed_out s.run_id timeout node_id step) s
  timeout_error node_id step (node_limit _) = expect node_id >>= λ path.
      expect control.node_timeout >>= λ timeout.
      λ s. raise (node_timed_out s.run_id timeout path step) s

  abbrev pub raise_cancelled : {A : Type 0} → Option NodePath → ℕ → Action W C P E A
  raise_cancelled node_id step s = raise (GraphRunError.cancelled s.run_id node_id step) s

  -- `is_cancelled` of the token.
  abbrev pub observe_cancelled : Action W C P E Bool
  observe_cancelled = if control.cancellation_enabled then call env.is_cancelled else pure false

  unfoldable pub check_deadline :
      Option NodePath → ℕ → Option ActiveDeadline → Action W C P E (Unit {0})
  unfolding timeout_error
  check_deadline node_id step none = pure tt
  check_deadline node_id step (some limit) = call env.now >>= λ now.
      if leb (instant limit) now then timeout_error node_id step limit else pure tt

  -- `ActiveControl::check`, with the return of its error.
  unfoldable pub check : Option NodePath → ℕ → Option ActiveDeadline → Action W C P E (Unit {0})
  unfolding timeout_error
  check node_id step limit = observe_cancelled >>= λ is_cancelled.
      if is_cancelled then raise_cancelled node_id step else check_deadline node_id step limit

  -- The check with the deadline of the run alone.
  unfoldable pub check_run : Option NodePath → ℕ → Action W C P E (Unit {0})
  unfolding check
  check_run node_id step = check node_id step (deadline_of control none)

  -- The branches of the biased `select!`.
  unfoldable pub choose :
      {A : Type 0}
      → Option NodePath
      → ℕ
      → Option ActiveDeadline
      → Action W C P E A
      → Readiness
      → Action W C P E A
  unfolding timeout_error
  choose node_id step limit future cancellation =
      if control.cancellation_enabled then raise_cancelled node_id step else future
  choose node_id step none future deadline = future
  choose node_id step (some limit) future deadline = timeout_error node_id step limit
  choose node_id step limit future completion = future

  -- Awaits a future, which a cancellation or a deadline may end.
  unfoldable pub race :
      {A : Type 0}
      → Option NodePath
      → ℕ
      → Option ActiveDeadline
      → Action W C P E A
      → Action W C P E A
  unfolding timeout_error
  race node_id step limit future =
      if is_disabled control
      then future
      else (call env.select >>= λ readiness. choose node_id step limit future readiness)

  unfoldable pub await_run_boundary : {A : Type 0} → ℕ → Action W C P E A → Action W C P E A
  unfolding race
  await_run_boundary step future = race none step (deadline_of control none) future

  -- `map_err`, after the check.
  abbrev pub node_result :
      NodePath → ℕ → Result (NodeOutcome U P) E → Action W C P E (NodeOutcome U P)
  node_result node_id step (ok outcome) = pure outcome
  node_result node_id step (err source) = raise (node_failed node_id step source)

  unfoldable pub execute_node :
      CompiledNode S E N → S → NodeContext P → Option ℕ → Action W C P E (NodeOutcome U P)
  unfolding check race
  execute_node compiled state context node_deadline =
      let node_id = some compiled.path in
      let limit = deadline_of control node_deadline in
      check node_id context.step limit
      >> race node_id context.step limit (call (env.run_node compiled.kind state context))
      >>= λ result. check_run node_id context.step >> node_result compiled.path context.step result
