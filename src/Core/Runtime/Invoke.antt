-- ===== src/Core/Runtime/Invoke.antt =====
-- `invoke` and its variants in crates/group-agent-core/src/runtime.rs. `rounds` and `fuel` bound the
-- loop over supersteps and the loop of `normalize_frontier`.
use group.Prelude.{
  if◌then◌else◌, is_some, nat_eq, string_eq, bool_eq, option_eq, list_eq, Result, ok, ℕ, true,
  Option, none, some, List, [], ◌∷◌,
}
use group.Core.Path.{NodePath}
use group.Core.Record.{CheckpointId}
use group.Core.Transition.{NodeIndex}
use group.Core.Graph.{CompiledGraph}
use group.Core.Checkpoint.{CheckpointConfig}
use group.Core.Runtime.Event.{run_started}
use group.Core.Runtime.Session.{
  Environment, EventConfig, Session, Stop, panicked, Action, pure, stop, ◌>>=◌, ◌>>◌, emit, failing,
}
use group.Core.Runtime.Control.{RunControl, ActiveControl, activate, check, check_run}
use group.Core.Runtime.Route.{node_at, normalize_frontier, emit_boundaries}
use group.Core.Runtime.Save.{
  RuntimeCheckpoint, disabled_checkpoint, read_only_replay, enabled_checkpoint,
}
use group.Core.Runtime.Node.{Execution}
use group.Core.Runtime.Execute.{
  RunReport, ExecutionOutcome, run_finished, run_suspended, execute_internal,
}

abbrev pub parent_of : RuntimeCheckpoint → Option CheckpointId
parent_of disabled_checkpoint = none
parent_of (read_only_replay thread_id checkpoint_id) = none
parent_of (enabled_checkpoint config graph_version) = config.expected_parent

abbrev pub entry_frontier : Option NodeIndex → List NodeIndex
entry_frontier none = []
entry_frontier (some index) = index ∷ []

-- What `invoke_internal` gives `execute_internal`.
abbrev pub initial_execution : {S P : Type 0} → S → List NodeIndex → Execution S P
initial_execution initial_state frontier = record {
  state = initial_state;
  steps = 0;
  visited_nodes = [];
  frontier = frontier;
  superstep = 0;
  resume_node = none;
  resume_value = none;
}

module _ {W S E N U P C : Type 0} (env : Environment W S E N U P C) (graph : CompiledGraph S E N)
    (rounds fuel max_steps : ℕ) where
  -- The emitter of an invocation, after its instant and its identifier.
  abbrev pub first_session : EventConfig → W → Session W C P
  first_session event_config w =
      let (run_id, w₂) = env.next_id (env.now w).1 in
      record {
        world = w₂;
        run_id = run_id;
        config = event_config;
        delivered = [];
        retained = [];
        expected_parent = none;
        writes = [];
      }

  -- The start of an invocation.
  abbrev pub begin :
      {A : Type 0}
      → EventConfig
      → RunControl
      → (ActiveControl → Action W C P E A)
      → W
      → Result A (Stop E) × Session W C P
  begin event_config run_control body w =
      body (activate run_control (env.now w).0) (first_session event_config w)

  unfoldable pub first_path : List NodeIndex → Action W C P E (Option NodePath)
  unfolding node_at
  first_path [] = pure none
  first_path (index ∷ rest) = node_at graph index >>= λ compiled. pure (some compiled.path)

  -- `invoke_internal`, before the loop.
  unfoldable pub prepare : ActiveControl → S → Action W C P E (List NodeIndex)
  unfolding emit node_at normalize_frontier emit_boundaries check
  prepare control initial_state =
      (λ s. emit (run_started s.run_id max_steps) s)
      >> normalize_frontier graph fuel initial_state 0 (entry_frontier graph.entry_index) []
      >>= λ (frontier, boundaries).
          emit_boundaries graph boundaries >> first_path frontier >>= λ initial_node.
          check_run env control initial_node (if is_some initial_node then 1 else 0)
          >> pure frontier

  -- `EnabledCheckpoint::new`: the parent that the first save expects.
  abbrev pub expect_parent : Option CheckpointId → Action W C P E (Unit {0})
  expect_parent parent s = (ok tt, record s { expected_parent = parent })

  unfoldable pub invoke_internal :
      RuntimeCheckpoint → S → ActiveControl → Action W C P E (ExecutionOutcome S P)
  unfolding prepare failing execute_internal
  invoke_internal mode initial_state control =
      failing (expect_parent (parent_of mode) >> prepare control initial_state) >>= λ frontier.
      execute_internal env control mode graph fuel rounds max_steps true
        (initial_execution initial_state frontier)

  abbrev pub finished_report : ExecutionOutcome S P → Action W C P E (RunReport S)
  finished_report (run_finished report) = pure report
  finished_report (run_suspended report) = stop panicked

  -- `invoke_with_control`, which the shorter entry points call with defaults.
  unfoldable pub invoke_with_control :
      S → EventConfig → RunControl → W → Result (RunReport S) (Stop E) × Session W C P
  unfolding invoke_internal
  invoke_with_control initial_state event_config run_control =
      begin event_config run_control
        (λ control. invoke_internal disabled_checkpoint initial_state control >>= finished_report)

  unfoldable pub invoke_with_checkpoint :
      S
      → EventConfig
      → RunControl
      → CheckpointConfig
      → W
      → Result (ExecutionOutcome S P) (Stop E) × Session W C P
  unfolding invoke_internal
  invoke_with_checkpoint initial_state event_config run_control config =
      begin event_config run_control
        (invoke_internal (enabled_checkpoint config graph.version) initial_state)
