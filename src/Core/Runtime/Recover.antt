-- ===== src/Core/Runtime/Recover.antt =====
-- `resume`, `replay` and `fork` of crates/group-agent-core/src/runtime.rs.
use group.Prelude.{
  nat_eq, string_eq, bool_eq, option_eq, list_eq, Result, ok, err, ℕ, false, Option, none, some, [],
}
use group.Core.Record.{CheckpointId, BranchId, ThreadId}
use group.Core.Store.{CheckpointWriteError}
use group.Core.Graph.{CompiledGraph}
use group.Core.Checkpoint.{CheckpointPolicy, Checkpoint}
use group.Core.Runtime.Error.{branch_creation_failed}
use group.Core.Runtime.Event.{
  run_started, run_resumed, branch_resumed, replay_started, fork_started,
}
use group.Core.Runtime.Session.{
  Environment, EventConfig, Session, created_branch, Stop, Action, pure, raise, ◌>>=◌, ◌>>◌, write,
  emit, failing,
}
use group.Core.Runtime.Control.{RunControl, ActiveControl, check, check_run, await_run_boundary}
use group.Core.Runtime.Save.{RuntimeCheckpoint, read_only_replay, enabled_checkpoint}
use group.Core.Runtime.Execute.{RunReport, ExecutionOutcome, execute_internal}
use group.Core.Runtime.Invoke.{parent_of, begin, expect_parent, finished_report}
use group.Core.Runtime.Load.{
  ResumeConfig, Restored, requested_id, load_exact, load_target, check_id, check_thread,
  check_latest, restored_state, restore_checkpoint, emit_prefixes, emit_enclosing,
}

pub record ReplayReport (S : Type 0) : Type 0 where
  pub source_thread_id : ThreadId
  pub source_checkpoint_id : CheckpointId
  pub source_step : ℕ
  pub source_superstep : ℕ
  pub run : RunReport S

pub record ForkReport (S P : Type 0) : Type 0 where
  pub branch_id : BranchId
  pub source_thread_id : ThreadId
  pub source_checkpoint_id : CheckpointId
  pub outcome : ExecutionOutcome S P

module _ {W S E N U P C : Type 0} (env : Environment W S E N U P C) (graph : CompiledGraph S E N)
    (rounds fuel max_steps : ℕ) where
  unfoldable pub continue_restored :
      RuntimeCheckpoint → ActiveControl → Restored S C P → Action W C P E (ExecutionOutcome S P)
  unfolding execute_internal
  continue_restored mode control restored =
      expect_parent env graph rounds fuel max_steps (parent_of mode)
      >> execute_internal env control mode graph fuel rounds max_steps false (record {
        state = restored.state;
        steps = restored.checkpoint.step;
        visited_nodes = [];
        frontier = restored.frontier;
        superstep = restored.checkpoint.superstep;
        resume_node = restored.resume_node;
        resume_value = restored.resume_value;
      })

  unfoldable pub emit_branch_resumed :
      Option BranchId → ThreadId → Checkpoint C P → Action W C P E (Unit {0})
  unfolding emit
  emit_branch_resumed none thread_id checkpoint s = pure tt s
  emit_branch_resumed (some branch_id) thread_id checkpoint s =
      emit
        (branch_resumed s.run_id thread_id branch_id checkpoint.id checkpoint.step
          checkpoint.superstep)
        s

  -- `resume_with_state_initializer`, before the loop.
  unfoldable pub open_resume :
      ResumeConfig P → (S → Result S E) → ActiveControl → Action W C P E (Restored S C P)
  unfolding emit check await_run_boundary load_exact check_latest restore_checkpoint emit_prefixes
  open_resume config initialize control =
      (λ s. emit (run_started s.run_id max_steps) s)
      >> check_run env control none 0
      >> await_run_boundary env control 0 (load_target env graph config)
      >>= λ checkpoint.
          check_id env graph config.thread_id (requested_id config.target) checkpoint
          >> check_thread env graph config.thread_id checkpoint
          >> check_latest env graph control config checkpoint
          >> restore_checkpoint env graph control config.thread_id config.resume_value checkpoint
          >>= λ restored.
              restored_state env graph config.thread_id checkpoint (initialize restored.state)
              >>= λ state.
                  check_run env control none checkpoint.step
                  >> (λ s.
                      emit
                        (run_resumed s.run_id config.thread_id checkpoint.id checkpoint.step
                          checkpoint.superstep)
                        s)
                  >> emit_branch_resumed config.branch_id config.thread_id checkpoint
                  >> emit_enclosing env graph restored.frontier
                  >> pure (record restored { state = state })

  unfoldable pub resume_with_state_initializer :
      ResumeConfig P → (S → Result S E) → ActiveControl → Action W C P E (ExecutionOutcome S P)
  unfolding open_resume failing continue_restored
  resume_with_state_initializer config initialize control =
      failing (open_resume config initialize control) >>= λ restored.
      continue_restored
        (enabled_checkpoint
          (record {
            thread_id = config.thread_id;
            policy = config.policy;
            expected_parent = some restored.checkpoint.id;
            branch_id = config.branch_id;
          })
          graph.version)
        control restored

  unfoldable pub resume :
      ResumeConfig P
      → EventConfig
      → RunControl
      → W
      → Result (ExecutionOutcome S P) (Stop E) × Session W C P
  unfolding resume_with_state_initializer
  resume config event_config run_control =
      begin env graph rounds fuel max_steps event_config run_control
        (resume_with_state_initializer config ok)

  -- What `replay` and `fork` do alike: the load of an exact checkpoint and its tests.
  unfoldable pub open_exact :
      ThreadId → CheckpointId → Option P → ActiveControl → Action W C P E (Restored S C P)
  unfolding emit check await_run_boundary load_exact restore_checkpoint
  open_exact thread_id checkpoint_id resume_value control =
      (λ s. emit (run_started s.run_id max_steps) s)
      >> check_run env control none 0
      >> await_run_boundary env control 0 (load_exact env graph thread_id checkpoint_id)
      >>= λ checkpoint.
          check_id env graph thread_id (some checkpoint_id) checkpoint
          >> check_thread env graph thread_id checkpoint
          >> restore_checkpoint env graph control thread_id resume_value checkpoint

  abbrev pub replayed :
      ThreadId → CheckpointId → Restored S C P → RunReport S → Action W C P E (ReplayReport S)
  replayed thread_id checkpoint_id restored run = pure (record {
    source_thread_id = thread_id;
    source_checkpoint_id = checkpoint_id;
    source_step = restored.checkpoint.step;
    source_superstep = restored.checkpoint.superstep;
    run = run;
  })

  unfoldable pub open_replay :
      ThreadId → CheckpointId → Option P → ActiveControl → Action W C P E (Restored S C P)
  unfolding open_exact emit emit_prefixes
  open_replay thread_id checkpoint_id resume_value control =
      open_exact thread_id checkpoint_id resume_value control >>= λ restored.
      (λ s.
        emit
          (replay_started s.run_id thread_id checkpoint_id restored.checkpoint.step
            restored.checkpoint.superstep)
          s)
      >> emit_enclosing env graph restored.frontier
      >> pure restored

  unfoldable pub replay_action :
      ThreadId → CheckpointId → Option P → ActiveControl → Action W C P E (ReplayReport S)
  unfolding open_replay failing continue_restored
  replay_action thread_id checkpoint_id resume_value control =
      failing (open_replay thread_id checkpoint_id resume_value control) >>= λ restored.
      continue_restored (read_only_replay thread_id checkpoint_id) control restored
      >>= finished_report env graph rounds fuel max_steps
      >>= replayed thread_id checkpoint_id restored

  unfoldable pub replay :
      ThreadId
      → CheckpointId
      → Option P
      → EventConfig
      → RunControl
      → W
      → Result (ReplayReport S) (Stop E) × Session W C P
  unfolding replay_action
  replay thread_id checkpoint_id resume_value event_config run_control =
      begin env graph rounds fuel max_steps event_config run_control
        (replay_action thread_id checkpoint_id resume_value)

  abbrev pub branch_result :
      ThreadId
      → BranchId
      → Checkpoint C P
      → CheckpointId
      → Result (Unit {0}) CheckpointWriteError
      → Action W C P E (Unit {0})
  branch_result thread_id branch_id checkpoint checkpoint_id (ok done) s = pure tt s
  branch_result thread_id branch_id checkpoint checkpoint_id (err source) s =
      raise
        (branch_creation_failed s.run_id thread_id branch_id checkpoint_id checkpoint.step source) s

  unfoldable pub open_fork :
      ThreadId
      → CheckpointId
      → BranchId
      → Option P
      → ActiveControl
      → Action W C P E (Restored S C P)
  unfolding open_exact await_run_boundary emit emit_prefixes
  open_fork thread_id checkpoint_id branch_id resume_value control =
      open_exact thread_id checkpoint_id resume_value control >>= λ restored.
      await_run_boundary env control restored.checkpoint.step (
        write (created_branch thread_id branch_id checkpoint_id)
          (env.create_branch thread_id branch_id checkpoint_id)
        >>= branch_result thread_id branch_id restored.checkpoint checkpoint_id)
      >> (λ s.
          emit
            (fork_started s.run_id thread_id checkpoint_id branch_id restored.checkpoint.step
              restored.checkpoint.superstep)
            s)
      >> emit_enclosing env graph restored.frontier
      >> pure restored

  abbrev pub forked :
      ThreadId → CheckpointId → BranchId → ExecutionOutcome S P → Action W C P E (ForkReport S P)
  forked thread_id checkpoint_id branch_id outcome = pure (record {
    branch_id = branch_id;
    source_thread_id = thread_id;
    source_checkpoint_id = checkpoint_id;
    outcome = outcome;
  })

  unfoldable pub fork_action :
      ThreadId
      → CheckpointId
      → BranchId
      → CheckpointPolicy
      → Option P
      → ActiveControl
      → Action W C P E (ForkReport S P)
  unfolding open_fork failing continue_restored
  fork_action thread_id checkpoint_id branch_id policy resume_value control =
      failing (open_fork thread_id checkpoint_id branch_id resume_value control) >>= λ restored.
      continue_restored
        (enabled_checkpoint
          (record {
            thread_id = thread_id;
            policy = policy;
            expected_parent = some checkpoint_id;
            branch_id = some branch_id;
          })
          graph.version)
        control restored
      >>= forked thread_id checkpoint_id branch_id

  unfoldable pub fork :
      ThreadId
      → CheckpointId
      → BranchId
      → CheckpointPolicy
      → Option P
      → EventConfig
      → RunControl
      → W
      → Result (ForkReport S P) (Stop E) × Session W C P
  unfolding fork_action
  fork thread_id checkpoint_id branch_id policy resume_value event_config run_control =
      begin env graph rounds fuel max_steps event_config run_control
        (fork_action thread_id checkpoint_id branch_id policy resume_value)
