-- ===== src/Core/Runtime/Save.antt =====
-- The checkpoint modes of crates/group-agent-core/src/runtime.rs: `RuntimeCheckpoint` with its three
-- implementations. The `expected_parent` of `EnabledCheckpoint` stands in the session.
use group.Prelude.{
  if◌then◌else◌, nat_eq, string_eq, bool_eq, option_eq, list_eq, Result, ok, err, ℕ, Bool, true,
  false, ◌||◌, Option, none, some, List,
}
use group.Core.Path.{NodePath}
use group.Core.Record.{CheckpointId, RunId, BranchId, InterruptId, ThreadId, GraphVersion}
use group.Core.Store.{CheckpointWriteError, conflict, idempotency_conflict, encoding}
use group.Core.Checkpoint.{
  CheckpointInterrupt, CheckpointPolicy, every_superstep, final_only, Checkpoint, CheckpointRequest,
  CheckpointConfig,
}
use group.Core.Runtime.Error.{
  GraphRunError, snapshot_failed, checkpoint_conflict, checkpoint_id_conflict,
  checkpoint_encode_failed, checkpoint_save_failed, branch_checkpoint_conflict,
  interrupt_requires_checkpoint, unsupported_parallel_interrupt, replay_interrupt_unsupported,
}
use group.Core.Runtime.Session.{
  Environment, saved, saved_branch, Session, panicked, Action, stop, raise, ◌>>=◌, call, write,
}

pub data RuntimeCheckpoint : Type 0 where
  disabled_checkpoint : RuntimeCheckpoint
  read_only_replay : ThreadId → CheckpointId → RuntimeCheckpoint
  enabled_checkpoint : CheckpointConfig → Option GraphVersion → RuntimeCheckpoint

pub record CheckpointBoundary (P : Type 0) : Type 0 where
  pub superstep : ℕ
  pub step : ℕ
  pub next_frontier : List NodePath
  pub completed : Bool
  pub interrupt : Option (CheckpointInterrupt P)

pub record SavedCheckpoint : Type 0 where
  pub id : CheckpointId
  pub thread_id : ThreadId

abbrev pub is_every_superstep : CheckpointPolicy → Bool
is_every_superstep every_superstep = true
is_every_superstep final_only = false

unfoldable pub should_save : RuntimeCheckpoint → Bool → Bool
should_save disabled_checkpoint completed = false
should_save (read_only_replay thread_id checkpoint_id) completed = false
should_save (enabled_checkpoint config graph_version) completed =
    is_every_superstep config.policy || completed

unfoldable pub interrupt_error :
    {E : Type 0}
    → RuntimeCheckpoint
    → RunId
    → InterruptId
    → NodePath
    → ℕ
    → Bool
    → Option (GraphRunError E)
interrupt_error disabled_checkpoint run_id interrupt_id node_id step parallel = some (
    if parallel
    then unsupported_parallel_interrupt interrupt_id node_id step
    else interrupt_requires_checkpoint interrupt_id node_id step)
interrupt_error (read_only_replay thread_id checkpoint_id) run_id interrupt_id node_id step
      parallel =
    some (replay_interrupt_unsupported run_id thread_id checkpoint_id interrupt_id node_id step)
interrupt_error (enabled_checkpoint config version) run_id interrupt_id node_id step parallel =
    if parallel then some (unsupported_parallel_interrupt interrupt_id node_id step) else none

-- The closure of `map_err` on a refused write.
unfoldable pub write_error :
    {E : Type 0}
    → RunId
    → ThreadId
    → Option BranchId
    → ℕ
    → ℕ
    → CheckpointWriteError
    → GraphRunError E
write_error run_id thread_id none superstep step (conflict expected actual) =
    checkpoint_conflict run_id thread_id superstep step expected actual
write_error run_id thread_id (some branch_id) superstep step (conflict expected actual) =
    branch_checkpoint_conflict run_id thread_id branch_id superstep step expected actual
write_error run_id thread_id branch_id superstep step (CheckpointWriteError.failed source) =
    checkpoint_save_failed run_id thread_id superstep step source
write_error run_id thread_id branch_id superstep step (idempotency_conflict checkpoint_id) =
    checkpoint_id_conflict run_id thread_id checkpoint_id superstep step
write_error run_id thread_id branch_id superstep step (encoding source) =
    checkpoint_encode_failed run_id thread_id superstep step source
write_error run_id thread_id branch_id superstep step source =
    checkpoint_save_failed run_id thread_id superstep step
      (record { message = "checkpoint branch save failed" })

module _ {W S E N U P C : Type 0} (env : Environment W S E N U P C) where
  -- `save_branch` or `save` of the checkpointer.
  abbrev pub send :
      Option BranchId
      → CheckpointRequest C P
      → Action W C P E (Result (Checkpoint C P) CheckpointWriteError)
  send none request = write (saved request) (env.save request)
  send (some branch_id) request =
      write (saved_branch branch_id request) (env.save_branch branch_id request)

  -- The end of `save`: the answer of the checkpointer.
  unfoldable pub accept :
      CheckpointConfig
      → ℕ
      → ℕ
      → Result (Checkpoint C P) CheckpointWriteError
      → Action W C P E SavedCheckpoint
  unfolding write_error
  accept config superstep step (err source) s =
      raise (write_error s.run_id config.thread_id config.branch_id superstep step source) s
  accept config superstep step (ok checkpoint) s = (
    ok (record { id = checkpoint.id; thread_id = config.thread_id }),
    record s { expected_parent = some checkpoint.id },
  )

  abbrev pub request_of :
      CheckpointConfig
      → Option GraphVersion
      → CheckpointBoundary P
      → C
      → CheckpointId
      → Session W C P
      → CheckpointRequest C P
  request_of config graph_version boundary snapshot id s = record {
    checkpoint_id = id;
    expected_parent = s.expected_parent;
    graph_version = graph_version;
    thread_id = config.thread_id;
    run_id = s.run_id;
    superstep = boundary.superstep;
    step = boundary.step;
    snapshot = snapshot;
    next_frontier = boundary.next_frontier;
    completed = boundary.completed;
    interrupt = boundary.interrupt;
  }

  -- Its write, once there is a snapshot.
  unfoldable pub save_snapshot :
      CheckpointConfig
      → Option GraphVersion
      → CheckpointBoundary P
      → C
      → Action W C P E SavedCheckpoint
  unfolding write_error
  save_snapshot config graph_version boundary snapshot = call env.next_id >>= λ id.
      (λ s. send config.branch_id (request_of config graph_version boundary snapshot id s) s)
      >>= accept config boundary.superstep boundary.step

  -- `save` of an `EnabledCheckpoint`, from the result of the snapshot.
  unfoldable pub with_snapshot :
      CheckpointConfig
      → Option GraphVersion
      → CheckpointBoundary P
      → Result C E
      → Action W C P E SavedCheckpoint
  unfolding save_snapshot
  with_snapshot config graph_version boundary (ok snapshot) s =
      save_snapshot config graph_version boundary snapshot s
  with_snapshot config graph_version boundary (err source) s =
      raise (snapshot_failed s.run_id config.thread_id boundary.superstep boundary.step source) s

  unfoldable pub save_checkpoint :
      RuntimeCheckpoint → S → CheckpointBoundary P → Action W C P E SavedCheckpoint
  unfolding with_snapshot
  save_checkpoint disabled_checkpoint state boundary = stop panicked
  save_checkpoint (read_only_replay thread_id checkpoint_id) state boundary = stop panicked
  save_checkpoint (enabled_checkpoint config graph_version) state boundary =
      with_snapshot config graph_version boundary (env.snapshot state)
