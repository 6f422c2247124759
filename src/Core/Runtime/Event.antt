-- ===== src/Core/Runtime/Event.antt =====
-- `GraphEvent` and `RunFailure` of crates/group-agent-core/src/event.rs, with the failure that
-- crates/group-agent-core/src/runtime.rs reports for an error.
use group.Prelude.{nat_eq, string_eq, bool_eq, option_eq, list_eq, ℕ, Bool, Option, List}
use group.Core.Path.{GraphPath, NodePath}
use group.Core.Record.{CheckpointId, RunId, BranchId, InterruptId, ThreadId}
use group.Core.Runtime.Error.{CheckpointIncompatibility, GraphRunError}

pub data RunFailure : Type 0 where
  cancelled : Option NodePath → ℕ → RunFailure
  run_timed_out : ℕ → Option NodePath → ℕ → RunFailure
  node_timed_out : ℕ → NodePath → ℕ → RunFailure
  max_steps_exceeded : ℕ → NodePath → ℕ → RunFailure
  node_failed : NodePath → ℕ → RunFailure
  state_update_failed : NodePath → ℕ → RunFailure
  state_batch_update_failed : List NodePath → ℕ → RunFailure
  snapshot_failed : ThreadId → ℕ → ℕ → RunFailure
  checkpoint_conflict : ThreadId → ℕ → ℕ → Option CheckpointId → Option CheckpointId → RunFailure
  checkpoint_id_conflict : ThreadId → CheckpointId → ℕ → ℕ → RunFailure
  checkpoint_encode_failed : ThreadId → ℕ → ℕ → RunFailure
  checkpoint_save_failed : ThreadId → ℕ → ℕ → RunFailure
  checkpoint_load_failed : ThreadId → Option CheckpointId → RunFailure
  checkpoint_not_found : ThreadId → Option CheckpointId → RunFailure
  resume_conflict : ThreadId → CheckpointId → Option CheckpointId → ℕ → RunFailure
  branch_not_found : ThreadId → BranchId → ℕ → RunFailure
  branch_creation_failed : ThreadId → BranchId → CheckpointId → ℕ → RunFailure
  branch_checkpoint_conflict :
      ThreadId → BranchId → ℕ → ℕ → Option CheckpointId → Option CheckpointId → RunFailure
  checkpoint_incompatible : ThreadId → CheckpointId → ℕ → CheckpointIncompatibility → RunFailure
  restore_failed : ThreadId → CheckpointId → ℕ → ℕ → RunFailure
  interrupt_requires_checkpoint : InterruptId → NodePath → ℕ → RunFailure
  unsupported_parallel_interrupt : InterruptId → NodePath → ℕ → RunFailure
  missing_resume_value : ThreadId → CheckpointId → InterruptId → NodePath → ℕ → RunFailure
  unexpected_resume_value : ThreadId → CheckpointId → ℕ → RunFailure
  replay_interrupt_unsupported : ThreadId → CheckpointId → InterruptId → NodePath → ℕ → RunFailure
  route_failed : NodePath → ℕ → RunFailure
  invalid_route_target : NodePath → NodePath → ℕ → RunFailure
  empty_route_targets : NodePath → ℕ → RunFailure
  duplicate_route_target : NodePath → NodePath → ℕ → RunFailure

pub data GraphEvent : Type 0 where
  run_started : RunId → ℕ → GraphEvent
  run_resumed : RunId → ThreadId → CheckpointId → ℕ → ℕ → GraphEvent
  branch_resumed : RunId → ThreadId → BranchId → CheckpointId → ℕ → ℕ → GraphEvent
  replay_started : RunId → ThreadId → CheckpointId → ℕ → ℕ → GraphEvent
  fork_started : RunId → ThreadId → CheckpointId → BranchId → ℕ → ℕ → GraphEvent
  superstep_started : RunId → ℕ → List NodePath → GraphEvent
  node_started : RunId → NodePath → ℕ → GraphEvent
  node_interrupted : RunId → InterruptId → NodePath → ℕ → GraphEvent
  node_completed : RunId → NodePath → ℕ → GraphEvent
  state_updated : RunId → NodePath → ℕ → GraphEvent
  route_selected : RunId → NodePath → NodePath → ℕ → GraphEvent
  routes_selected : RunId → NodePath → List NodePath → ℕ → GraphEvent
  superstep_completed : RunId → ℕ → GraphEvent
  subgraph_started : RunId → GraphPath → GraphEvent
  subgraph_completed : RunId → GraphPath → GraphEvent
  checkpoint_saved : RunId → CheckpointId → ThreadId → ℕ → ℕ → Bool → GraphEvent
  run_interrupted : RunId → InterruptId → CheckpointId → ThreadId → NodePath → ℕ → ℕ → GraphEvent
  run_completed : RunId → ℕ → GraphEvent
  run_failed : RunId → RunFailure → GraphEvent

-- `RunFailure::from`.
unfoldable pub failure_of : {E : Type 0} → GraphRunError E → RunFailure
failure_of (GraphRunError.cancelled _ node_id step) = RunFailure.cancelled node_id step
failure_of (GraphRunError.run_timed_out _ timeout node_id step) =
    RunFailure.run_timed_out timeout node_id step
failure_of (GraphRunError.node_timed_out _ timeout node_id step) =
    RunFailure.node_timed_out timeout node_id step
failure_of (GraphRunError.max_steps_exceeded max_steps node_id step) =
    RunFailure.max_steps_exceeded max_steps node_id step
failure_of (GraphRunError.node_failed node_id step _) = RunFailure.node_failed node_id step
failure_of (GraphRunError.state_update_failed node_id step _) =
    RunFailure.state_update_failed node_id step
failure_of (GraphRunError.state_batch_update_failed node_ids step _) =
    RunFailure.state_batch_update_failed node_ids step
failure_of (GraphRunError.snapshot_failed _ thread_id superstep step _) =
    RunFailure.snapshot_failed thread_id superstep step
failure_of
      (GraphRunError.checkpoint_conflict _ thread_id superstep step expected_parent actual_parent) =
    RunFailure.checkpoint_conflict thread_id superstep step expected_parent actual_parent
failure_of (GraphRunError.checkpoint_id_conflict _ thread_id checkpoint_id superstep step) =
    RunFailure.checkpoint_id_conflict thread_id checkpoint_id superstep step
failure_of (GraphRunError.checkpoint_encode_failed _ thread_id superstep step _) =
    RunFailure.checkpoint_encode_failed thread_id superstep step
failure_of (GraphRunError.checkpoint_save_failed _ thread_id superstep step _) =
    RunFailure.checkpoint_save_failed thread_id superstep step
failure_of (GraphRunError.checkpoint_load_failed _ thread_id checkpoint_id _) =
    RunFailure.checkpoint_load_failed thread_id checkpoint_id
failure_of (GraphRunError.checkpoint_not_found _ thread_id checkpoint_id) =
    RunFailure.checkpoint_not_found thread_id checkpoint_id
failure_of (GraphRunError.resume_conflict _ thread_id checkpoint_id latest_checkpoint_id step) =
    RunFailure.resume_conflict thread_id checkpoint_id latest_checkpoint_id step
failure_of (GraphRunError.branch_not_found _ thread_id branch_id step) =
    RunFailure.branch_not_found thread_id branch_id step
failure_of
      (GraphRunError.branch_creation_failed _ thread_id branch_id source_checkpoint_id step _) =
    RunFailure.branch_creation_failed thread_id branch_id source_checkpoint_id step
failure_of
      (GraphRunError.branch_checkpoint_conflict _ thread_id branch_id superstep step expected_parent
        actual_parent) =
    RunFailure.branch_checkpoint_conflict thread_id branch_id superstep step expected_parent
      actual_parent
failure_of (GraphRunError.checkpoint_incompatible _ thread_id checkpoint_id step reason) =
    RunFailure.checkpoint_incompatible thread_id checkpoint_id step reason
failure_of (GraphRunError.restore_failed _ thread_id checkpoint_id superstep step _) =
    RunFailure.restore_failed thread_id checkpoint_id superstep step
failure_of (GraphRunError.interrupt_requires_checkpoint interrupt_id node_id step) =
    RunFailure.interrupt_requires_checkpoint interrupt_id node_id step
failure_of (GraphRunError.unsupported_parallel_interrupt interrupt_id node_id step) =
    RunFailure.unsupported_parallel_interrupt interrupt_id node_id step
failure_of
      (GraphRunError.missing_resume_value _ thread_id checkpoint_id interrupt_id node_id step) =
    RunFailure.missing_resume_value thread_id checkpoint_id interrupt_id node_id step
failure_of (GraphRunError.unexpected_resume_value _ thread_id checkpoint_id step) =
    RunFailure.unexpected_resume_value thread_id checkpoint_id step
failure_of
      (GraphRunError.replay_interrupt_unsupported _ source_thread_id source_checkpoint_id
        interrupt_id node_id step) =
    RunFailure.replay_interrupt_unsupported source_thread_id source_checkpoint_id interrupt_id
      node_id step
failure_of (GraphRunError.route_failed node_id step _) = RunFailure.route_failed node_id step
failure_of (GraphRunError.invalid_route_target node_id target step) =
    RunFailure.invalid_route_target node_id target step
failure_of (GraphRunError.empty_route_targets node_id step) =
    RunFailure.empty_route_targets node_id step
failure_of (GraphRunError.duplicate_route_target node_id target step) =
    RunFailure.duplicate_route_target node_id target step
