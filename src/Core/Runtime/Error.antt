-- ===== src/Core/Runtime/Error.antt =====
-- `CheckpointIncompatibility` and `GraphRunError` of crates/group-agent-core/src/error.rs. `E` is the
-- error of the application's code: a node, a router, a state update or a snapshot. A duration is a
-- number.
use group.Prelude.{nat_eq, string_eq, bool_eq, option_eq, list_eq, ℕ, Option, List}
use group.Core.Path.{GraphPath, NodePath}
use group.Core.Record.{CheckpointId, RunId, BranchId, InterruptId, ThreadId, GraphVersion}
use group.Core.Record.Codec.{CheckpointEncodingError}
use group.Core.Store.{CheckpointerError, CheckpointWriteError}

pub data CheckpointIncompatibility : Type 0 where
  unversioned_checkpoint : CheckpointIncompatibility
  unversioned_graph : CheckpointIncompatibility
  graph_version_mismatch : GraphVersion → GraphVersion → CheckpointIncompatibility
  thread_mismatch : ThreadId → CheckpointIncompatibility
  checkpoint_id_mismatch : CheckpointId → CheckpointId → CheckpointIncompatibility
  unknown_frontier_node : NodePath → CheckpointIncompatibility
  duplicate_frontier_node : NodePath → CheckpointIncompatibility
  non_canonical_frontier_order : NodePath → NodePath → CheckpointIncompatibility
  mixed_frontier_namespace : GraphPath → GraphPath → NodePath → CheckpointIncompatibility
  start_in_frontier : CheckpointIncompatibility
  end_in_frontier : CheckpointIncompatibility
  completed_with_frontier : CheckpointIncompatibility
  incomplete_without_frontier : CheckpointIncompatibility
  completed_interrupt : CheckpointIncompatibility
  invalid_interrupt_frontier : NodePath → List NodePath → CheckpointIncompatibility

pub data GraphRunError (E : Type 0) : Type 0 where
  cancelled : RunId → Option NodePath → ℕ → GraphRunError E
  run_timed_out : RunId → ℕ → Option NodePath → ℕ → GraphRunError E
  node_timed_out : RunId → ℕ → NodePath → ℕ → GraphRunError E
  max_steps_exceeded : ℕ → NodePath → ℕ → GraphRunError E
  node_failed : NodePath → ℕ → E → GraphRunError E
  state_update_failed : NodePath → ℕ → E → GraphRunError E
  state_batch_update_failed : List NodePath → ℕ → E → GraphRunError E
  snapshot_failed : RunId → ThreadId → ℕ → ℕ → E → GraphRunError E
  checkpoint_conflict :
      RunId → ThreadId → ℕ → ℕ → Option CheckpointId → Option CheckpointId → GraphRunError E
  checkpoint_id_conflict : RunId → ThreadId → CheckpointId → ℕ → ℕ → GraphRunError E
  checkpoint_encode_failed : RunId → ThreadId → ℕ → ℕ → CheckpointEncodingError → GraphRunError E
  checkpoint_save_failed : RunId → ThreadId → ℕ → ℕ → CheckpointerError → GraphRunError E
  checkpoint_load_failed :
      RunId → ThreadId → Option CheckpointId → CheckpointerError → GraphRunError E
  checkpoint_not_found : RunId → ThreadId → Option CheckpointId → GraphRunError E
  resume_conflict : RunId → ThreadId → CheckpointId → Option CheckpointId → ℕ → GraphRunError E
  branch_not_found : RunId → ThreadId → BranchId → ℕ → GraphRunError E
  branch_creation_failed :
      RunId → ThreadId → BranchId → CheckpointId → ℕ → CheckpointWriteError → GraphRunError E
  branch_checkpoint_conflict :
      RunId
      → ThreadId
      → BranchId
      → ℕ
      → ℕ
      → Option CheckpointId
      → Option CheckpointId
      → GraphRunError E
  checkpoint_incompatible :
      RunId → ThreadId → CheckpointId → ℕ → CheckpointIncompatibility → GraphRunError E
  restore_failed : RunId → ThreadId → CheckpointId → ℕ → ℕ → E → GraphRunError E
  interrupt_requires_checkpoint : InterruptId → NodePath → ℕ → GraphRunError E
  unsupported_parallel_interrupt : InterruptId → NodePath → ℕ → GraphRunError E
  missing_resume_value :
      RunId → ThreadId → CheckpointId → InterruptId → NodePath → ℕ → GraphRunError E
  unexpected_resume_value : RunId → ThreadId → CheckpointId → ℕ → GraphRunError E
  replay_interrupt_unsupported :
      RunId → ThreadId → CheckpointId → InterruptId → NodePath → ℕ → GraphRunError E
  route_failed : NodePath → ℕ → E → GraphRunError E
  invalid_route_target : NodePath → NodePath → ℕ → GraphRunError E
  empty_route_targets : NodePath → ℕ → GraphRunError E
  duplicate_route_target : NodePath → NodePath → ℕ → GraphRunError E
