-- ===== src/Core/Checkpoint.antt =====
-- The typed checkpoints of crates/group-agent-core/src/checkpoint.rs, with the interrupts of
-- crates/group-agent-core/src/interrupt.rs. `C` is the snapshot of the application's state, and `P`
-- a type-erased value: the payload of an interrupt, or what resumes it.
use group.Prelude.{nat_eq, string_eq, bool_eq, option_eq, list_eq, ℕ, Bool, Option, List}
use group.Core.Path.{NodePath}
use group.Core.Record.{CheckpointId, RunId, BranchId, InterruptId, ThreadId, GraphVersion}

pub record CheckpointInterrupt (P : Type 0) : Type 0 where
  pub id : InterruptId
  pub node_path : NodePath
  pub payload : P

pub record InterruptRequest (P : Type 0) : Type 0 where
  pub id : InterruptId
  pub payload : P

abbrev pub into_checkpoint : {P : Type 0} → NodePath → InterruptRequest P → CheckpointInterrupt P
into_checkpoint node_path request = record {
  id = request.id;
  node_path = node_path;
  payload = request.payload;
}

pub data NodeOutcome (U P : Type 0) : Type 0 where
  update : U → NodeOutcome U P
  interrupt : InterruptRequest P → NodeOutcome U P

pub data CheckpointPolicy : Type 0 where
  every_superstep final_only : CheckpointPolicy

pub record Checkpoint (C P : Type 0) : Type 0 where
  pub id : CheckpointId
  pub thread_id : ThreadId
  pub run_id : RunId
  pub parent_id : Option CheckpointId
  pub graph_version : Option GraphVersion
  pub superstep : ℕ
  pub step : ℕ
  pub snapshot : C
  pub next_frontier : List NodePath
  pub completed : Bool
  pub interrupt : Option (CheckpointInterrupt P)

pub record CheckpointRequest (C P : Type 0) : Type 0 where
  pub checkpoint_id : CheckpointId
  pub expected_parent : Option CheckpointId
  pub graph_version : Option GraphVersion
  pub thread_id : ThreadId
  pub run_id : RunId
  pub superstep : ℕ
  pub step : ℕ
  pub snapshot : C
  pub next_frontier : List NodePath
  pub completed : Bool
  pub interrupt : Option (CheckpointInterrupt P)

-- The checkpointer of a configuration is the environment's.
pub record CheckpointConfig : Type 0 where
  pub thread_id : ThreadId
  pub policy : CheckpointPolicy
  pub expected_parent : Option CheckpointId
  pub branch_id : Option BranchId

pub data ResumeTarget : Type 0 where
  latest : ResumeTarget
  exact : CheckpointId → ResumeTarget
