-- ===== src/Core/Runtime/Frame/Save.antt =====
-- The saves of a run keep a session's relation that its writes and the parent that it expects keep.
use group.Prelude.{
  nat_eq, string_eq, bool_eq, option_eq, list_eq, Result, ok, err, ℕ, refl, ◌≢◌, Bool, Option, none,
  some, [], ◌∷◌, ◌++◌,
}
use group.Core.Record.{CheckpointId, BranchId, GraphVersion}
use group.Core.Store.{CheckpointWriteError}
use group.Core.Checkpoint.{Checkpoint, CheckpointRequest, CheckpointConfig}
use group.Core.Runtime.Event.{GraphEvent}
use group.Core.Runtime.Session.{Environment, CheckpointWrite, Session, Stop, write}
use group.Core.Runtime.Save.{
  RuntimeCheckpoint, disabled_checkpoint, read_only_replay, enabled_checkpoint, CheckpointBoundary,
  send, accept, request_of, save_snapshot, with_snapshot, save_checkpoint,
}
use group.Core.Runtime.Frame.{Frame, Keeps, Any, bind-Keeps, panic-Keeps, raise-Keeps, call-Keeps}

module _ {W S E N U P C : Type 0} (env : Environment W S E N U P C)
    {R : Session W C P → Session W C P → Type 0} {F : Stop E → Type 0} {allowed : GraphEvent → Bool}
    (frame : Frame R F allowed) where
  -- The modes that save nothing are never asked to.
  pub read_only-saves :
      (mode : RuntimeCheckpoint)
      → ((config : CheckpointConfig) (version : Option GraphVersion)
          → mode ≢ enabled_checkpoint config version)
      → (state : S) (boundary : CheckpointBoundary P)
      → Keeps R F Any (save_checkpoint env mode state boundary)
  unfolding save_checkpoint
  read_only-saves disabled_checkpoint h state boundary = panic-Keeps frame
  read_only-saves (read_only_replay thread_id checkpoint_id) h state boundary = panic-Keeps frame
  read_only-saves (enabled_checkpoint config version) h state boundary =
      absurd (h config version refl)

  module _
      (keep_write : (s : Session W C P) (w : W) (entry : CheckpointWrite C P)
        → R s (record s { world = w; writes = s.writes ++ entry ∷ [] }))
      (keep_parent : (s : Session W C P) (parent : Option CheckpointId)
        → R s (record s { expected_parent = parent })) where
    write-Keeps :
        {A : Type 0} (entry : CheckpointWrite C P) (f : W → A × W)
        → Keeps R F Any (write {E = E} entry f)
    write-Keeps entry f = record { ends = λ s. (keep_write s _ entry, tt) }

    send-Keeps :
        (branch_id : Option BranchId) (request : Session W C P → CheckpointRequest C P)
        → Keeps R F Any (λ s. send env branch_id (request s) s)
    send-Keeps none request = record { ends = λ s. (keep_write s _ _, tt) }
    send-Keeps (some branch_id) request = record { ends = λ s. (keep_write s _ _, tt) }

    accept-Keeps :
        (config : CheckpointConfig) (superstep step : ℕ)
        (result : Result (Checkpoint C P) CheckpointWriteError)
        → Keeps R F Any (accept env config superstep step result)
    unfolding accept
    accept-Keeps config superstep step (err source) = raise-Keeps frame _
    accept-Keeps config superstep step (ok checkpoint) = record {
      ends = λ s. (keep_parent s (some checkpoint.id), tt);
    }

    save_snapshot-Keeps :
        (config : CheckpointConfig) (version : Option GraphVersion)
        (boundary : CheckpointBoundary P) (snapshot : C)
        → Keeps R F Any (save_snapshot env config version boundary snapshot)
    unfolding save_snapshot
    save_snapshot-Keeps config version boundary snapshot =
        bind-Keeps frame (call-Keeps frame env.next_id) (λ id q.
          bind-Keeps frame
            (send-Keeps config.branch_id
              (λ s. request_of env config version boundary snapshot id s))
            (λ result q. accept-Keeps config boundary.superstep boundary.step result))

    taken-Keeps :
        (config : CheckpointConfig) (version : Option GraphVersion)
        (boundary : CheckpointBoundary P) (r : Result C E)
        → Keeps R F Any (with_snapshot env config version boundary r)
    unfolding with_snapshot
    taken-Keeps config version boundary (ok snapshot) =
        save_snapshot-Keeps config version boundary snapshot
    taken-Keeps config version boundary (err source) = raise-Keeps frame _

    pub save_checkpoint-Keeps :
        (mode : RuntimeCheckpoint) (state : S) (boundary : CheckpointBoundary P)
        → Keeps R F Any (save_checkpoint env mode state boundary)
    unfolding save_checkpoint
    save_checkpoint-Keeps disabled_checkpoint state boundary = panic-Keeps frame
    save_checkpoint-Keeps (read_only_replay thread_id checkpoint_id) state boundary =
        panic-Keeps frame
    save_checkpoint-Keeps (enabled_checkpoint config version) state boundary =
        taken-Keeps config version boundary (env.snapshot state)
