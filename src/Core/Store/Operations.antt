-- ===== src/Core/Store/Operations.antt =====
-- The writing methods of crates/group-agent-core/src/checkpoint_store.rs as values, and sequences
-- of their calls.
use group.Prelude.{nat_eq, string_eq, bool_eq, option_eq, list_eq, Result, ok, err, List, [], ◌∷◌}
use group.Core.Record.{CheckpointId, BranchId, ThreadId, CheckpointRecord}
use group.Core.Store.{
  InMemoryCheckpointStore, BranchHead, CheckpointWriteError, save, save_branch, create_branch,
}

-- One call of a writing method.
pub data Operation : Type 0 where
  save_call : CheckpointRecord → Operation
  save_branch_call : BranchId → CheckpointRecord → Operation
  create_branch_call : ThreadId → BranchId → CheckpointId → Operation

pub data Reply : Type 0 where
  stored : CheckpointRecord → Reply
  head : BranchHead → Reply

abbrev pub reply {ℓ} :
    {A : Type ℓ} → (A → Reply) → Result A CheckpointWriteError → Result Reply CheckpointWriteError
reply f (ok a) = ok (f a)
reply f (err e) = err e

unfoldable pub perform :
    Operation
    → InMemoryCheckpointStore
    → Result Reply CheckpointWriteError × InMemoryCheckpointStore
unfolding save save_branch create_branch
perform (save_call r) store = let (result, store') = save r store in (reply stored result, store')
perform (save_branch_call b r) store =
    let (result, store') = save_branch b r store in (reply stored result, store')
perform (create_branch_call t b k) store =
    let (result, store') = create_branch t b k store in (reply head result, store')

unfoldable pub run : List Operation → InMemoryCheckpointStore → InMemoryCheckpointStore
run [] store = store
run (op ∷ rest) store = run rest (perform op store).1
