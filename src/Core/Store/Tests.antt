-- ===== src/Core/Store/Tests.antt =====
-- Runs of the store of crates/group-agent-core/src/checkpoint_store.rs on small records.
use group.Prelude.{
  get, insert, nat_eq, string_eq, bool_eq, option_eq, list_eq, ok, err, ◌≡◌, refl, false, Option,
  none, some, List, [], ◌∷◌, arith,
}
use group.Core.Path.{node_root}
use group.Core.Record.{CheckpointId, EncodedValue, CheckpointRecord, record_eq, record_beq}
use group.Core.Store.{
  InMemoryCheckpointStore, InMemoryBranch, new, save, insert_record, insert_new, save_branch,
  insert_branch, append_branch, create_branch, make_branch, branch_from, try_from_records,
  insert_all, history, branch_history, conflict,
}
use group.Core.Store.Lineage.{IsValid}
use group.Core.Store.Operations.{
  Operation, save_call, save_branch_call, create_branch_call, perform, run,
}
use group.Core.Store.Replay.{run-IsValid, save_replay, save_branch_replay, error_unchanged}
use group.Core.Store.Writes.{competing_saves}

abbrev snapshot : EncodedValue
snapshot = record {
  descriptor = record { schema = "state"; schema_version = 1; encoding = "json" };
  bytes = 123 ∷ 125 ∷ [];
}

abbrev checkpoint : CheckpointId → Option CheckpointId → CheckpointRecord
checkpoint id parent = record {
  parts = record {
    format_version = 1;
    checkpoint_id = id;
    thread_id = "thread";
    run_id = 7;
    parent_id = parent;
    graph_version = none;
    superstep = id;
    step = id;
    snapshot = snapshot;
    next_frontier = node_root "work" ∷ [];
    completed = false;
    interrupt = none;
  };
}

abbrev first : CheckpointRecord
first = checkpoint 1 none

abbrev second : CheckpointRecord
second = checkpoint 2 (some 1)

abbrev rival : CheckpointRecord
rival = checkpoint 3 (some 1)

abbrev with_first : InMemoryCheckpointStore
with_first = (save first new).1

-- Branch 5 starts at the first record.
abbrev branched : InMemoryCheckpointStore
branched = (create_branch "thread" 5 1 with_first).1

abbrev branch : InMemoryBranch
branch = record { thread_id = "thread"; history = first ∷ [] }

abbrev calls : List Operation
calls =
    save_call first
    ∷ save_call first
    ∷ create_branch_call "thread" 5 1
    ∷ save_call second
    ∷ save_branch_call 5 rival
    ∷ save_call rival
    ∷ []

run_history : history "thread" (run calls new) ≡ ok (first ∷ second ∷ [])
unfolding run perform history save insert_record insert_new save_branch insert_branch append_branch
    create_branch make_branch branch_from get insert record_beq
run_history = refl

run_branch : branch_history "thread" 5 (run calls new) ≡ ok (first ∷ rival ∷ [])
unfolding run perform branch_history save insert_record insert_new save_branch insert_branch
    append_branch create_branch make_branch branch_from get insert record_beq
run_branch = refl

import_refused : try_from_records (first ∷ second ∷ rival ∷ []) ≡ err (conflict (some 1) (some 2))
unfolding try_from_records insert_all save insert_record insert_new get insert record_beq
import_refused = refl

run-IsValid_example : IsValid (run calls new).state
run-IsValid_example = run-IsValid calls

save_replay_saved : (save first new).0 ≡ ok first
unfolding save insert_record insert_new get insert record_beq
save_replay_saved = refl

save_replay_example :
    (first ≡ first)
    × (save first (run calls (save first new).1) ≡ (ok first, run calls (save first new).1))
save_replay_example = save_replay first first new calls save_replay_saved

save_branch_replay_saved : (save_branch 5 rival branched).0 ≡ ok rival
unfolding save insert_record insert_new save_branch insert_branch append_branch create_branch
    make_branch branch_from get insert record_beq
save_branch_replay_saved = refl

save_branch_replay_example :
    (rival ≡ rival)
    × (save_branch 5 rival (run calls (save_branch 5 rival branched).1)
        ≡ (ok rival, run calls (save_branch 5 rival branched).1))
save_branch_replay_example =
    save_branch_replay 5 rival rival branched calls save_branch_replay_saved

error_unchanged_refused : (perform (save_call second) new).0 ≡ err (conflict (some 1) none)
unfolding perform save insert_record insert_new get insert
error_unchanged_refused = refl

error_unchanged_example : (perform (save_call second) new).1 ≡ new
error_unchanged_example =
    error_unchanged (save_call second) new (conflict (some 1) none) error_unchanged_refused

competing_saves_second_new :
    get second.checkpoint_id (run (save_call first ∷ []) new).state.by_id ≡ none
unfolding run perform save insert_record insert_new get insert
competing_saves_second_new = refl

competing_saves_rival_new :
    get rival.checkpoint_id (run (save_call first ∷ []) new).state.by_id ≡ none
unfolding run perform save insert_record insert_new get insert
competing_saves_rival_new = refl

competing_saves_saved : (save second (run (save_call first ∷ []) new)).0 ≡ ok second
unfolding run perform save insert_record insert_new get insert
competing_saves_saved = refl

competing_saves_example :
    (save rival (save second (run (save_call first ∷ []) new)).1).0
    ≡ err (conflict rival.parent_id (some second.checkpoint_id))
competing_saves_example =
    competing_saves second rival (run (save_call first ∷ []) new)
      (run-IsValid (save_call first ∷ [])) competing_saves_second_new competing_saves_rival_new
      (λ e. ground arith) refl refl competing_saves_saved
