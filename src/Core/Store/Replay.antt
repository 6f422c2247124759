-- ===== src/Core/Store/Replay.antt =====
-- Sequences of the writing methods of crates/group-agent-core/src/checkpoint_store.rs: what is
-- stored stays, and a write that is sent again is answered as before.
use group.Prelude.{
  get, get-insert, get-insert_self, ==_iff, nat_eq, string_eq, bool_eq, option_eq, list_eq, ok, err,
  ◌≡◌, refl, ◌∙◌, false, Option, some, List, [], ◌∷◌, arith,
}
use group.Core.Record.{
  CheckpointId, BranchId, ThreadId, CheckpointRecord, record_eq, record_beq_iff,
}
use group.Core.Store.{
  InMemoryRecordState, InMemoryCheckpointStore, insert_new, insert_record, append_branch,
  insert_branch, branch_from, make_branch, CheckpointWriteError, save, save_branch, new,
}
use group.Core.Store.Operations.{
  Operation, save_call, save_branch_call, create_branch_call, perform, run,
}
use group.Core.Store.Lineage.{IsValid}
use group.Core.Store.Validity.{insert_record-IsValid, insert_branch-IsValid, make_branch-IsValid}

-- The record and its branch, under an identifier.
abbrev pub IsStored :
    CheckpointId → CheckpointRecord → Option BranchId → InMemoryRecordState → Type 0
IsStored k r owner s = (get k s.by_id ≡ some r) × (get k s.record_branches ≡ owner)

module _ (k : CheckpointId) (x : CheckpointRecord) (owner : Option BranchId) where
  insert_record-IsStored :
      (r : CheckpointRecord) (s : InMemoryRecordState)
      → IsStored k x owner s
      → IsStored k x owner (insert_record r s).1
  unfolding insert_record insert_new
  insert_record-IsStored r s h =
      ground (arith, get-insert r.checkpoint_id k r s.by_id, ==_iff r.checkpoint_id k)

  insert_branch-IsStored :
      (b : BranchId) (r : CheckpointRecord) (s : InMemoryRecordState)
      → IsStored k x owner s
      → IsStored k x owner (insert_branch b r s).1
  unfolding insert_branch append_branch
  insert_branch-IsStored b r s h = ground (
    arith,
    get-insert r.checkpoint_id k r s.by_id,
    get-insert r.checkpoint_id k b s.record_branches,
    ==_iff r.checkpoint_id k,
  )

  make_branch-IsStored :
      (t : ThreadId) (b : BranchId) (source : CheckpointId) (s : InMemoryRecordState)
      → IsStored k x owner s
      → IsStored k x owner (make_branch t b source s).1
  unfolding make_branch branch_from
  make_branch-IsStored t b source s h = ground arith

perform-IsValid :
    (op : Operation) (store : InMemoryCheckpointStore)
    → IsValid store.state
    → IsValid (perform op store).1.state
unfolding perform
perform-IsValid (save_call r) store v = ground (arith, insert_record-IsValid store.state r v)
perform-IsValid (save_branch_call b r) store v =
    ground (arith, insert_branch-IsValid store.state r v b)
perform-IsValid (create_branch_call t b k) store v =
    ground (arith, make_branch-IsValid store.state v t b k)

run_from-IsValid :
    (ops : List Operation) (store : InMemoryCheckpointStore)
    → IsValid store.state
    → IsValid (run ops store).state
unfolding run
run_from-IsValid [] store v = v
run_from-IsValid (op ∷ ops) store v =
    run_from-IsValid ops (perform op store).1 (perform-IsValid op store v)

new-IsValid : IsValid new.state
unfolding get
new-IsValid = record { keyed = λ k r h. cc; chains = λ t h e. cc; lines = λ b x e. cc }

-- After any sequence of saves, branch saves and branch creations, failing or not, on a new store:
-- every record is found under its own identifier; every thread history is a chain of parents that
-- starts at no parent; every branch history is a nonempty chain; and every record of a history
-- belongs to its thread and is found by its identifier.
pub run-IsValid : (ops : List Operation) → IsValid (run ops new).state
run-IsValid ops = run_from-IsValid ops new new-IsValid

perform-IsStored :
    (op : Operation) (store : InMemoryCheckpointStore) (k : CheckpointId) (x : CheckpointRecord)
    (owner : Option BranchId)
    → IsStored k x owner store.state
    → IsStored k x owner (perform op store).1.state
unfolding perform
perform-IsStored (save_call r) store k x o h =
    ground (arith, insert_record-IsStored k x o r store.state h)
perform-IsStored (save_branch_call b r) store k x o h =
    ground (arith, insert_branch-IsStored k x o b r store.state h)
perform-IsStored (create_branch_call t b i) store k x o h =
    ground (arith, make_branch-IsStored k x o t b i store.state h)

run-IsStored :
    (ops : List Operation) (store : InMemoryCheckpointStore) (k : CheckpointId)
    (x : CheckpointRecord) (owner : Option BranchId)
    → IsStored k x owner store.state
    → IsStored k x owner (run ops store).state
unfolding run
run-IsStored [] store k x o h = h
run-IsStored (op ∷ ops) store k x o h =
    run-IsStored ops (perform op store).1 k x o (perform-IsStored op store k x o h)

run-poisoned :
    (ops : List Operation) (store : InMemoryCheckpointStore)
    → (run ops store).poisoned ≡ store.poisoned
unfolding run perform
run-poisoned [] store = refl
run-poisoned (save_call r ∷ ops) store = run-poisoned ops _ ∙ ground arith
run-poisoned (save_branch_call b r ∷ ops) store = run-poisoned ops _ ∙ ground arith
run-poisoned (create_branch_call t b k ∷ ops) store = run-poisoned ops _ ∙ ground arith

-- A save that succeeded has stored the record that was given.
saved-IsStored :
    (r x : CheckpointRecord) (store : InMemoryCheckpointStore)
    → (save r store).0 ≡ ok x
    → (x ≡ r)
      × (store.poisoned ≡ false)
      × (get r.checkpoint_id (save r store).1.state.by_id ≡ some r)
unfolding save insert_record insert_new
saved-IsStored r x store h =
    ground (arith, record_beq_iff x r, get-insert_self r.checkpoint_id r store.state.by_id)

stored-save :
    (r : CheckpointRecord) (store : InMemoryCheckpointStore)
    → store.poisoned ≡ false
    → get r.checkpoint_id store.state.by_id ≡ some r
    → save r store ≡ (ok r, store)
unfolding save insert_record
stored-save r store p h = ground (arith, record_beq_iff r r)

-- A save that succeeded returned its record, and the same save sent again after any further calls,
-- which may have moved the latest record on, returns that record and leaves the store as it is.
pub save_replay :
    (r x : CheckpointRecord) (store : InMemoryCheckpointStore) (ops : List Operation)
    → (save r store).0 ≡ ok x
    → (x ≡ r) × (save r (run ops (save r store).1) ≡ (ok r, run ops (save r store).1))
save_replay r x store ops h =
    let (same, healthy, found) = saved-IsStored r x store h in
    let after = (save r store).1 in
    (
      same,
      stored-save r (run ops after) (run-poisoned ops after ∙ save-poisoned r store ∙ healthy)
          (run-IsStored ops after r.checkpoint_id r _ (found, refl)).0,
    )
  where
    save-poisoned :
        (r : CheckpointRecord) (store : InMemoryCheckpointStore)
        → (save r store).1.poisoned ≡ store.poisoned
    save-poisoned r store = unfold save in ground arith

saved_branch-IsStored :
    (b : BranchId) (r x : CheckpointRecord) (store : InMemoryCheckpointStore)
    → (save_branch b r store).0 ≡ ok x
    → (x ≡ r)
      × (store.poisoned ≡ false)
      × ((save_branch b r store).1.poisoned ≡ false)
      × IsStored r.checkpoint_id r (some b) (save_branch b r store).1.state
unfolding save_branch insert_branch append_branch
saved_branch-IsStored b r x store h = ground (
  arith,
  record_beq_iff x r,
  get-insert_self r.checkpoint_id r store.state.by_id,
  get-insert_self r.checkpoint_id b store.state.record_branches,
  ==_iff (get r.checkpoint_id store.state.record_branches) (some b),
)

stored-save_branch :
    (b : BranchId) (r : CheckpointRecord) (store : InMemoryCheckpointStore)
    → store.poisoned ≡ false
    → IsStored r.checkpoint_id r (some b) store.state
    → save_branch b r store ≡ (ok r, store)
unfolding save_branch insert_branch
stored-save_branch b r store p h =
    ground
      (arith, record_beq_iff r r, ==_iff (get r.checkpoint_id store.state.record_branches) (some b))

-- A save to a branch that succeeded returned its record, and the same save sent again after any
-- further calls, which may have moved the head of the branch on, returns that record and leaves
-- the store as it is.
pub save_branch_replay :
    (b : BranchId) (r x : CheckpointRecord) (store : InMemoryCheckpointStore) (ops : List Operation)
    → (save_branch b r store).0 ≡ ok x
    → (x ≡ r)
      × (save_branch b r (run ops (save_branch b r store).1)
          ≡ (ok r, run ops (save_branch b r store).1))
save_branch_replay b r x store ops h =
    let (same, was, healthy, found) = saved_branch-IsStored b r x store h in
    let after = (save_branch b r store).1 in
    (
      same,
      stored-save_branch b r (run ops after) (run-poisoned ops after ∙ healthy)
          (run-IsStored ops after r.checkpoint_id r (some b) found),
    )

-- A writing call that fails leaves the store as it was.
pub error_unchanged :
    (op : Operation) (store : InMemoryCheckpointStore) (e : CheckpointWriteError)
    → (perform op store).0 ≡ err e
    → (perform op store).1 ≡ store
unfolding perform insert_record insert_new insert_branch append_branch make_branch branch_from
error_unchanged (save_call r) store e h = ground arith
error_unchanged (save_branch_call b r) store e h = ground arith
error_unchanged (create_branch_call t b k) store e h = ground arith
