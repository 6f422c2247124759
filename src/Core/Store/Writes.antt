-- ===== src/Core/Store/Writes.antt =====
-- The compare-and-swap of crates/group-agent-core/src/checkpoint_store.rs: when a write succeeds,
-- and what it changes.
use group.Prelude.{
  Option-cases, All, last?-concat, get, get-insert_self, get-insert_ne, ==_iff, nat_eq, string_eq,
  bool_eq, option_eq, list_eq, ◌>>=◌, ok, err, ◌≡◌, ◌≢◌, inl, inr, false, Option, none, some, List,
  [], ◌∷◌, ◌++◌, arith,
}
use group.Core.Record.{CheckpointId, BranchId, ThreadId, CheckpointRecord, record_eq}
use group.Core.Store.Lineage.{IsValid, Belongs}
use group.Core.Store.{
  InMemoryCheckpointStore, insert_new, insert_record, last_id, or_default, save, history, latest,
  branch_history, branch_head, conflict, InMemoryRecordState,
}

-- The record is the latest of its thread, it stands at the end of the history, and the other
-- threads and all branches are as before.
pub record Appended (r : CheckpointRecord) (store after : InMemoryCheckpointStore) : Type 0 where
  pub newest : latest r.thread_id after ≡ ok (some r)
  pub grown : history r.thread_id after ≡ (history r.thread_id store >>= λ h. ok (h ++ r ∷ []))
  pub others : (t : ThreadId) → r.thread_id ≢ t → history t after ≡ history t store
  pub branches : (t : ThreadId) (b : BranchId) → branch_history t b after ≡ branch_history t b store

-- The record is the head of its branch, it stands at the end of the branch's history, and the
-- threads and the other branches are as before.
pub record Grown (b : BranchId) (r : CheckpointRecord) (store after : InMemoryCheckpointStore)
    : Type 0 where
  pub newest : branch_head r.thread_id b after ≡ ok (some r)
  pub grown :
      branch_history r.thread_id b after
      ≡ (branch_history r.thread_id b store >>= λ h. ok (h ++ r ∷ []))
  pub threads : (t : ThreadId) → history t after ≡ history t store
  pub others :
      (t : ThreadId) (c : BranchId) → b ≢ c → branch_history t c after ≡ branch_history t c store

module _ (r : CheckpointRecord) (store : InMemoryCheckpointStore) (healthy : store.poisoned ≡ false)
    (fresh : get r.checkpoint_id store.state.by_id ≡ none) where
  -- The latest record of the thread.
  abbrev pub parent : Option CheckpointId
  parent = last_id (get r.thread_id store.state.histories)

last_id-stored :
    (s : InMemoryRecordState) (t : ThreadId) (h : List CheckpointRecord) (k : CheckpointId)
    → All (Belongs s t) h
    → last_id (some h) ≡ some k
    → get k s.by_id ≢ none
last_id-stored s t [] k own e = cc
last_id-stored s t (x ∷ []) k own e = λ n. ground arith
last_id-stored s t (x ∷ y ∷ h) k own e = last_id-stored s t (y ∷ h) k own.1 e

-- The parent that a valid store expects is stored.
expected-stored :
    (s : InMemoryRecordState) (t : ThreadId) (k : CheckpointId)
    → IsValid s
    → last_id (get t s.histories) ≡ some k
    → get k s.by_id ≢ none
expected-stored s t k v e = elim (Option-cases (get t s.histories)) [
  | inl n ↦ cc (rw n at e)
  | inr (h, found) ↦ last_id-stored s t h k (v.chains t h found).1 (rw found at e)
]

-- Of two new records for one thread, made from the same parent, at most one is saved: after the
-- first was, the second is refused with the first as the actual parent. The store is valid, and
-- the records have different identifiers.
pub competing_saves :
    (first second : CheckpointRecord) (store : InMemoryCheckpointStore)
    → IsValid store.state
    → get first.checkpoint_id store.state.by_id ≡ none
    → get second.checkpoint_id store.state.by_id ≡ none
    → first.checkpoint_id ≢ second.checkpoint_id
    → second.thread_id ≡ first.thread_id
    → second.parent_id ≡ first.parent_id
    → (save first store).0 ≡ ok first
    → (save second (save first store).1).0
      ≡ err (conflict second.parent_id (some first.checkpoint_id))
unfolding save insert_record insert_new
competing_saves first second store v fresh fresh' ne same from saved =
    let old = or_default (get first.thread_id store.state.histories) in
    let stored = expected-stored store.state first.thread_id first.checkpoint_id v in
    ground (
      arith,
      stored,
      ==_iff (last_id (get first.thread_id store.state.histories)) first.parent_id,
      ==_iff (some first.checkpoint_id) second.parent_id,
      get-insert_self first.thread_id (old ++ first ∷ []) store.state.histories,
      get-insert_ne first.checkpoint_id second.checkpoint_id first store.state.by_id ne,
      last?-concat old first,
    )
