-- ===== src/Core/Store.antt =====
-- `InMemoryCheckpointStore` of crates/group-agent-core/src/checkpoint_store.rs. A method returns
-- its result and the store after it; an `Arc` is the value it shares, and the methods of the
-- `CheckpointStore` trait are the functions that they forward to.
pub mod Lineage
pub mod Validity
pub mod Operations
pub mod Replay
pub mod Writes
pub mod Tests
use group.Prelude.{
  if◌then◌else◌, last?, Map, get, insert, contains_key, ◌==◌, nat_eq, string_eq, bool_eq, option_eq,
  list_eq, Result, ◌>>=◌, ok, err, String, Bool, false, not, ◌&&◌, Option, none, some, List, [],
  ◌∷◌, ◌++◌, map,
}
use mathlib.Core.Option
use group.Core.Record.Codec.{CheckpointEncodingError}
use group.Core.Record.{CheckpointId, BranchId, ThreadId, CheckpointRecord, record_eq}

-- Its boxed cause is left out.
pub record CheckpointerError : Type 0 where
  pub message : String

pub data CheckpointWriteError : Type 0 where
  conflict : Option CheckpointId → Option CheckpointId → CheckpointWriteError
  idempotency_conflict : CheckpointId → CheckpointWriteError
  branch_already_exists branch_not_found : BranchId → CheckpointWriteError
  branch_source_not_found : BranchId → CheckpointId → CheckpointWriteError
  branch_unsupported : CheckpointWriteError
  encoding : CheckpointEncodingError → CheckpointWriteError
  failed : CheckpointerError → CheckpointWriteError

pub record BranchHead : Type 0 where
  pub branch_id : BranchId
  pub thread_id : ThreadId
  pub source_checkpoint_id : CheckpointId
  pub checkpoint_id : CheckpointId

pub record InMemoryBranch : Type 0 where
  pub thread_id : ThreadId
  pub history : List CheckpointRecord

pub record InMemoryRecordState : Type 0 where
  pub histories : Map ThreadId (List CheckpointRecord)
  pub by_id : Map CheckpointId CheckpointRecord
  pub record_branches : Map CheckpointId BranchId
  pub branches : Map BranchId InMemoryBranch

-- The mutex around the state; it is poisoned when a thread panicked while it held the lock.
pub record InMemoryCheckpointStore : Type 0 where
  pub poisoned : Bool
  pub state : InMemoryRecordState

abbrev pub new : InMemoryCheckpointStore
new = record {
  poisoned = false;
  state = record { histories = []; by_id = []; record_branches = []; branches = [] };
}

abbrev pub lock_error : CheckpointerError
lock_error = record { message = "in-memory checkpoint lock was poisoned" }

abbrev pub Saved : Type 0 → Type 0
Saved R = Result R CheckpointWriteError × InMemoryRecordState

-- `lock`, with what a method does under it.
abbrev pub locked {ℓ} :
    {R : Type ℓ}
    → (InMemoryRecordState → Result R CheckpointWriteError × InMemoryRecordState)
    → InMemoryCheckpointStore
    → Result R CheckpointWriteError × InMemoryCheckpointStore
locked method store =
    if store.poisoned
    then (err (failed lock_error), store)
    else (let (result, state) = method store.state in (result, record store { state = state }))

abbrev pub last_id : Option (List CheckpointRecord) → Option CheckpointId
last_id none = none
last_id (some history) = Option.map (λ r. r.checkpoint_id) (last? history)

abbrev pub or_default : Option (List CheckpointRecord) → List CheckpointRecord
or_default none = []
or_default (some history) = history

-- `insert`, after the identifier was found to be new.
pub insert_new : CheckpointRecord → InMemoryRecordState → Saved CheckpointRecord
insert_new r s =
    let history = get r.thread_id s.histories in
    let actual_parent = last_id history in
    if not (actual_parent == r.parent_id) then (err (conflict r.parent_id actual_parent), s) else (
      ok r,
      record s {
        histories = insert r.thread_id (or_default history ++ r ∷ []) s.histories;
        by_id = insert r.checkpoint_id r s.by_id;
      },
    )

pub insert_record : CheckpointRecord → InMemoryRecordState → Saved CheckpointRecord
unfolding insert_new
insert_record r s = elim (get r.checkpoint_id s.by_id) [
  | some existing ↦
      (if existing == r then ok existing else err (idempotency_conflict r.checkpoint_id), s)
  | none ↦ insert_new r s
]

-- `insert_branch`, after the branch was found and the identifier was found to be new.
pub append_branch :
    BranchId → InMemoryBranch → CheckpointRecord → InMemoryRecordState → Saved CheckpointRecord
append_branch branch_id branch r s =
    let actual_parent = last_id (some branch.history) in
    if not (branch.thread_id == r.thread_id)
    then (err (branch_not_found branch_id), s)
    else if not (actual_parent == r.parent_id)
    then (err (conflict r.parent_id actual_parent), s)
    else (
      ok r,
      record s {
        by_id = insert r.checkpoint_id r s.by_id;
        record_branches = insert r.checkpoint_id branch_id s.record_branches;
        branches =
            insert branch_id (record branch { history = branch.history ++ r ∷ [] }) s.branches;
      },
    )

pub insert_branch : BranchId → CheckpointRecord → InMemoryRecordState → Saved CheckpointRecord
unfolding append_branch
insert_branch branch_id r s = elim (get r.checkpoint_id s.by_id) [
  | some existing ↦ (
    if existing == r && get r.checkpoint_id s.record_branches == some branch_id
        then ok existing
        else err (idempotency_conflict r.checkpoint_id),
    s,
  )
  | none ↦ elim (get branch_id s.branches) [
    | none ↦ (err (branch_not_found branch_id), s)
    | some branch ↦ append_branch branch_id branch r s
  ]
]

-- `Option::filter` on the thread of a record.
abbrev pub in_thread : ThreadId → Option CheckpointRecord → Option CheckpointRecord
in_thread thread_id none = none
in_thread thread_id (some r) = if r.thread_id == thread_id then some r else none

pub branch_from :
    ThreadId
    → BranchId
    → CheckpointId
    → Option CheckpointRecord
    → InMemoryRecordState
    → Saved BranchHead
branch_from thread_id branch_id source_id none s =
    (err (branch_source_not_found branch_id source_id), s)
branch_from thread_id branch_id source_id (some source) s = (
  ok (record {
    branch_id = branch_id;
    thread_id = thread_id;
    source_checkpoint_id = source_id;
    checkpoint_id = source_id;
  }),
  record s {
    branches =
        insert branch_id (record { thread_id = thread_id; history = source ∷ [] }) s.branches;
  },
)

pub make_branch : ThreadId → BranchId → CheckpointId → InMemoryRecordState → Saved BranchHead
unfolding branch_from
make_branch thread_id branch_id source_id s =
    if contains_key branch_id s.branches
    then (err (branch_already_exists branch_id), s)
    else branch_from thread_id branch_id source_id (in_thread thread_id (get source_id s.by_id)) s

-- The writing methods of the trait.
pub save :
    CheckpointRecord
    → InMemoryCheckpointStore
    → Result CheckpointRecord CheckpointWriteError × InMemoryCheckpointStore
unfolding insert_record
save r = locked (insert_record r)

pub save_branch :
    BranchId
    → CheckpointRecord
    → InMemoryCheckpointStore
    → Result CheckpointRecord CheckpointWriteError × InMemoryCheckpointStore
unfolding insert_branch
save_branch branch_id r = locked (insert_branch branch_id r)

pub create_branch :
    ThreadId
    → BranchId
    → CheckpointId
    → InMemoryCheckpointStore
    → Result BranchHead CheckpointWriteError × InMemoryCheckpointStore
unfolding make_branch
create_branch thread_id branch_id source_id = locked (make_branch thread_id branch_id source_id)

-- The reading methods.
abbrev pub reading {ℓ} :
    {R : Type ℓ} → (InMemoryRecordState → R) → InMemoryCheckpointStore → Result R CheckpointerError
reading read store = if store.poisoned then err lock_error else ok (read store.state)

abbrev pub last_of : Option (List CheckpointRecord) → Option CheckpointRecord
last_of none = none
last_of (some history) = last? history

pub latest : ThreadId → InMemoryCheckpointStore → Result (Option CheckpointRecord) CheckpointerError
latest thread_id = reading (λ s. last_of (get thread_id s.histories))

pub get_checkpoint :
    ThreadId
    → CheckpointId
    → InMemoryCheckpointStore
    → Result (Option CheckpointRecord) CheckpointerError
get_checkpoint thread_id checkpoint_id =
    reading (λ s. in_thread thread_id (get checkpoint_id s.by_id))

pub history : ThreadId → InMemoryCheckpointStore → Result (List CheckpointRecord) CheckpointerError
history thread_id = reading (λ s. or_default (get thread_id s.histories))

-- The history of a branch that belongs to the thread.
abbrev pub branch_line : ThreadId → Option InMemoryBranch → Option (List CheckpointRecord)
branch_line thread_id none = none
branch_line thread_id (some branch) =
    if branch.thread_id == thread_id then some branch.history else none

pub branch_head :
    ThreadId
    → BranchId
    → InMemoryCheckpointStore
    → Result (Option CheckpointRecord) CheckpointerError
branch_head thread_id branch_id =
    reading (λ s. last_of (branch_line thread_id (get branch_id s.branches)))

pub branch_history :
    ThreadId → BranchId → InMemoryCheckpointStore → Result (List CheckpointRecord) CheckpointerError
branch_history thread_id branch_id =
    reading (λ s. or_default (branch_line thread_id (get branch_id s.branches)))

-- `try_from_records`: the inserts of an iterator, in order, up to the first that fails.
pub insert_all :
    List CheckpointRecord
    → InMemoryCheckpointStore
    → Result InMemoryCheckpointStore CheckpointWriteError
unfolding save
insert_all [] store = ok store
insert_all (r ∷ rest) store =
    let (result, store') = save r store in (result >>= λ _. insert_all rest store')

pub try_from_records : List CheckpointRecord → Result InMemoryCheckpointStore CheckpointWriteError
unfolding insert_all
try_from_records records = insert_all records new
