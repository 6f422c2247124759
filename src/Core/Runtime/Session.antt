-- ===== src/Core/Runtime/Session.antt =====
-- What a run of crates/group-agent-core/src/runtime.rs acts on: the environment, through an
-- interface, and the events. An action returns its result and the session after it, also when it
-- fails, since what was emitted and written stays so.
use group.Prelude.{
  if◌then◌else◌, nat_eq, string_eq, bool_eq, option_eq, list_eq, Result, ok, err, ℕ, Bool, true,
  false, ◌||◌, Option, none, some, List, [], ◌∷◌, ◌++◌,
}
use group.Core.Path.{NodePath}
use group.Core.Record.{CheckpointId, RunId, BranchId, ThreadId}
use group.Core.Store.{CheckpointerError, CheckpointWriteError}
use group.Core.Checkpoint.{NodeOutcome, Checkpoint, CheckpointRequest}
use group.Core.Runtime.Error.{GraphRunError}
use group.Core.Runtime.Event.{GraphEvent, run_failed, failure_of}

-- `NodeContext` of context.rs. The cancellation token is the environment's.
pub record NodeContext (P : Type 0) : Type 0 where
  pub step : ℕ
  pub node_path : NodePath
  pub run_deadline : Option ℕ
  pub resume_value : Option P

-- The future that a `select!` finds ready first.
pub data Readiness : Type 0 where
  cancellation deadline completion : Readiness

pub record NodeUpdate (U : Type 0) : Type 0 where
  pub node_path : NodePath
  pub update : U

-- The application's code, the checkpointer, the clock and the scheduler, over a world `W` that
-- each call may change: the traits `Node`, `GraphState`, `CheckpointState` and `Checkpointer`,
-- `CancellationToken::is_cancelled`, `Instant::now`, a fresh UUID, the first ready future of a
-- `select!`, and the position of the future that `FuturesUnordered::next` yields among the pending
-- ones. `S` is the state, `U` its update, `N` the kind of a node and `E` the application's error.
pub record Environment (W S E N U P C : Type 0) : Type 0 where
  pub is_cancelled : W → Bool × W
  pub now : W → ℕ × W
  pub next_id : W → ℕ × W
  pub select : W → Readiness × W
  pub next_completed : W → ℕ × W
  pub run_node : N → S → NodeContext P → W → Result (NodeOutcome U P) E × W
  pub apply : U → S → Result S E
  pub apply_batch : List (NodeUpdate U) → S → Result S E
  pub snapshot : S → Result C E
  pub restore : C → Result S E
  pub save : CheckpointRequest C P → W → Result (Checkpoint C P) CheckpointWriteError × W
  pub save_branch :
      BranchId → CheckpointRequest C P → W → Result (Checkpoint C P) CheckpointWriteError × W
  pub create_branch :
      ThreadId → BranchId → CheckpointId → W → Result (Unit {0}) CheckpointWriteError × W
  pub latest : ThreadId → W → Result (Option (Checkpoint C P)) CheckpointerError × W
  pub get_checkpoint :
      ThreadId → CheckpointId → W → Result (Option (Checkpoint C P)) CheckpointerError × W
  pub branch_head : ThreadId → BranchId → W → Result (Option (Checkpoint C P)) CheckpointerError × W

pub data EventRetention : Type 0 where
  all_events no_events : EventRetention

pub record EventConfig : Type 0 where
  pub retention : EventRetention
  pub has_sink : Bool

abbrev pub retains : EventRetention → Bool
retains all_events = true
retains no_events = false

abbrev pub is_enabled : EventConfig → Bool
is_enabled config = retains config.retention || config.has_sink

-- A call of the checkpointer that writes.
pub data CheckpointWrite (C P : Type 0) : Type 0 where
  saved : CheckpointRequest C P → CheckpointWrite C P
  saved_branch : BranchId → CheckpointRequest C P → CheckpointWrite C P
  created_branch : ThreadId → BranchId → CheckpointId → CheckpointWrite C P

-- `EventEmitter` with the world: `delivered` is what the sink was given, and `writes` the writing
-- calls of the checkpointer, both in their order. `expected_parent` is that of an
-- `EnabledCheckpoint`.
pub record Session (W C P : Type 0) : Type 0 where
  pub world : W
  pub run_id : RunId
  pub config : EventConfig
  pub delivered : List GraphEvent
  pub retained : List GraphEvent
  pub expected_parent : Option CheckpointId
  pub writes : List (CheckpointWrite C P)

-- How an action stops before its end: by an error, by a panic of the source, or since the fuel of
-- the model ran out.
pub data Stop (E : Type 0) : Type 0 where
  failed : GraphRunError E → Stop E
  panicked out_of_fuel : Stop E

abbrev pub Action : Type 0 → Type 0 → Type 0 → Type 0 → Type 0 → Type 0
Action W C P E A = Session W C P → Result A (Stop E) × Session W C P

module _ {W C P E : Type 0} where
  abbrev pub pure : {A : Type 0} → A → Action W C P E A
  pure a s = (ok a, s)

  abbrev pub stop : {A : Type 0} → Stop E → Action W C P E A
  stop e s = (err e, s)

  abbrev pub raise : {A : Type 0} → GraphRunError E → Action W C P E A
  raise e = stop (failed e)

  abbrev pub continue_with :
      {A B : Type 0}
      → (A → Action W C P E B)
      → Result A (Stop E) × Session W C P
      → Result B (Stop E) × Session W C P
  continue_with next (ok a, s) = next a s
  continue_with next (err e, s) = (err e, s)

  infixl 5 ◌>>=◌ ◌>>◌
  abbrev pub ◌>>=◌ : {A B : Type 0} → Action W C P E A → (A → Action W C P E B) → Action W C P E B
  ◌>>=◌ first next s = continue_with next (first s)

  abbrev pub ◌>>◌ : {A B : Type 0} → Action W C P E A → Action W C P E B → Action W C P E B
  first >> second = first >>= λ _. second

  -- An index out of range, or `unreachable!`.
  abbrev pub expect : {A : Type 0} → Option A → Action W C P E A
  expect none = stop panicked
  expect (some a) = pure a

  abbrev pub raise_if_some : Option (GraphRunError E) → Action W C P E (Unit {0})
  raise_if_some none = pure tt
  raise_if_some (some e) = raise e

  -- A call of the environment.
  abbrev pub call : {A : Type 0} → (W → A × W) → Action W C P E A
  call f s = (ok (f s.world).0, record s { world = (f s.world).1 })

  -- A writing call of the checkpointer.
  abbrev pub write : {A : Type 0} → CheckpointWrite C P → (W → A × W) → Action W C P E A
  write entry f s =
      (ok (f s.world).0, record s { world = (f s.world).1; writes = s.writes ++ entry ∷ [] })

  unfoldable pub emit : GraphEvent → Action W C P E (Unit {0})
  emit event s =
      if is_enabled s.config
      then (
        ok tt,
        record s {
          delivered = if s.config.has_sink then s.delivered ++ event ∷ [] else s.delivered;
          retained = if retains s.config.retention then s.retained ++ event ∷ [] else s.retained;
        },
      )
      else (ok tt, s)

  unfoldable pub fail_with :
      {A : Type 0} → Result A (Stop E) × Session W C P → Result A (Stop E) × Session W C P
  unfolding emit failure_of
  fail_with (ok a, s) = (ok a, s)
  fail_with (err (failed e), s) = (err (failed e), (emit (run_failed s.run_id (failure_of e)) s).1)
  fail_with (err panicked, s) = (err panicked, s)
  fail_with (err out_of_fuel, s) = (err out_of_fuel, s)

  -- The source leaves each error by `EventEmitter::fail`, which is put round the whole action here.
  unfoldable pub failing : {A : Type 0} → Action W C P E A → Action W C P E A
  unfolding emit failure_of
  failing action s = fail_with (action s)
