-- ===== src/Core/Runtime/Node.antt =====
-- The nodes of one superstep in `execute_internal` of crates/group-agent-core/src/runtime.rs: one
-- node alone, or several in parallel. The nodes of a frontier are looked up once, at the start of
-- its superstep; the run of a node counts where it completes.
use group.Prelude.{
  if◌then◌else◌, length, set, ◌==◌, nat_eq, string_eq, bool_eq, option_eq, list_eq, Result, ok, err,
  ℕ, zero, suc, ◌+◌, ◌%◌, true, false, Option, none, some, List, [], ◌∷◌, ◌++◌, map,
}
use group.Core.Path.{NodePath}
use group.Core.Record.{CheckpointId, RunId, ThreadId}
use group.Core.Transition.{NodeIndex}
use group.Core.Graph.{CompiledNode}
use group.Core.Checkpoint.{
  CheckpointInterrupt, InterruptRequest, into_checkpoint, NodeOutcome, update, interrupt,
}
use group.Core.Runtime.Error.{state_update_failed, state_batch_update_failed}
use group.Core.Runtime.Event.{
  GraphEvent, node_started, node_interrupted, node_completed, checkpoint_saved, run_interrupted,
}
use group.Core.Runtime.Session.{
  NodeContext, NodeUpdate, Environment, panicked, Action, pure, stop, raise, ◌>>=◌, ◌>>◌, expect,
  raise_if_some, call, emit,
}
use group.Core.Runtime.Control.{
  ActiveControl, after, deadline_of, check, check_run, await_run_boundary, execute_node,
}
use group.Core.Runtime.Save.{
  RuntimeCheckpoint, CheckpointBoundary, SavedCheckpoint, interrupt_error, save_checkpoint,
}

-- The variables of the loop.
pub record Execution (S P : Type 0) : Type 0 where
  pub state : S
  pub steps : ℕ
  pub visited_nodes : List NodePath
  pub frontier : List NodeIndex
  pub superstep : ℕ
  pub resume_node : Option NodeIndex
  pub resume_value : Option P

pub record InterruptReport (S P : Type 0) : Type 0 where
  pub run_id : RunId
  pub state : S
  pub steps : ℕ
  pub superstep : ℕ
  pub visited_nodes : List NodePath
  pub events : List GraphEvent
  pub checkpoint_id : CheckpointId
  pub thread_id : ThreadId
  pub interrupt : CheckpointInterrupt P

-- A node of a frontier, with the number of its step.
pub record Placed (S E N : Type 0) : Type 0 where
  pub index : NodeIndex
  pub compiled : CompiledNode S E N
  pub step : ℕ

abbrev pub path_of : {S E N : Type 0} → Placed S E N → NodePath
path_of placed = placed.compiled.path

-- A future in `pending_nodes`.
pub record PendingNode (S E N P : Type 0) : Type 0 where
  pub offset : ℕ
  pub placed : Placed S E N
  pub context : NodeContext P
  pub node_deadline : Option ℕ

-- What the nodes of a superstep come to: the execution with the new state, or an interrupt.
pub data Phase (S P : Type 0) : Type 0 where
  updated : Execution S P → Phase S P
  interrupted : InterruptReport S P → Phase S P

abbrev pub keep_first : {A : Type 0} → A → Option (A × List A) → Option (A × List A)
keep_first x none = none
keep_first x (some (y, rest)) = some (y, x ∷ rest)

-- Takes the element at a position out of a list.
unfoldable pub take_at : {A : Type 0} → ℕ → List A → Option (A × List A)
take_at i [] = none
take_at zero (x ∷ xs) = some (x, xs)
take_at (suc i) (x ∷ xs) = keep_first x (take_at i xs)

abbrev pub add_update :
    {U : Type 0} → NodePath → U → Option (List (NodeUpdate U)) → Option (List (NodeUpdate U))
add_update node_path u none = none
add_update node_path u (some rest) = some (record { node_path = node_path; update = u } ∷ rest)

-- `zip` of the paths and the slots, with the `expect` on each slot.
unfoldable pub batch_of :
    {U : Type 0} → List NodePath → List (Option U) → Option (List (NodeUpdate U))
batch_of (node_path ∷ paths) (some u ∷ slots) = add_update node_path u (batch_of paths slots)
batch_of (node_path ∷ paths) (none ∷ slots) = none
batch_of paths slots = some []

-- `update_slots`, all `None`.
abbrev pub empty_slots : {A U : Type 0} → List A → List (Option U)
empty_slots [] = []
empty_slots (x ∷ xs) = none ∷ empty_slots xs

module _ {W S E N U P C : Type 0} (env : Environment W S E N U P C) (control : ActiveControl)
    (mode : RuntimeCheckpoint) where
  -- `(resume_node == Some(index)).then(|| resume_value.clone()).flatten()`.
  abbrev pub resume_value_at : Execution S P → NodeIndex → Option P
  resume_value_at ex index = if ex.resume_node == some index then ex.resume_value else none

  -- Starts a node: its context and its deadline.
  unfoldable pub start_node :
      Execution S P → Placed S E N → Action W C P E (NodeContext P × Option ℕ)
  unfolding check emit
  start_node ex placed =
      let node_id = some (path_of placed) in
      check_run env control node_id placed.step >> call env.now >>= λ now.
      (λ s. emit (node_started s.run_id (path_of placed) placed.step) s)
      >> check env control node_id placed.step
          (deadline_of control (after control.node_timeout now))
      >> pure (
        record {
          step = placed.step;
          node_path = path_of placed;
          run_deadline = control.run_deadline;
          resume_value = resume_value_at ex placed.index;
        },
        after control.node_timeout now,
      )

  abbrev pub apply_update : Execution S P → Placed S E N → Result S E → Action W C P E (Phase S P)
  apply_update ex placed (err source) =
      raise (state_update_failed (path_of placed) placed.step source)
  apply_update ex placed (ok state) = pure (
      updated (record ex {
        state = state;
        steps = placed.step;
        visited_nodes = ex.visited_nodes ++ path_of placed ∷ [];
        superstep = ex.superstep + 1;
        resume_node = none;
        resume_value = none;
      }))

  -- A node alone that has completed.
  unfoldable pub complete_single : Execution S P → Placed S E N → U → Action W C P E (Phase S P)
  unfolding check emit
  complete_single ex placed u =
      (λ s. emit (node_completed s.run_id (path_of placed) placed.step) s)
      >> check_run env control (some (path_of placed)) placed.step
      >> check_run env control (some (path_of placed)) placed.step
      >> apply_update ex placed (env.apply u ex.state)

  abbrev pub interrupted_boundary :
      Execution S P → Placed S E N → CheckpointInterrupt P → CheckpointBoundary P
  interrupted_boundary ex placed waiting = record {
    superstep = ex.superstep;
    step = ex.steps;
    next_frontier = path_of placed ∷ [];
    completed = false;
    interrupt = some waiting;
  }

  abbrev pub report_interrupt :
      Execution S P
      → Placed S E N
      → CheckpointInterrupt P
      → SavedCheckpoint
      → Action W C P E (Phase S P)
  report_interrupt ex placed waiting saved s = (
    ok (
        interrupted (record {
          run_id = s.run_id;
          state = ex.state;
          steps = ex.steps;
          superstep = ex.superstep;
          visited_nodes = ex.visited_nodes ++ path_of placed ∷ [];
          events = s.retained;
          checkpoint_id = saved.id;
          thread_id = saved.thread_id;
          interrupt = waiting;
        })),
    s,
  )

  -- The end of a run that is interrupted.
  unfoldable pub suspend :
      Execution S P
      → Placed S E N
      → CheckpointInterrupt P
      → SavedCheckpoint
      → Action W C P E (Phase S P)
  unfolding emit
  suspend ex placed waiting saved =
      (λ s.
        emit
          (run_interrupted s.run_id waiting.id saved.id saved.thread_id (path_of placed)
            ex.superstep ex.steps)
          s)
      >> report_interrupt ex placed waiting saved

  -- A node alone that asks for an interrupt.
  unfoldable pub interrupt_single :
      Execution S P → Placed S E N → InterruptRequest P → Action W C P E (Phase S P)
  unfolding check emit await_run_boundary interrupt_error save_checkpoint suspend
  interrupt_single ex placed request =
      let node_id = path_of placed in
      let waiting = into_checkpoint node_id request in
      (λ s. emit (node_interrupted s.run_id waiting.id node_id placed.step) s)
      >> (λ s. raise_if_some (interrupt_error mode s.run_id waiting.id node_id placed.step false) s)
      >> await_run_boundary env control ex.steps
          (save_checkpoint env mode ex.state (interrupted_boundary ex placed waiting))
      >>= λ saved.
          (λ s.
            emit (checkpoint_saved s.run_id saved.id saved.thread_id ex.superstep ex.steps false) s)
          >> check_run env control none ex.steps
          >> suspend ex placed waiting saved

  unfoldable pub finish_single :
      Execution S P → Placed S E N → NodeOutcome U P → Action W C P E (Phase S P)
  unfolding complete_single interrupt_single
  finish_single ex placed (update u) = complete_single ex placed u
  finish_single ex placed (interrupt request) = interrupt_single ex placed request

  unfoldable pub run_single : Execution S P → Placed S E N → Action W C P E (Phase S P)
  unfolding start_node execute_node complete_single interrupt_single
  run_single ex placed = start_node ex placed >>= λ (context, node_deadline).
      execute_node env control placed.compiled ex.state context node_deadline
      >>= finish_single ex placed

  -- The loop that starts the nodes of a parallel frontier.
  unfoldable pub start_nodes :
      Execution S P → ℕ → List (Placed S E N) → Action W C P E (List (PendingNode S E N P))
  unfolding start_node
  start_nodes ex offset [] = pure []
  start_nodes ex offset (placed ∷ rest) = start_node ex placed >>= λ (context, node_deadline).
      start_nodes ex (offset + 1) rest >>= λ pending. pure (
        record {
          offset = offset;
          placed = placed;
          context = context;
          node_deadline = node_deadline;
        }
        ∷ pending)

  -- A parallel node that has completed.
  unfoldable pub complete_parallel : Placed S E N → NodeOutcome U P → Action W C P E U
  unfolding check emit interrupt_error
  complete_parallel placed (update u) =
      (λ s. emit (node_completed s.run_id (path_of placed) placed.step) s)
      >> check_run env control (some (path_of placed)) placed.step
      >> pure u
  complete_parallel placed (interrupt request) =
      (λ s. emit (node_interrupted s.run_id request.id (path_of placed) placed.step) s)
      >> (λ s.
          raise_if_some (interrupt_error mode s.run_id request.id (path_of placed) placed.step true)
            s)
      >> stop panicked

  -- The rest of a round: the node that has completed, and the next round.
  unfoldable pub after_choice :
      (List (PendingNode S E N P) → List (Option U) → Action W C P E (List (Option U)))
      → S
      → List (Option U)
      → Option (PendingNode S E N P × List (PendingNode S E N P))
      → Action W C P E (List (Option U))
  unfolding execute_node complete_parallel
  after_choice next state slots none = pure slots
  after_choice next state slots (some (p, rest)) =
      execute_node env control p.placed.compiled state p.context p.node_deadline
      >>= complete_parallel p.placed
      >>= λ u. next rest (set slots p.offset (some u))

  -- The loop over `pending_nodes`, for as many rounds as there are futures in it.
  unfoldable pub complete_nodes :
      ℕ → S → List (PendingNode S E N P) → List (Option U) → Action W C P E (List (Option U))
  unfolding take_at after_choice
  complete_nodes zero state pending slots = pure slots
  complete_nodes (suc rounds) state pending slots = call env.next_completed >>= λ choice.
      after_choice (complete_nodes rounds state) state slots
        (take_at (choice % length pending) pending)

  abbrev pub apply_updates :
      Execution S P → ℕ → List NodePath → Result S E → Action W C P E (Phase S P)
  apply_updates ex first_step node_ids (err source) =
      raise (state_batch_update_failed node_ids first_step source)
  apply_updates ex first_step node_ids (ok state) = pure (
      updated (record ex {
        state = state;
        steps = ex.steps + length node_ids;
        visited_nodes = ex.visited_nodes ++ node_ids;
        superstep = ex.superstep + 1;
        resume_node = none;
        resume_value = none;
      }))

  unfoldable pub run_parallel :
      Execution S P → Placed S E N → List (Placed S E N) → Action W C P E (Phase S P)
  unfolding start_nodes complete_nodes batch_of check
  run_parallel ex first nodes =
      let node_ids = map path_of nodes in
      start_nodes ex 0 nodes >>= λ pending.
      complete_nodes (length pending) ex.state pending (empty_slots nodes) >>= λ slots.
      check_run env control (some (path_of first)) first.step
      >> expect (batch_of node_ids slots)
      >>= λ batch. apply_updates ex first.step node_ids (env.apply_batch batch ex.state)
