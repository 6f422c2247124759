-- ===== src/Core/Runtime/Frame/Parallel.antt =====
-- The nodes of a parallel superstep keep a session's relation, and their updates are applied in the
-- order of the frontier.
use group.Prelude.{
  All, length, get_elem?, set, length-append, length-map, nat_eq, string_eq, bool_eq, option_eq,
  list_eq, Result, ok, err, ℕ, zero, suc, ◌+◌, ◌%◌, ◌≡◌, refl, ap, ◌∙◌, subst, Bool, true, false,
  Option, none, some, List, [], ◌∷◌, map, arith,
}
use group.Core.Checkpoint.{interrupt, update, NodeOutcome}
use group.Core.Record.{RunId}
use group.Core.Runtime.Error.{GraphRunError}
use group.Core.Runtime.Event.{GraphEvent, node_started}
use group.Core.Runtime.Session.{Environment, Session, Stop, raise_if_some, NodeContext, NodeUpdate}
use group.Core.Runtime.Control.{ActiveControl, after, deadline_of}
use group.Core.Runtime.Save.{RuntimeCheckpoint}
use group.Core.Runtime.Node.{
  Execution, Placed, path_of, PendingNode, Phase, updated, interrupted, take_at, batch_of,
  empty_slots, start_node, start_nodes, complete_parallel, after_choice, complete_nodes,
  apply_updates, run_parallel,
}
use group.Core.Runtime.Frame.{
  Frame, Keeps, Any, Post, is_plain, bind-Keeps, then-Keeps, pure-Keeps, call-Keeps, emit-Keeps,
  Action, raise-Keeps, expect-Keeps, weaken-Keeps, panic-Keeps,
}
use group.Core.Runtime.Frame.Control.{check-Keeps, check_run-Keeps, execute_node-Keeps}
use group.Core.Runtime.Frame.Batch.{
  Batch, Pending, Filled, Applied, empty-Filled, set-Filled, batch_of-Batch, take_at-Pending,
}

-- After `n` nodes: their steps are counted and they are visited; or the one node that asked for an
-- interrupt is visited, and no step is counted.
abbrev pub Counts : {S P : Type 0} → Execution S P → ℕ → Phase S P → Type 0
Counts ex n (updated next) =
    (next.steps ≡ ex.steps + n)
    × (length next.visited_nodes ≡ length ex.visited_nodes + n)
    × (next.superstep ≡ ex.superstep + 1)
Counts ex n (interrupted report) =
    (report.steps ≡ ex.steps)
    × (length report.visited_nodes ≡ length ex.visited_nodes + 1)
    × (report.superstep ≡ ex.superstep)

-- The nodes have completed with updates.
abbrev pub Updates : {S P : Type 0} → Execution S P → ℕ → Phase S P → Type 0
Updates ex n (updated next) = Counts ex n (updated next)
Updates ex n (interrupted report) = ◌≡◌ {A = Bool} false true

module _ {W S E N U P C : Type 0} (env : Environment W S E N U P C) (control : ActiveControl)
    (mode : RuntimeCheckpoint) {R : Session W C P → Session W C P → Type 0} {F : Stop E → Type 0}
    {allowed : GraphEvent → Bool} (frame : Frame R F allowed)
    (inner : (event : GraphEvent) → is_plain event ≡ true → allowed event ≡ true) where
  -- The context of a node that was started.
  abbrev pub Starts : Placed S E N → NodeContext P × Option ℕ → Type 0
  Starts placed (context, limit) =
      (context.step ≡ placed.step) × (context.node_path ≡ path_of placed)

  -- A node whose start is an event that may be emitted.
  abbrev pub MayStart : Placed S E N → Type 0
  MayStart placed = (id : RunId) → allowed (node_started id (path_of placed) placed.step) ≡ true

  pub start_node-Keeps :
      (ex : Execution S P) (placed : Placed S E N)
      → MayStart placed
      → Keeps R F (Starts placed) (start_node env control mode ex placed)
  unfolding start_node
  start_node-Keeps ex placed may =
      bind-Keeps frame
        (then-Keeps frame (check_run-Keeps env control frame (some (path_of placed)) placed.step)
          (call-Keeps frame env.now))
        (λ now q.
          then-Keeps frame
            (then-Keeps frame (emit-Keeps frame _ (λ s. may s.run_id)) (
              check-Keeps env control frame (some (path_of placed)) placed.step
                (deadline_of control (after control.node_timeout now))))
            (pure-Keeps frame _ (refl, refl)))

  pub raise_if_some-Keeps :
      (error : Session W C P → Option (GraphRunError E))
      → Keeps R F Any (λ s. raise_if_some (error s) s)
  raise_if_some-Keeps error = record { ends = λ s. raised (error s) s }
    where
      raised :
          (o : Option (GraphRunError E)) (s : Session W C P)
          → Post
              (λ e s t. F e × R s t)
              (λ a s t. R s t × Any a)
              (raise_if_some o s).0
              s
              (raise_if_some o s).1
      raised none s = (frame.keep_refl s, tt)
      raised (some e) s = (frame.may_fail e, frame.keep_refl s)

  start_nodes-Keeps :
      (ex : Execution S P) (all : List (Placed S E N)) (offset : ℕ) (nodes : List (Placed S E N))
      → ((i : ℕ) (p : Placed S E N)
          → get_elem? nodes i ≡ some p
          → get_elem? all (offset + i) ≡ some p)
      → All MayStart nodes
      → Keeps R F (Pending env all) (start_nodes env control mode ex offset nodes)
  unfolding start_nodes
  start_nodes-Keeps ex all offset [] at may = pure-Keeps frame _ tt
  start_nodes-Keeps ex all offset (placed ∷ rest) at may =
      let first : offset + 0 ≡ offset = omega arith in
      bind-Keeps frame (start_node-Keeps ex placed may.0) (λ (context, limit) (step, path).
        bind-Keeps frame
          (start_nodes-Keeps ex all (offset + 1) rest
            (λ i p q.
              let next : offset + suc i ≡ offset + 1 + i = omega arith in
              subst (λ k. get_elem? all k ≡ some p) next (at (suc i) p q))
            may.1)
          (λ pending later. pure-Keeps frame _ (
            subst (λ k. get_elem? all k ≡ some placed) first (at 0 placed refl),
            step,
            path,
            later,
          )))

  complete_parallel-Keeps :
      (placed : Placed S E N) (outcome : NodeOutcome U P)
      → Keeps R F (λ u. outcome ≡ update u) (complete_parallel env control mode placed outcome)
  unfolding complete_parallel
  complete_parallel-Keeps placed (update u) =
      then-Keeps frame
        (then-Keeps frame (emit-Keeps frame _ (λ s. inner _ refl))
          (check_run-Keeps env control frame (some (path_of placed)) placed.step))
        (pure-Keeps frame u refl)
  complete_parallel-Keeps placed (interrupt request) =
      then-Keeps frame
        (then-Keeps frame (emit-Keeps frame _ (λ s. inner _ refl)) (raise_if_some-Keeps _))
        (panic-Keeps frame)

  after_choice-Keeps :
      (next : List (PendingNode S E N P) → List (Option U) → Action W C P E (List (Option U)))
      (state : S) (nodes : List (Placed S E N)) (slots : List (Option U))
      (picked : Option (PendingNode S E N P × List (PendingNode S E N P)))
      → Filled env state nodes slots
      → ((p : PendingNode S E N P) (rest : List (PendingNode S E N P))
          → picked ≡ some (p, rest)
          → Pending env nodes (p ∷ rest))
      → ((pending : List (PendingNode S E N P)) (later : List (Option U))
          → Pending env nodes pending
          → Filled env state nodes later
          → Keeps R F (Filled env state nodes) (next pending later))
      → Keeps R F (Filled env state nodes) (after_choice env control mode next state slots picked)
  unfolding after_choice
  after_choice-Keeps next state nodes slots none filled pending h = pure-Keeps frame _ filled
  after_choice-Keeps next state nodes slots (some (p, rest)) filled pending h =
      let (at, step, path, later) = pending p rest refl in
      bind-Keeps frame
        (bind-Keeps frame
          (execute_node-Keeps env control frame p.placed.compiled state p.context p.node_deadline)
          (λ outcome (w, returned).
            weaken-Keeps frame (λ u same. (p.context, w, returned ∙ ap ok same, step, path))
              (complete_parallel-Keeps p.placed outcome)))
        (λ u returned.
          h rest (set slots p.offset (some u)) later
            (set-Filled env state nodes slots p.offset p.placed u filled at returned))

  complete_nodes-Keeps :
      (rounds : ℕ) (state : S) (nodes : List (Placed S E N)) (pending : List (PendingNode S E N P))
      (slots : List (Option U))
      → Pending env nodes pending
      → Filled env state nodes slots
      → Keeps R F
          (Filled env state nodes)
          (complete_nodes env control mode rounds state pending slots)
  unfolding complete_nodes
  complete_nodes-Keeps zero state nodes pending slots h filled = pure-Keeps frame _ filled
  complete_nodes-Keeps (suc rounds) state nodes pending slots h filled =
      bind-Keeps frame (call-Keeps frame env.next_completed) (λ choice q.
        after_choice-Keeps (complete_nodes env control mode rounds state) state nodes slots
          (take_at (choice % length pending) pending) filled
          (λ p rest e. take_at-Pending env nodes (choice % length pending) pending rest p e h)
          (complete_nodes-Keeps rounds state nodes))

  apply_updates-Keeps :
      (ex : Execution S P) (first_step : ℕ) (nodes : List (Placed S E N))
      (batch : List (NodeUpdate U)) (result : Result S E)
      → Batch env ex.state nodes batch
      → env.apply_batch batch ex.state ≡ result
      → Keeps R F
          (λ phase. Updates ex (length nodes) phase × Applied env ex.state nodes phase)
          (apply_updates env control mode ex first_step (map path_of nodes) result)
  apply_updates-Keeps ex first_step nodes batch (err source) h e = raise-Keeps frame _
  apply_updates-Keeps ex first_step nodes batch (ok state) h e =
      let count = length-map path_of nodes in
      pure-Keeps frame _ (
        (
          ap (λ n. ex.steps + n) count,
          length-append {0} ex.visited_nodes (map path_of nodes)
              ∙ ap (λ n. length ex.visited_nodes + n) count,
          refl,
        ),
        (batch, h, e),
      )

  pub run_parallel-Keeps :
      (ex : Execution S P) (first : Placed S E N) (nodes : List (Placed S E N))
      → All MayStart nodes
      → Keeps R F
          (λ phase. Updates ex (length nodes) phase × Applied env ex.state nodes phase)
          (run_parallel env control mode ex first nodes)
  unfolding run_parallel
  run_parallel-Keeps ex first nodes may =
      bind-Keeps frame
        (start_nodes-Keeps ex nodes 0 nodes
          (λ i p q.
            let same : i ≡ 0 + i = omega arith in subst (λ k. get_elem? nodes k ≡ some p) same q)
          may)
        (λ pending h.
          bind-Keeps frame
            (complete_nodes-Keeps (length pending) ex.state nodes pending (empty_slots nodes) h
              (empty-Filled env ex.state nodes))
            (λ slots filled.
              bind-Keeps frame
                (then-Keeps frame
                  (check_run-Keeps env control frame (some (path_of first)) first.step)
                  (expect-Keeps frame {Q = Batch env ex.state nodes}
                    (batch_of (map path_of nodes) slots)
                    (λ batch e. batch_of-Batch env ex.state nodes slots batch filled e)))
                (λ batch h.
                  apply_updates-Keeps ex first.step nodes batch (env.apply_batch batch ex.state) h
                    refl)))
