-- ===== src/Core/Runtime/Tests.antt =====
-- A small graph that crates/group-agent-core/src/runtime.rs runs: a mounted graph with one node,
-- then a node that asks for an interrupt. The world is a clock and the checkpoints that were saved.
use group.Prelude.{
  if◌then◌else◌, length, head?, sort_by, get, ◌==◌, nat_eq, string_eq, bool_eq, option_eq, list_eq,
  contains, Result, ok, err, ℕ, zero, suc, ◌+◌, ◌*◌, ◌<◌, String, ◌≡◌, refl, sym, ap, ◌∙◌, subst,
  ◌≢◌, ◌↔◌, true, false, Option, none, some, List, [], ◌∷◌, arith,
}
use group.Core.Path.{
  NodeId, GraphPath, NodePath, root, node_root, mount_path, graph_path, leaf, prefixes, is_start,
  is_end, end,
}
use group.Core.Record.{CheckpointId}
use group.Core.Transition.{conditional, single, resolve_single, NodeIndex, fixed, resolve_into}
use group.Core.Graph.{CompiledItem, node, enter_subgraph, exit_subgraph, CompiledGraph}
use group.Core.Checkpoint.{
  CheckpointConfig, latest, NodeOutcome, update, interrupt, Checkpoint, CheckpointRequest,
  every_superstep,
}
use group.Core.Runtime.Route.{
  SubgraphBoundary, dedup, canonical, item_path, path_at, scope_exit, item_at, node_at,
  emit_decision, route_result, resolve_transition, leave_item, normalize_frontier, boundary_event,
  emit_boundaries,
}
use group.Core.Runtime.Resume.{
  check_version, check_shape, resolve_path, resolve_paths, nodes_of, check_distinct,
  check_namespace, check_namespaces, check_order, check_nodes, check_resolved,
  validate_and_resolve_checkpoint_frontier,
}
use group.Core.Runtime.Event.{failure_of, run_started}
use group.Core.Runtime.Session.{
  Stop, NodeContext, NodeUpdate, Environment, all_events, EventConfig, completion, Session, emit,
  fail_with, failing, CheckpointWrite, saved, out_of_fuel, Action,
}
use group.Core.Runtime.Control.{
  RunControl, ActiveControl, activate, timeout_error, check_deadline, check, check_run, choose,
  race, await_run_boundary, execute_node,
}
use group.Core.Runtime.Save.{
  disabled_checkpoint, should_save, interrupt_error, write_error, accept, save_snapshot,
  with_snapshot, save_checkpoint,
}
use group.Core.Runtime.Node.{
  Phase, updated, interrupted, Execution, take_at, batch_of, start_node, complete_single, suspend,
  interrupt_single, finish_single, run_single, start_nodes, complete_parallel, after_choice,
  complete_nodes, run_parallel, Placed, Phase,
}
use group.Core.Runtime.Execute.{
  ExecutionOutcome, run_finished, run_suspended, place_frontier, check_steps, emit_updates,
  resolve_frontier, save_boundary, emit_if, advance, after_phase, run_nodes, run_superstep,
  complete_run, after_superstep, execute_loop, save_empty, execute_internal,
}
use group.Core.Runtime.Invoke.{
  first_session, invoke_internal, invoke_with_control, invoke_with_checkpoint, first_path, prepare,
  initial_execution,
}
use group.Core.Runtime.Load.{
  load_exact, load_target, check_latest, restore_checkpoint, emit_prefixes, emit_enclosing,
}
use group.Core.Runtime.Recover.{
  resume, replay, continue_restored, emit_branch_resumed, open_resume,
  resume_with_state_initializer, open_exact, open_replay, replay_action, open_fork, fork_action,
  fork,
}
use group.Core.Runtime.Resume.Accepted.{IsResumable, validate-IsResumable}
use group.Core.Graph.Tests.{revisiting}
use group.Core.Runtime.Endless.{Revisits, invoke_internal_endless}
use group.Core.Runtime.Updates.{AppliesAll, run_parallel-AppliesAll}
use group.Core.Runtime.Writes.{writes-replay}
use group.Core.Runtime.Bounds.{Within, StartsUpTo, execute_internal-Within}
use group.Core.Runtime.Termination.{Descends, invoke_internal_total}
use group.Core.Runtime.Protocol.{Concludes}
use group.Core.Runtime.Invocation.{invoke_internal-Concludes}

record World : Type 0 where
  clock : ℕ
  checkpoints : List (Checkpoint ℕ ℕ)

abbrev tick : World → ℕ × World
tick w = (w.clock, record w { clock = w.clock + 1 })

abbrev checkpoint_of : CheckpointRequest ℕ ℕ → Checkpoint ℕ ℕ
checkpoint_of request = record {
  id = request.checkpoint_id;
  thread_id = request.thread_id;
  run_id = request.run_id;
  parent_id = request.expected_parent;
  graph_version = request.graph_version;
  superstep = request.superstep;
  step = request.step;
  snapshot = request.snapshot;
  next_frontier = request.next_frontier;
  completed = request.completed;
  interrupt = request.interrupt;
}

abbrev find_checkpoint : CheckpointId → List (Checkpoint ℕ ℕ) → Option (Checkpoint ℕ ℕ)
find_checkpoint id [] = none
find_checkpoint id (checkpoint ∷ rest) =
    if checkpoint.id == id then some checkpoint else find_checkpoint id rest

-- `work` adds one, and `ask` adds what it is resumed with.
abbrev run : String → ℕ → NodeContext ℕ → World → Result (NodeOutcome ℕ ℕ) String × World
run kind state context w =
    if kind == "ask"
    then (
      (elim context.resume_value [
        | none ↦ ok (interrupt (record { id = 77; payload = state }))
        | some value ↦ ok (update value)
      ]),
      w,
    )
    else (ok (update 1), w)

abbrev sum : List (NodeUpdate ℕ) → ℕ → ℕ
sum [] state = state
sum (u ∷ rest) state = sum rest (state + u.update)

abbrev digits : List (NodeUpdate ℕ) → ℕ → ℕ
digits [] state = state
digits (u ∷ rest) state = digits rest (10 * state + u.update)

abbrev environment : Environment World ℕ String String ℕ ℕ ℕ
environment = record {
  is_cancelled = λ w. (false, w);
  now = tick;
  next_id = tick;
  select = λ w. (completion, w);
  next_completed = λ w. (0, w);
  run_node = run;
  apply = λ u state. ok (state + u);
  apply_batch = λ updates state. ok (sum updates state);
  snapshot = λ state. ok state;
  restore = λ snapshot. ok snapshot;
  save = λ request w. (
    ok (checkpoint_of request),
    record w { checkpoints = checkpoint_of request ∷ w.checkpoints },
  );
  save_branch = λ branch_id request w. (
    ok (checkpoint_of request),
    record w { checkpoints = checkpoint_of request ∷ w.checkpoints },
  );
  create_branch = λ thread_id branch_id checkpoint_id w. (ok tt, w);
  latest = λ thread_id w. (ok (head? w.checkpoints), w);
  get_checkpoint =
      λ thread_id checkpoint_id w. (ok (find_checkpoint checkpoint_id w.checkpoints), w);
  branch_head = λ thread_id branch_id w. (ok (head? w.checkpoints), w);
}

abbrev team : GraphPath
team = record { segments = "team" ∷ [] }

abbrev in_team : NodeId → NodePath
in_team id = record { segments = "team" ∷ id ∷ [] }

abbrev graph : CompiledGraph ℕ String String
graph = record {
  items =
      enter_subgraph team (fixed (some 1))
      ∷ node (record {
        path = in_team "work";
        graph_path = team;
        kind = "work";
        transition = fixed none;
      })
      ∷ exit_subgraph team (node_root "team") (fixed (some 3))
      ∷ node (record {
        path = node_root "ask";
        graph_path = root;
        kind = "ask";
        transition = fixed none;
      })
      ∷ [];
  node_paths = (in_team "work", 1) ∷ (node_root "ask", 3) ∷ [];
  scope_exits = (team, 2) ∷ [];
  entry_index = some 0;
  version = some "v1";
}

abbrev config : EventConfig
config = record { retention = all_events; has_sink = true }

abbrev no_control : RunControl
no_control = record { has_token = false; run_timeout = none; node_timeout = none }

abbrev world : World
world = record { clock = 100; checkpoints = [] }

abbrev control : ActiveControl
control = activate no_control 100

abbrev session : Session World ℕ ℕ
session = first_session environment graph 9 9 5 config world

abbrev checkpointing : CheckpointConfig
checkpointing = record {
  thread_id = "thread";
  policy = every_superstep;
  expected_parent = none;
  branch_id = none;
}

-- An invocation that stops at the interrupt, and the run that resumes it.
abbrev stopped : Result (ExecutionOutcome ℕ ℕ) (Stop String) × Session World ℕ ℕ
stopped = invoke_with_checkpoint environment graph 9 9 5 10 config no_control checkpointing world

abbrev resumed : Result (ExecutionOutcome ℕ ℕ) (Stop String) × Session World ℕ ℕ
resumed =
    resume environment graph 9 9 5
      (record {
        thread_id = "thread";
        target = latest;
        policy = every_superstep;
        resume_value = some 30;
        branch_id = none;
      })
      config no_control stopped.1.world

-- What a result comes to: the state, the steps, and the number of nodes visited.
abbrev summary : Result (ExecutionOutcome ℕ ℕ) (Stop String) → Option (ℕ × ℕ × ℕ)
summary (ok (run_finished report)) =
    some (report.final_state, report.steps, length report.visited_nodes)
summary (ok (run_suspended report)) = some (report.state, report.steps, length report.visited_nodes)
summary (err e) = none

stopped_summary : summary stopped.0 ≡ some (11, 1, 2)
unfolding invoke_with_checkpoint continue_restored emit_branch_resumed open_resume
    resume_with_state_initializer resume open_exact open_replay replay_action replay open_fork
    fork_action fork failure_of dedup canonical item_path path_at scope_exit item_at node_at
    emit_decision route_result resolve_transition leave_item normalize_frontier boundary_event
    emit_boundaries check_version check_shape resolve_path resolve_paths nodes_of check_distinct
    check_namespace check_namespaces check_order check_nodes check_resolved
    validate_and_resolve_checkpoint_frontier first_path prepare invoke_internal invoke_with_control
    take_at batch_of start_node complete_single suspend interrupt_single finish_single run_single
    start_nodes complete_parallel after_choice complete_nodes run_parallel load_exact load_target
    check_latest restore_checkpoint emit_prefixes emit_enclosing emit fail_with failing should_save
    interrupt_error write_error accept save_snapshot with_snapshot save_checkpoint place_frontier
    check_steps emit_updates resolve_frontier save_boundary emit_if advance after_phase run_nodes
    run_superstep complete_run after_superstep execute_loop save_empty execute_internal
    timeout_error check_deadline check check_run choose race await_run_boundary execute_node
    resolve_into mount_path graph_path leaf prefixes get is_start is_end contains
stopped_summary = refl

-- The resumed run starts where the interrupted one stopped, and adds what it was resumed with.
resumed_summary : summary resumed.0 ≡ some (41, 2, 1)
unfolding invoke_with_checkpoint continue_restored emit_branch_resumed open_resume
    resume_with_state_initializer resume open_exact open_replay replay_action replay open_fork
    fork_action fork failure_of dedup canonical item_path path_at scope_exit item_at node_at
    emit_decision route_result resolve_transition leave_item normalize_frontier boundary_event
    emit_boundaries check_version check_shape resolve_path resolve_paths nodes_of check_distinct
    check_namespace check_namespaces check_order check_nodes check_resolved
    validate_and_resolve_checkpoint_frontier first_path prepare invoke_internal invoke_with_control
    take_at batch_of start_node complete_single suspend interrupt_single finish_single run_single
    start_nodes complete_parallel after_choice complete_nodes run_parallel load_exact load_target
    check_latest restore_checkpoint emit_prefixes emit_enclosing emit fail_with failing should_save
    interrupt_error write_error accept save_snapshot with_snapshot save_checkpoint place_frontier
    check_steps emit_updates resolve_frontier save_boundary emit_if advance after_phase run_nodes
    run_superstep complete_run after_superstep execute_loop save_empty execute_internal
    timeout_error check_deadline check check_run choose race await_run_boundary execute_node
    resolve_into mount_path graph_path leaf prefixes get is_start is_end contains
resumed_summary = refl

-- The first expects no parent, and each later one the identifier of the one before.
abbrev parents : List (CheckpointWrite ℕ ℕ) → List (CheckpointId × Option CheckpointId)
parents [] = []
parents (saved request ∷ rest) = (request.checkpoint_id, request.expected_parent) ∷ parents rest
parents (write ∷ rest) = parents rest

stopped_parents : parents stopped.1.writes ≡ (103, none) ∷ (105, some 103) ∷ []
unfolding invoke_with_checkpoint continue_restored emit_branch_resumed open_resume
    resume_with_state_initializer resume open_exact open_replay replay_action replay open_fork
    fork_action fork failure_of dedup canonical item_path path_at scope_exit item_at node_at
    emit_decision route_result resolve_transition leave_item normalize_frontier boundary_event
    emit_boundaries check_version check_shape resolve_path resolve_paths nodes_of check_distinct
    check_namespace check_namespaces check_order check_nodes check_resolved
    validate_and_resolve_checkpoint_frontier first_path prepare invoke_internal invoke_with_control
    take_at batch_of start_node complete_single suspend interrupt_single finish_single run_single
    start_nodes complete_parallel after_choice complete_nodes run_parallel load_exact load_target
    check_latest restore_checkpoint emit_prefixes emit_enclosing emit fail_with failing should_save
    interrupt_error write_error accept save_snapshot with_snapshot save_checkpoint place_frontier
    check_steps emit_updates resolve_frontier save_boundary emit_if advance after_phase run_nodes
    run_superstep complete_run after_superstep execute_loop save_empty execute_internal
    timeout_error check_deadline check check_run choose race await_run_boundary execute_node
    resolve_into mount_path graph_path leaf prefixes get is_start is_end contains
stopped_parents = refl

writes-replay_example :
    (replay environment graph 9 9 5 "thread" 103 none config no_control stopped.1.world).1.writes
    ≡ []
writes-replay_example =
    writes-replay environment graph 9 9 5 "thread" 103 none config no_control stopped.1.world

abbrev begun : Execution ℕ ℕ
begun = initial_execution 10 (1 ∷ [])

execute_internal-Within_example :
    Within 5 begun
      (execute_internal environment control disabled_checkpoint graph 9 9 5 true begun session).0
    × StartsUpTo 5 session
        (execute_internal environment control disabled_checkpoint graph 9 9 5 true begun session).1
execute_internal-Within_example =
    execute_internal-Within environment control disabled_checkpoint graph 9 9 5 true begun session
      (omega arith)

abbrev rank : NodeIndex → ℕ
rank zero = 1
rank (suc zero) = 0
rank (suc (suc zero)) = 1
rank (suc (suc (suc index))) = 0

rank_small : (index : NodeIndex) → rank index + 1 < 9
rank_small zero = omega arith
rank_small (suc zero) = omega arith
rank_small (suc (suc zero)) = omega arith
rank_small (suc (suc (suc index))) = omega arith

invoke_internal-Concludes_example :
    Concludes environment control disabled_checkpoint
      (run_started 101 5 ∷ [])
      (invoke_internal environment graph 9 9 5 disabled_checkpoint 10 control session).0
      session
      (invoke_internal environment graph 9 9 5 disabled_checkpoint 10 control session).1
invoke_internal-Concludes_example =
    invoke_internal-Concludes environment control disabled_checkpoint graph 9 9 5 10 session

-- What leaving an item comes to.
abbrev result_of :
    Option (SubgraphBoundary × Action World ℕ ℕ String (List NodeIndex))
    → Session World ℕ ℕ
    → Option (Result (List NodeIndex) (Stop String))
result_of none s = none
result_of (some (boundary, targets)) s = some (targets s).0

leave_result :
    (state step : ℕ) (item item' : CompiledItem ℕ String String) (boundary : SubgraphBoundary)
    (targets : Action World ℕ ℕ String (List NodeIndex)) (s : Session World ℕ ℕ)
    (expected : Option (Result (List NodeIndex) (Stop String)))
    → some item' ≡ some item
    → leave_item graph state step item ≡ some (boundary, targets)
    → result_of (leave_item graph state step item') s ≡ expected
    → some (targets s).0 ≡ expected
leave_result state step item item' boundary targets s expected p l r =
    let e : item' ≡ item = cc in
    sym (ap (λ o. result_of o s) l)
    ∙ ap (λ i. result_of (leave_item graph state step i) s) (sym e)
    ∙ r

next-rank :
    (expected next : NodeIndex) (r : Result (List NodeIndex) (Stop String)) (n : ℕ)
    → some r ≡ some (ok (expected ∷ []))
    → r ≡ ok (next ∷ [])
    → rank expected < n
    → rank next < n
next-rank expected next r n p q h = let e : expected ≡ next = cc in subst (λ i. rank i < n) e h

graph-Descends : Descends World ℕ ℕ graph rank
unfolding leave_item resolve_transition route_result emit_decision resolve_into mount_path
    graph_path canonical dedup sort_by scope_exit get
graph-Descends state step zero next item boundary targets s p l q =
    next-rank 1 next (targets s).0 1
      (leave_result state step item _ boundary targets s (some (ok (1 ∷ []))) p l refl) q
      (omega arith)
graph-Descends state step (suc zero) next item boundary targets s p l q =
    let none_left = leave_result state step item _ boundary targets s none p l refl in absurd (cc)
graph-Descends state step (suc (suc zero)) next item boundary targets s p l q =
    next-rank 3 next (targets s).0 1
      (leave_result state step item _ boundary targets s (some (ok (3 ∷ []))) p l refl) q
      (omega arith)
graph-Descends state step (suc (suc (suc zero))) next item boundary targets s p l q =
    let none_left = leave_result state step item _ boundary targets s none p l refl in absurd (cc)
graph-Descends state step (suc (suc (suc (suc index)))) next item boundary targets s p l q =
    absurd (cc)

invoke_internal_total_example :
    (invoke_internal environment graph 9 9 5 disabled_checkpoint 10 control session).0
    ≢ err out_of_fuel
invoke_internal_total_example =
    invoke_internal_total environment control disabled_checkpoint graph rank graph-Descends 9 9 5 10
      session (omega arith) rank_small

-- The checkpoint that the interrupted invocation has saved last.
abbrev waiting : Checkpoint ℕ ℕ
waiting = record {
  id = 105;
  thread_id = "thread";
  run_id = 101;
  parent_id = some 103;
  graph_version = some "v1";
  superstep = 1;
  step = 1;
  snapshot = 11;
  next_frontier = node_root "ask" ∷ [];
  completed = false;
  interrupt = some (record { id = 77; node_path = node_root "ask"; payload = 11 });
}

stopped_waiting : head? stopped.1.world.checkpoints ≡ some waiting
unfolding invoke_with_checkpoint continue_restored emit_branch_resumed open_resume
    resume_with_state_initializer resume open_exact open_replay replay_action replay open_fork
    fork_action fork failure_of dedup canonical item_path path_at scope_exit item_at node_at
    emit_decision route_result resolve_transition leave_item normalize_frontier boundary_event
    emit_boundaries check_version check_shape resolve_path resolve_paths nodes_of check_distinct
    check_namespace check_namespaces check_order check_nodes check_resolved
    validate_and_resolve_checkpoint_frontier first_path prepare invoke_internal invoke_with_control
    take_at batch_of start_node complete_single suspend interrupt_single finish_single run_single
    start_nodes complete_parallel after_choice complete_nodes run_parallel load_exact load_target
    check_latest restore_checkpoint emit_prefixes emit_enclosing emit fail_with failing should_save
    interrupt_error write_error accept save_snapshot with_snapshot save_checkpoint place_frontier
    check_steps emit_updates resolve_frontier save_boundary emit_if advance after_phase run_nodes
    run_superstep complete_run after_superstep execute_loop save_empty execute_internal
    timeout_error check_deadline check check_run choose race await_run_boundary execute_node
    resolve_into mount_path graph_path leaf prefixes get is_start is_end contains
stopped_waiting = refl

validate-IsResumable_example :
    (validate_and_resolve_checkpoint_frontier graph waiting ≡ some (ok (3 ∷ [])))
    ↔ IsResumable graph waiting (3 ∷ [])
validate-IsResumable_example = validate-IsResumable graph waiting (3 ∷ [])

waiting_accepted : validate_and_resolve_checkpoint_frontier graph waiting ≡ some (ok (3 ∷ []))
unfolding leaf is_start is_end get
waiting_accepted = validate-IsResumable_example.1 (record {
  version = "v1";
  saved_version = refl;
  compiled_version = refl;
  completes = refl;
  waits = refl;
  resolves = ((refl, refl), refl, tt);
  nodes =
      (
        3,
        record { path = node_root "ask"; graph_path = root; kind = "ask"; transition = fixed none },
      )
      ∷ [];
  nodes_at = (refl, refl, tt);
  one_graph = tt;
  ascending = tt;
})

-- A frontier of two nodes in parallel.
abbrev placed_node : ℕ → String → ℕ → Placed ℕ String String
placed_node index id step = record {
  index = index;
  compiled = record {
    path = node_root id;
    graph_path = root;
    kind = "work";
    transition = fixed none;
  };
  step = step;
}

run_parallel-AppliesAll_example :
    AppliesAll environment control disabled_checkpoint begun.state
      (placed_node 1 "left" 1 ∷ placed_node 2 "right" 2 ∷ [])
      (run_parallel environment control disabled_checkpoint begun
        (placed_node 1 "left" 1)
        (placed_node 1 "left" 1 ∷ placed_node 2 "right" 2 ∷ [])
        session).0
run_parallel-AppliesAll_example =
    run_parallel-AppliesAll environment control disabled_checkpoint begun (placed_node 1 "left" 1)
      (placed_node 1 "left" 1 ∷ placed_node 2 "right" 2 ∷ []) session

-- The nodes complete from the last to the first, and a batch keeps the digits of its updates in
-- order.
abbrev reversed : Environment World ℕ String String ℕ ℕ ℕ
reversed = record environment {
  next_completed = λ w. (1, w);
  run_node = λ kind state context w. (ok (update context.step), w);
  apply_batch = λ updates state. ok (digits updates state);
}

abbrev parallel_state : Result (Phase ℕ ℕ) (Stop String) → Option (ℕ × ℕ)
parallel_state (ok (updated ex)) = some (ex.state, length ex.visited_nodes)
parallel_state (ok (interrupted report)) = none
parallel_state (err e) = none

reversed_completion :
    parallel_state
      (run_parallel reversed control disabled_checkpoint begun
        (placed_node 1 "left" 1)
        (placed_node 1 "left" 1 ∷ placed_node 2 "right" 2 ∷ [])
        session).0
    ≡ some (1012, 2)
unfolding take_at batch_of start_node start_nodes complete_parallel after_choice complete_nodes
    run_parallel emit fail_with failing timeout_error check_deadline check check_run choose race
    execute_node
reversed_completion = refl

-- The exit of the mount selects its entry.
revisiting-Revisits : Revisits revisiting 10 0 1
unfolding resolve_into resolve_single path_at item_path mount_path graph_path get is_end
revisiting-Revisits = record {
  inner = team;
  mount = node_root "team";
  outer = root;
  transition = conditional (λ state. ok "team") ((end, none) ∷ ("team", some 0) ∷ []);
  decision = some (single (node_root "team"));
  entered = refl;
  left = refl;
  mounted = refl;
  enclosed = refl;
  selected = refl;
}

invoke_internal_endless_example :
    (invoke_internal environment revisiting 9 9 5 disabled_checkpoint 10 control session).0
    ≡ err out_of_fuel
invoke_internal_endless_example =
    invoke_internal_endless environment disabled_checkpoint revisiting 10 0 1 revisiting-Revisits
      refl 9 9 5 control session
