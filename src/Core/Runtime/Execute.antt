-- ===== src/Core/Runtime/Execute.antt =====
-- `execute_internal` of crates/group-agent-core/src/runtime.rs: the loop over supersteps. It takes
-- fuel, and so does the loop of `normalize_frontier` in it.
use group.Prelude.{
  ltb, if◌then◌else◌, length, get_elem?, head?, is_empty, nat_eq, string_eq, bool_eq, option_eq,
  list_eq, ok, ℕ, zero, suc, ◌+◌, ◌-◌, min, Bool, true, ◌&&◌, none, some, List, [], ◌∷◌, map,
}
use group.Core.Path.{NodePath}
use group.Core.Record.{RunId}
use group.Core.Transition.{NodeIndex}
use group.Core.Graph.{CompiledGraph}
use group.Core.Runtime.Error.{max_steps_exceeded}
use group.Core.Runtime.Event.{
  GraphEvent, superstep_started, state_updated, superstep_completed, checkpoint_saved,
  run_completed,
}
use group.Core.Runtime.Session.{
  Environment, panicked, out_of_fuel, Action, pure, stop, raise, ◌>>=◌, ◌>>◌, expect, emit, failing,
}
use group.Core.Runtime.Control.{ActiveControl, check, check_run, await_run_boundary}
use group.Core.Runtime.Route.{
  canonical, scope_exit, node_at, resolve_transition, normalize_frontier, emit_boundaries,
}
use group.Core.Runtime.Save.{RuntimeCheckpoint, should_save, save_checkpoint}
use group.Core.Runtime.Node.{
  Execution, InterruptReport, Placed, path_of, Phase, updated, interrupted, run_single,
  run_parallel,
}

pub record RunReport (S : Type 0) : Type 0 where
  pub run_id : RunId
  pub final_state : S
  pub steps : ℕ
  pub visited_nodes : List NodePath
  pub events : List GraphEvent

pub data ExecutionOutcome (S P : Type 0) : Type 0 where
  run_finished : RunReport S → ExecutionOutcome S P
  run_suspended : InterruptReport S P → ExecutionOutcome S P

abbrev pub usize_max : ℕ
usize_max = 18446744073709551615

abbrev pub saturating_add : ℕ → ℕ → ℕ
saturating_add a b = min (a + b) usize_max

module _ {W S E N U P C : Type 0} (env : Environment W S E N U P C) (control : ActiveControl)
    (mode : RuntimeCheckpoint) (graph : CompiledGraph S E N) (fuel : ℕ) where
  -- `node_at` at each index of a frontier, whose steps follow a number.
  unfoldable pub place_frontier : ℕ → List NodeIndex → Action W C P E (List (Placed S E N))
  unfolding node_at
  place_frontier step [] = pure []
  place_frontier step (index ∷ rest) = node_at graph index >>= λ compiled.
      place_frontier (step + 1) rest >>= λ nodes.
      pure (record { index = index; compiled = compiled; step = step + 1 } ∷ nodes)

  -- The test of the step limit.
  unfoldable pub check_steps :
      ℕ → ℕ → Execution S P → List (Placed S E N) → Action W C P E (Unit {0})
  check_steps max_steps limit ex nodes =
      let remaining_steps = limit - ex.steps in
      if ltb remaining_steps (length nodes)
      then (expect (get_elem? nodes remaining_steps) >>= λ blocked.
          raise (max_steps_exceeded max_steps (path_of blocked) (ex.steps + remaining_steps + 1)))
      else pure tt

  unfoldable pub emit_updates : List (Placed S E N) → Action W C P E (Unit {0})
  unfolding emit check
  emit_updates [] = pure tt
  emit_updates (placed ∷ rest) =
      (λ s. emit (state_updated s.run_id (path_of placed) placed.step) s)
      >> check_run env control (some (path_of placed)) placed.step
      >> emit_updates rest

  -- The loop that resolves the transitions of the frontier's nodes.
  unfoldable pub resolve_frontier :
      S → List (Placed S E N) → List NodeIndex → Action W C P E (List NodeIndex)
  unfolding resolve_transition check
  resolve_frontier state [] targets = pure targets
  resolve_frontier state (placed ∷ rest) targets =
      resolve_transition graph placed.compiled.transition state placed.compiled.graph_path
        (path_of placed) placed.step targets
      >>= λ next.
          check_run env control (some (path_of placed)) placed.step
          >> resolve_frontier state rest next

  -- Saves the boundary of a superstep, where the mode saves it.
  unfoldable pub save_boundary : Execution S P → List NodeIndex → Action W C P E (Unit {0})
  unfolding place_frontier should_save await_run_boundary save_checkpoint emit check
  save_boundary ex frontier =
      let completed = is_empty frontier in
      if should_save mode completed
      then (place_frontier ex.steps frontier >>= λ nodes.
          await_run_boundary env control ex.steps (
            save_checkpoint env mode ex.state (record {
              superstep = ex.superstep;
              step = ex.steps;
              next_frontier = map path_of nodes;
              completed = completed;
              interrupt = none;
            }))
          >>= λ saved.
              (λ s.
                emit
                  (checkpoint_saved s.run_id saved.id saved.thread_id ex.superstep ex.steps
                    completed)
                  s)
              >> check_run env control none ex.steps)
      else pure tt

  unfoldable pub emit_if : Bool → (RunId → GraphEvent) → Action W C P E (Unit {0})
  unfolding emit
  emit_if test event s = if test then emit (event s.run_id) s else (ok tt, s)

  -- The rest of a superstep, once its updates are applied: `ex` has the new state.
  unfoldable pub advance :
      Placed S E N → List (Placed S E N) → Execution S P → Action W C P E (Execution S P)
  unfolding emit_updates resolve_frontier canonical scope_exit normalize_frontier save_boundary
      emit_boundaries emit check
  advance first nodes ex = emit_updates nodes >> resolve_frontier ex.state nodes [] >>= λ targets.
      normalize_frontier graph fuel ex.state ex.steps
        (scope_exit graph first.compiled.graph_path (canonical targets)) []
      >>= λ (frontier, boundaries).
          save_boundary ex frontier
          >> emit_boundaries graph boundaries
          >> emit_if (ltb 1 (length nodes)) (λ run_id. superstep_completed run_id ex.superstep)
          >> check_run env control (some (path_of first)) first.step
          >> pure (record ex { frontier = frontier })

  -- What one superstep comes to.
  unfoldable pub after_phase :
      Placed S E N → List (Placed S E N) → Phase S P → Action W C P E (Phase S P)
  unfolding advance
  after_phase first nodes (interrupted report) = pure (interrupted report)
  after_phase first nodes (updated ex) = advance first nodes ex >>= λ next. pure (updated next)

  -- The nodes of a frontier: one alone, or several in parallel.
  unfoldable pub run_nodes : Execution S P → List (Placed S E N) → Action W C P E (Phase S P)
  unfolding run_single run_parallel emit advance
  run_nodes ex [] = stop panicked
  run_nodes ex (first ∷ []) =
      run_single env control mode ex first >>= after_phase first (first ∷ [])
  run_nodes ex (first ∷ second ∷ rest) =
      let nodes = first ∷ second ∷ rest in
      (λ s. emit (superstep_started s.run_id (ex.superstep + 1) (map path_of nodes)) s)
      >> run_parallel env control mode ex first nodes
      >>= after_phase first nodes

  unfoldable pub run_superstep : ℕ → ℕ → Execution S P → Action W C P E (Phase S P)
  unfolding place_frontier check check_steps run_single run_parallel emit advance
  run_superstep max_steps limit ex = place_frontier ex.steps ex.frontier >>= λ nodes.
      expect (head? nodes) >>= λ first.
      check_run env control (some (path_of first)) (ex.steps + 1)
      >> check_steps max_steps limit ex nodes
      >> run_nodes ex nodes

  -- After the loop.
  unfoldable pub complete_run : Execution S P → Action W C P E (ExecutionOutcome S P)
  unfolding check emit
  complete_run ex =
      check_run env control none ex.steps
      >> (λ s. emit (run_completed s.run_id ex.steps) s)
      >> (λ s. (
        ok (
            run_finished (record {
              run_id = s.run_id;
              final_state = ex.state;
              steps = ex.steps;
              visited_nodes = ex.visited_nodes;
              events = s.retained;
            })),
        s,
      ))

  -- The return of an interrupted run, or the next round of the loop.
  unfoldable pub after_superstep :
      (Execution S P → Action W C P E (ExecutionOutcome S P))
      → Phase S P
      → Action W C P E (ExecutionOutcome S P)
  after_superstep next (interrupted report) = pure (run_suspended report)
  after_superstep next (updated ex) = next ex

  unfoldable pub execute_loop : ℕ → ℕ → ℕ → Execution S P → Action W C P E (ExecutionOutcome S P)
  unfolding run_superstep complete_run
  execute_loop zero max_steps limit ex = stop out_of_fuel
  execute_loop (suc rounds) max_steps limit ex =
      if is_empty ex.frontier
      then complete_run ex
      else (run_superstep max_steps limit ex
          >>= after_superstep (execute_loop rounds max_steps limit))

  -- The checkpoint of a run that starts with an empty frontier.
  unfoldable pub save_empty : Bool → Execution S P → Action W C P E (Unit {0})
  unfolding should_save await_run_boundary save_checkpoint emit
  save_empty save_empty_checkpoint ex =
      if save_empty_checkpoint && is_empty ex.frontier && should_save mode true
      then (await_run_boundary env control ex.steps (
            save_checkpoint env mode ex.state (record {
              superstep = ex.superstep;
              step = ex.steps;
              next_frontier = [];
              completed = true;
              interrupt = none;
            }))
          >>= λ saved. λ s.
            emit (checkpoint_saved s.run_id saved.id saved.thread_id ex.superstep ex.steps true) s)
      else pure tt

  unfoldable pub execute_internal :
      ℕ → ℕ → Bool → Execution S P → Action W C P E (ExecutionOutcome S P)
  unfolding save_empty execute_loop failing
  execute_internal rounds max_steps save_empty_checkpoint ex = failing (
      save_empty save_empty_checkpoint ex
      >> execute_loop rounds max_steps (saturating_add ex.steps max_steps) ex)
