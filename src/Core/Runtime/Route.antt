-- ===== src/Core/Runtime/Route.antt =====
-- `resolve_transition` and `normalize_frontier` of crates/group-agent-core/src/runtime.rs. The loop
-- of `normalize_frontier` takes fuel.
use group.Prelude.{
  leb, if◌then◌else◌, get_elem?, sort_by, get, ◌==◌, nat_eq, string_eq, bool_eq, option_eq, list_eq,
  Result, ok, err, ℕ, zero, suc, Option, none, some, List, [], ◌∷◌, ◌++◌,
}
use group.Core.Path.{GraphPath, NodePath, new, mount_path, graph_path, graph_path_eq, end, root}
use group.Core.Transition.{
  NodeIndex, CompiledTransition, RouteDecision, single, multiple, TransitionError, router,
  invalid_target, empty_targets, duplicate_target, resolve_into,
}
use group.Core.Graph.{
  CompiledNode, CompiledItem, node, enter_subgraph, exit_subgraph, CompiledGraph,
}
use group.Core.Runtime.Error.{
  GraphRunError, route_failed, invalid_route_target, empty_route_targets, duplicate_route_target,
}
use group.Core.Runtime.Event.{route_selected, routes_selected, subgraph_started, subgraph_completed}
use group.Core.Runtime.Session.{out_of_fuel, Action, pure, stop, raise, ◌>>=◌, ◌>>◌, expect, emit}

pub data SubgraphBoundary : Type 0 where
  started completed : GraphPath → SubgraphBoundary

-- `Vec::dedup`.
unfoldable pub dedup : List NodeIndex → List NodeIndex
dedup [] = []
dedup (i ∷ []) = i ∷ []
dedup (i ∷ j ∷ rest) = let later = dedup (j ∷ rest) in if i == j then later else i ∷ later

-- `sort_unstable_by_key`, then `dedup`.
unfoldable pub canonical : List NodeIndex → List NodeIndex
unfolding dedup sort_by
canonical frontier = dedup (sort_by leb frontier)

abbrev pub route_error :
    {E : Type 0} → GraphPath → NodePath → ℕ → TransitionError E → GraphRunError E
route_error graph_path source step (router e) = route_failed source step e
route_error graph_path source step (invalid_target target) =
    invalid_route_target source (new graph_path target) step
route_error graph_path source step empty_targets = empty_route_targets source step
route_error graph_path source step (duplicate_target target) =
    duplicate_route_target source (new graph_path target) step

unfoldable pub item_path : {S E N : Type 0} → CompiledItem S E N → Option NodePath
unfolding mount_path
item_path (node compiled) = some compiled.path
item_path (enter_subgraph inner transition) = mount_path inner
item_path (exit_subgraph inner mount transition) = some mount

module _ {S E N : Type 0} where
  -- The node that an item is; on another, the source panics.
  abbrev pub as_node : Option (CompiledItem S E N) → Option (CompiledNode S E N)
  as_node (some (node compiled)) = some compiled
  as_node _ = none

module _ {S E N : Type 0} (graph : CompiledGraph S E N) where
  -- An index out of range, where the source panics, has the path of `END` here.
  unfoldable pub path_at : NodeIndex → NodePath
  unfolding mount_path
  path_at index = elim (get_elem? graph.items index) [
    | some item ↦ elim (item_path item) [ some path ↦ path | none ↦ new root end ]
    | none ↦ new root end
  ]

  unfoldable pub scope_exit : GraphPath → List NodeIndex → List NodeIndex
  scope_exit graph_path [] = elim (get graph_path graph.scope_exits) [
    | some exit ↦ exit ∷ []
    | none ↦ []
  ]
  scope_exit graph_path (i ∷ rest) = i ∷ rest

module _ {W C P S E N : Type 0} (graph : CompiledGraph S E N) where
  -- `item_at`.
  unfoldable pub item_at : NodeIndex → Action W C P E (CompiledItem S E N)
  item_at index = expect (get_elem? graph.items index)

  -- `node_at`.
  unfoldable pub node_at : NodeIndex → Action W C P E (CompiledNode S E N)
  node_at index = expect (as_node (get_elem? graph.items index))

  unfoldable pub emit_decision : NodePath → ℕ → Option RouteDecision → Action W C P E (Unit {0})
  unfolding emit
  emit_decision source step none s = pure tt s
  emit_decision source step (some (single target)) s =
      emit (route_selected s.run_id source target step) s
  emit_decision source step (some (multiple targets)) s =
      emit (routes_selected s.run_id source targets step) s

  -- The end of `resolve_transition`: the error, or the event and the targets.
  unfoldable pub route_result :
      GraphPath
      → NodePath
      → ℕ
      → List NodeIndex
      → Result (Option RouteDecision) (TransitionError E)
      → Action W C P E (List NodeIndex)
  unfolding emit_decision
  route_result graph_path source step targets (err e) = raise (route_error graph_path source step e)
  route_result graph_path source step targets (ok decision) =
      emit_decision source step decision >> pure targets

  unfoldable pub resolve_transition :
      CompiledTransition S E
      → S
      → GraphPath
      → NodePath
      → ℕ
      → List NodeIndex
      → Action W C P E (List NodeIndex)
  unfolding resolve_into path_at emit_decision
  resolve_transition transition state graph_path source step targets =
      let resolved = resolve_into transition state graph_path targets (path_at graph) in
      route_result graph_path source step resolved.1 resolved.0

  -- A structural item that is alone in the frontier, with the boundary that it adds: the targets
  -- that take its place. A node has none.
  unfoldable pub leave_item :
      S → ℕ → CompiledItem S E N → Option (SubgraphBoundary × Action W C P E (List NodeIndex))
  unfolding resolve_transition canonical scope_exit mount_path graph_path
  leave_item state step (node compiled) = none
  leave_item state step (enter_subgraph inner transition) = some (
    started inner,
    expect (mount_path inner) >>= λ source. expect (graph_path source) >>= λ outer.
        resolve_transition transition state outer source step [],
  )
  leave_item state step (exit_subgraph inner mount transition) = some (
    completed inner,
    expect (graph_path mount) >>= λ outer.
        resolve_transition transition state outer mount step [] >>= λ targets.
        pure (scope_exit graph outer (canonical targets)),
  )

  -- The rest of a round: the end at a node, or the next round.
  abbrev pub after_item :
      (List NodeIndex
        → List SubgraphBoundary
        → Action W C P E (List NodeIndex × List SubgraphBoundary))
      → NodeIndex
      → List SubgraphBoundary
      → Option (SubgraphBoundary × Action W C P E (List NodeIndex))
      → Action W C P E (List NodeIndex × List SubgraphBoundary)
  after_item next index boundaries none = pure (index ∷ [], boundaries)
  after_item next index boundaries (some (boundary, targets)) =
      targets >>= λ frontier. next frontier (boundaries ++ boundary ∷ [])

  unfoldable pub normalize_frontier :
      ℕ
      → S
      → ℕ
      → List NodeIndex
      → List SubgraphBoundary
      → Action W C P E (List NodeIndex × List SubgraphBoundary)
  unfolding leave_item
  normalize_frontier zero state step frontier boundaries = stop out_of_fuel
  normalize_frontier (suc fuel) state step [] boundaries = pure ([], boundaries)
  normalize_frontier (suc fuel) state step (i ∷ j ∷ rest) boundaries =
      pure (i ∷ j ∷ rest, boundaries)
  normalize_frontier (suc fuel) state step (index ∷ []) boundaries = item_at index >>= λ item.
      after_item (normalize_frontier fuel state step) index boundaries (leave_item state step item)

  -- `SubgraphBoundary::emit`.
  unfoldable pub boundary_event : SubgraphBoundary → Action W C P E (Unit {0})
  unfolding emit
  boundary_event (started inner) s = emit (subgraph_started s.run_id inner) s
  boundary_event (completed inner) s = emit (subgraph_completed s.run_id inner) s

  unfoldable pub emit_boundaries : List SubgraphBoundary → Action W C P E (Unit {0})
  unfolding emit
  emit_boundaries [] = pure tt
  emit_boundaries (boundary ∷ rest) = boundary_event boundary >> emit_boundaries rest
