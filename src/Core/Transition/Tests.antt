-- ===== src/Core/Transition/Tests.antt =====
-- Transitions of crates/group-agent-core/src/transition.rs at small inputs. The state is the
-- router's selection.
use mathlib.Core.List
use mathlib.Core.List.Perm
use mathlib.Core.List.{Perm}
use group.Prelude.{
  nat_beq, if◌then◌else◌, get_elem?, insert_by, sort_by, Map, get, nat_eq, string_eq, bool_eq,
  option_eq, list_eq, contains, Result, ok, err, zero, suc, ◌+◌, String, ◌≡◌, refl, ap, ◌↔◌, true,
  Option, none, some, List, [], ◌∷◌, ◌++◌, arith,
}
use group.Core.Path.{
  new, node_prefixed, graph_prefixed, NodeId, NodePath, GraphPath, root, node_root, end,
}
use group.Core.Transition.{
  NodeIndex, CompiledTransition, fixed, conditional_fan_out, multiple, duplicate_target,
  RouteDecision, resolve_into, resolve_multiple, resolve_each, finish_multiple, remap,
  remap_allowed,
}
use group.Core.Graph.{CompiledItem, node, enter_subgraph, exit_subgraph, CompiledGraph}
use group.Core.Runtime.Route
use group.Core.Transition.Routes.{is_ok, IsSelection, resolve_error_unchanged, fan_out_ok_iff}
use group.Core.Transition.Targets.{IsSorted, target_of, fan_out_targets}
use group.Core.Transition.Remap.{shift_all, mounted}
use group.Core.Transition.Mount.{remap-mounted}

abbrev allowed : Map NodeId (Option NodeIndex)
allowed = ("a", some 0) ∷ ("b", some 1) ∷ (end, none) ∷ []

abbrev select : List NodeId → Result (List NodeId) String
select ids = ok ids

abbrev selection : List NodeId
selection = end ∷ "b" ∷ "a" ∷ []

abbrev repeated : List NodeId
repeated = "a" ∷ "a" ∷ []

abbrev fan_out : CompiledTransition (List NodeId) String
fan_out = conditional_fan_out select allowed

abbrev path_at : NodeIndex → NodePath
path_at i = node_root (if nat_beq i 0 then "a" else "b")

abbrev decision : Option RouteDecision
decision = some (multiple (node_root "a" ∷ node_root "b" ∷ node_root end ∷ []))

resolved : resolve_into fan_out selection root (7 ∷ []) path_at ≡ (ok decision, 7 ∷ 0 ∷ 1 ∷ [])
unfolding resolve_into resolve_multiple resolve_each finish_multiple sort_by insert_by get contains
    new
resolved = refl

refused : resolve_into fan_out repeated root (7 ∷ []) path_at ≡ (err (duplicate_target "a"), 7 ∷ [])
unfolding resolve_into resolve_multiple resolve_each finish_multiple get contains
refused = refl

resolve_error_unchanged_example : (resolve_into fan_out repeated root (7 ∷ []) path_at).1 ≡ 7 ∷ []
resolve_error_unchanged_example =
    resolve_error_unchanged fan_out repeated root (7 ∷ []) path_at (duplicate_target "a")
      (ap (λ x. x.0) refused)

fan_out_ok_iff_example :
    (is_ok (resolve_into fan_out selection root (7 ∷ []) path_at).0 ≡ true)
    ↔ IsSelection allowed selection
fan_out_ok_iff_example =
    fan_out_ok_iff select allowed selection root (7 ∷ []) path_at selection refl

fan_out_targets_example :
    (appended : List NodeIndex) × ((resolve_into fan_out selection root (7 ∷ []) path_at).1
      ≡ (7 ∷ []) ++ appended)
    × IsSorted appended
    × Perm appended (List.filter_map (target_of allowed) selection)
fan_out_targets_example =
    fan_out_targets select allowed selection root (7 ∷ []) path_at selection decision refl
      (ap (λ x. x.0) resolved)

-- The child's two items follow two of the parent's, under `team`.
abbrev mapping : List NodeIndex
mapping = 2 ∷ 3 ∷ []

abbrev team : GraphPath
team = record { segments = "team" ∷ [] }

abbrev moved_fan_out : CompiledTransition (List NodeId) String
moved_fan_out = conditional_fan_out select (("a", some 2) ∷ ("b", some 3) ∷ (end, none) ∷ [])

-- The child has two nodes, and the parent mounts it.
abbrev child_node : NodePath → GraphPath → CompiledItem (List NodeId) String String
child_node path graph_path =
    node (record { path = path; graph_path = graph_path; kind = "work"; transition = fixed none })

abbrev child_graph : CompiledGraph (List NodeId) String String
child_graph = record {
  items = child_node (node_root "a") root ∷ child_node (node_root "b") root ∷ [];
  node_paths = (node_root "a", 0) ∷ (node_root "b", 1) ∷ [];
  scope_exits = [];
  entry_index = some 0;
  version = none;
}

abbrev in_team : NodeId → NodePath
in_team id = record { segments = "team" ∷ id ∷ [] }

abbrev parent_graph : CompiledGraph (List NodeId) String String
parent_graph = record {
  items =
      enter_subgraph team (fixed (some 2))
      ∷ exit_subgraph team (node_root "team") (fixed none)
      ∷ child_node (in_team "a") team
      ∷ child_node (in_team "b") team
      ∷ [];
  node_paths = (in_team "a", 2) ∷ (in_team "b", 3) ∷ [];
  scope_exits = (team, 1) ∷ [];
  entry_index = some 0;
  version = none;
}

mapping_adds : (i j : NodeIndex) → get_elem? mapping i ≡ some j → j ≡ 2 + i
mapping_adds zero j h = ground arith
mapping_adds (suc zero) j h = ground arith
mapping_adds (suc (suc i)) j h = absurd (ground arith)

paths_moved :
    (i j : NodeIndex)
    → get_elem? mapping i ≡ some j
    → Route.path_at parent_graph j ≡ node_prefixed (Route.path_at child_graph i) team
unfolding node_prefixed Route.path_at Route.item_path
paths_moved zero j h = ground arith
paths_moved (suc zero) j h = ground arith
paths_moved (suc (suc i)) j h = absurd (ground arith)

remapped : remap mapping fan_out ≡ some moved_fan_out
unfolding remap remap_allowed
remapped = refl

remap-mounted_example :
    resolve_into moved_fan_out selection
      (graph_prefixed root team)
      (shift_all 2 (0 ∷ []))
      (Route.path_at parent_graph)
    ≡ mounted 2 team (resolve_into fan_out selection root (0 ∷ []) (Route.path_at child_graph))
remap-mounted_example =
    remap-mounted 2 mapping team (Route.path_at child_graph) (Route.path_at parent_graph) fan_out
      moved_fan_out selection root (0 ∷ []) mapping_adds paths_moved remapped
