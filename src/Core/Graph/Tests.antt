-- ===== src/Core/Graph/Tests.antt =====
-- A small graph of crates/group-agent-core/src/graph.rs: `plan` fans out to two workers, which both
-- end. The state is a number, and a node is its name.
use native.Mathlib.Nat.{le_refl}
use group.Prelude.{
  insert_by, sort_by, get, insert, nat_eq, string_eq, bool_eq, option_eq, list_eq, contains, Result,
  ok, err, ℕ, ◌≤◌, String, ◌≡◌, refl, ◌↔◌, ◌⊎◌, Option, none, some, List, [], ◌∷◌, ◌++◌, arith,
}
use group.Core.Path.{
  GraphPath, NodePath, child, graph_prefixed, node_prefixed, start, end, root, node_root,
  is_reserved, is_start, is_end, new,
}
use group.Core.Transition.{remap, remap_indices, conditional, fixed, static_fan_out}
use group.Core.Graph.{
  duplicate_node_path, StateGraph, node, declared_node, declared_subgraph, enter_subgraph,
  exit_subgraph, duplicate_node, empty, insert_node, add_edge, add_fan_out, check_targets,
  first_duplicate, CompiledGraph, NodeId, NodeIndex,
}
use group.Core.Graph.Build.{
  Call, node_call, edge_call, fan_out_call, apply, build, IsBuilt, refused_unchanged,
}
use group.Core.Graph.Build.Kept.{build-IsBuilt}
use group.Core.Graph.Edges.{
  EdgeAggregation, aggregate_edges, aggregate_fixed, check_fixed, check_endpoint,
  aggregate_conditional, aggregate_fan_out, aggregate_conditional_fan_out, aggregate_each,
  check_fan_out, check_source, check_target, each_target, validate_edge_shapes, check_start,
  check_shapes, check_shape, kind_count,
}
use group.Core.Graph.Edges.Shape.{IsWellShaped}
use group.Core.Graph.Edges.Accepted.{check_edges, check_edges_iff}
use group.Core.Graph.Frontiers.{validate_subgraph_frontiers, has_mount}
use group.Core.Graph.Frontiers.Concurrent.{Concurrent}
use group.Core.Graph.Frontiers.Fuel.{Answer, pair_bound, validate_subgraph_frontiers_total}
use group.Core.Graph.Frontiers.Correct.{IsMounted, validate_subgraph_frontiers_iff}
use group.Core.Graph.Topology.{
  Search, topology_indices, add_nodes, topology, add_each, add_arrows, validate_reachability,
  check_reachable, check_outgoing, has_outgoing,
}
use group.Core.Graph.Flat
use group.Core.Transition.Remap.{shift}
use group.Core.Graph.Flat.Append.{filled, append_graph_items}
use group.Core.Graph.Flat.Range.{IsInRange}
use group.Core.Graph.Flat.Clash.{Clashes, placed_paths}
use group.Core.Graph.Flat.Total.{append_graph_total}
use group.Core.Graph.Flat.{
  FlatBuilder, rejected, append_graph, allocate_each, append_items, append_item, append_exits,
  returned, allocate, set_item, finish_items,
}
use group.Core.Graph.Compile.{
  place_subgraph, compile, validate, flatten, allocate_items, allocate_item, place_items,
  place_item, compile_transition, entry_of, entries_of, collect_allowed,
}

abbrev Sample : Type 0
Sample = StateGraph ℕ String String

abbrev calls : List (Call ℕ String String)
calls =
    node_call "plan" "plan"
    ∷ node_call "left" "left"
    ∷ node_call "right" "right"
    ∷ edge_call start "plan"
    ∷ fan_out_call "plan" ("right" ∷ "left" ∷ [])
    ∷ edge_call "left" end
    ∷ edge_call "right" end
    ∷ []

abbrev sample : Sample
sample = record {
  items =
      ("plan", declared_node "plan")
      ∷ ("left", declared_node "left")
      ∷ ("right", declared_node "right")
      ∷ [];
  fixed_edges =
      record { from = start; to = "plan" }
      ∷ record { from = "left"; to = end }
      ∷ record { from = "right"; to = end }
      ∷ [];
  fan_out_edges = record { source = "plan"; targets = "right" ∷ "left" ∷ [] } ∷ [];
  conditional_edges = [];
  conditional_fan_out_edges = [];
  version = none;
}

abbrev sample_edges : EdgeAggregation ℕ String
sample_edges = record {
  fixed_by_source =
      (start, record { count = 1; successor = "plan" })
      ∷ ("left", record { count = 1; successor = end })
      ∷ ("right", record { count = 1; successor = end })
      ∷ [];
  fan_out_by_source = ("plan", record { source = "plan"; targets = "right" ∷ "left" ∷ [] }) ∷ [];
  conditional_by_source = [];
  conditional_fan_out_by_source = [];
}

built : build calls empty ≡ sample
unfolding build apply insert_node add_edge add_fan_out check_targets first_duplicate is_reserved
    is_start is_end get insert contains
built = refl

aggregated : aggregate_edges sample ≡ ok sample_edges
unfolding aggregate_edges aggregate_fixed check_fixed check_endpoint aggregate_conditional
    aggregate_fan_out aggregate_conditional_fan_out aggregate_each check_fan_out check_source
    check_target each_target is_reserved is_start is_end get insert
aggregated = refl

duplicate_refused :
    (apply {S = ℕ} {E = String} (node_call "plan" "again") sample).0 ≡ err (duplicate_node "plan")
unfolding apply insert_node is_reserved is_start is_end get
duplicate_refused = refl

refused_unchanged_example : (apply (node_call "plan" "again") sample).1 ≡ sample
refused_unchanged_example =
    refused_unchanged (node_call "plan" "again") sample (duplicate_node "plan") duplicate_refused

build-IsBuilt_example : IsBuilt (build calls empty)
build-IsBuilt_example = build-IsBuilt calls

check_edges_iff_example : (check_edges sample ≡ ok tt) ↔ IsWellShaped sample
check_edges_iff_example = check_edges_iff sample

validate_subgraph_frontiers_total_example :
    (answer : Answer) × ((fuel : ℕ)
      → pair_bound sample sample_edges ≤ fuel
      → validate_subgraph_frontiers sample sample_edges fuel ≡ some answer)
validate_subgraph_frontiers_total_example = validate_subgraph_frontiers_total sample sample_edges

validate_subgraph_frontiers_iff_example :
    (validate_subgraph_frontiers sample sample_edges (pair_bound sample sample_edges)
      ≡ some (ok tt))
    ↔ ((a b : NodeId) → Concurrent sample sample_edges a b → ¬ IsMounted sample sample_edges a)
validate_subgraph_frontiers_iff_example =
    validate_subgraph_frontiers_iff sample sample_edges (pair_bound sample sample_edges) aggregated
      (le_refl _)

-- A search that visits every node of the sample.
abbrev visit_all : Search
visit_all arrows from = 0 ∷ 1 ∷ 2 ∷ 3 ∷ 4 ∷ []

abbrev compiled_sample : CompiledGraph ℕ String String
compiled_sample = record {
  items =
      node (record {
        path = node_root "plan";
        graph_path = root;
        kind = "plan";
        transition = static_fan_out (1 ∷ 2 ∷ []);
      })
      ∷ node (record {
        path = node_root "left";
        graph_path = root;
        kind = "left";
        transition = fixed none;
      })
      ∷ node (record {
        path = node_root "right";
        graph_path = root;
        kind = "right";
        transition = fixed none;
      })
      ∷ [];
  node_paths = (node_root "plan", 0) ∷ (node_root "left", 1) ∷ (node_root "right", 2) ∷ [];
  scope_exits = [];
  entry_index = some 0;
  version = none;
}

compiled : compile visit_all 16 sample ≡ returned compiled_sample
unfolding compile validate flatten aggregate_edges aggregate_fixed check_fixed check_endpoint
    aggregate_conditional aggregate_fan_out aggregate_conditional_fan_out aggregate_each
    check_fan_out check_source check_target each_target validate_edge_shapes check_start
    check_shapes check_shape kind_count topology_indices add_nodes topology add_each add_arrows
    validate_reachability check_reachable check_outgoing has_outgoing validate_subgraph_frontiers
    has_mount allocate_items allocate_item allocate place_items place_item Flat.insert_node set_item
    compile_transition entry_of entries_of collect_allowed finish_items sort_by insert_by
    is_reserved is_start is_end get insert contains new
compiled = refl

-- The sample, mounted as the only item of a graph.
abbrev parent : Sample
parent = record {
  items = ("team", declared_subgraph compiled_sample) ∷ [];
  fixed_edges = record { from = start; to = "team" } ∷ record { from = "team"; to = end } ∷ [];
  fan_out_edges = [];
  conditional_edges = [];
  conditional_fan_out_edges = [];
  version = none;
}

abbrev team : GraphPath
team = record { segments = "team" ∷ [] }

abbrev in_team : NodeId → NodePath
in_team id = record { segments = "team" ∷ id ∷ [] }

compiled_parent :
    compile visit_all 0 parent
    ≡ returned (record {
      items =
          enter_subgraph team (fixed (some 2))
          ∷ exit_subgraph team (node_root "team") (fixed none)
          ∷ node (record {
            path = in_team "plan";
            graph_path = team;
            kind = "plan";
            transition = static_fan_out (3 ∷ 4 ∷ []);
          })
          ∷ node (record {
            path = in_team "left";
            graph_path = team;
            kind = "left";
            transition = fixed none;
          })
          ∷ node (record {
            path = in_team "right";
            graph_path = team;
            kind = "right";
            transition = fixed none;
          })
          ∷ [];
      node_paths = (in_team "plan", 2) ∷ (in_team "left", 3) ∷ (in_team "right", 4) ∷ [];
      scope_exits = (team, 1) ∷ [];
      entry_index = some 0;
      version = none;
    })
unfolding compile validate flatten aggregate_edges aggregate_fixed check_fixed check_endpoint
    aggregate_conditional aggregate_fan_out aggregate_conditional_fan_out aggregate_each
    check_fan_out check_source check_target each_target validate_edge_shapes check_start
    check_shapes check_shape kind_count topology_indices add_nodes topology add_each add_arrows
    validate_reachability check_reachable check_outgoing has_outgoing validate_subgraph_frontiers
    has_mount allocate_items allocate_item allocate place_items place_item Flat.insert_node set_item
    compile_transition entry_of entries_of collect_allowed finish_items sort_by insert_by
    is_reserved is_start is_end get insert contains new place_subgraph append_graph allocate_each
    append_items append_item append_exits remap remap_indices child graph_prefixed node_prefixed
compiled_parent = refl

-- A graph without nodes is accepted, and so is its mount in a graph that can select it again.
abbrev idle : Sample
idle = record {
  items = [];
  fixed_edges = record { from = start; to = end } ∷ [];
  fan_out_edges = [];
  conditional_edges = [];
  conditional_fan_out_edges = [];
  version = none;
}

abbrev compiled_idle : CompiledGraph ℕ String String
compiled_idle = record {
  items = [];
  node_paths = [];
  scope_exits = [];
  entry_index = none;
  version = none;
}

idle_compiled : compile visit_all 0 idle ≡ returned compiled_idle
unfolding compile validate flatten aggregate_edges aggregate_fixed check_fixed check_endpoint
    aggregate_conditional aggregate_fan_out aggregate_conditional_fan_out aggregate_each
    check_fan_out check_source check_target each_target validate_edge_shapes check_start
    check_shapes check_shape kind_count topology_indices add_nodes topology add_each add_arrows
    validate_reachability check_reachable check_outgoing has_outgoing validate_subgraph_frontiers
    has_mount allocate_items allocate_item allocate place_items place_item Flat.insert_node set_item
    compile_transition entry_of entries_of collect_allowed finish_items sort_by insert_by
    is_reserved is_start is_end get insert contains new place_subgraph append_graph allocate_each
    append_items append_item append_exits remap remap_indices child graph_prefixed node_prefixed
idle_compiled = refl

abbrev select_team : ℕ → Result NodeId String
select_team state = ok "team"

abbrev idle_parent : Sample
idle_parent = record {
  items = ("team", declared_subgraph compiled_idle) ∷ [];
  fixed_edges = record { from = start; to = "team" } ∷ [];
  fan_out_edges = [];
  conditional_edges =
      record { source = "team"; router = select_team; allowed_targets = end ∷ "team" ∷ [] } ∷ [];
  conditional_fan_out_edges = [];
  version = none;
}

abbrev pub revisiting : CompiledGraph ℕ String String
revisiting = record {
  items =
      enter_subgraph team (fixed (some 1))
      ∷ exit_subgraph team (node_root "team")
          (conditional select_team ((end, none) ∷ ("team", some 0) ∷ []))
      ∷ [];
  node_paths = [];
  scope_exits = (team, 1) ∷ [];
  entry_index = some 0;
  version = none;
}

revisiting_compiled : compile visit_all 0 idle_parent ≡ returned revisiting
unfolding compile validate flatten aggregate_edges aggregate_fixed check_fixed check_endpoint
    aggregate_conditional aggregate_fan_out aggregate_conditional_fan_out aggregate_each
    check_fan_out check_source check_target each_target validate_edge_shapes check_start
    check_shapes check_shape kind_count topology_indices add_nodes topology add_each add_arrows
    validate_reachability check_reachable check_outgoing has_outgoing validate_subgraph_frontiers
    has_mount allocate_items allocate_item allocate place_items place_item Flat.insert_node set_item
    compile_transition entry_of entries_of collect_allowed finish_items sort_by insert_by
    is_reserved is_start is_end get insert contains new place_subgraph append_graph allocate_each
    append_items append_item append_exits remap remap_indices child graph_prefixed node_prefixed
revisiting_compiled = refl

-- The builder of the parent, before the child is appended.
abbrev two_slots : FlatBuilder ℕ String String
two_slots = record { items = none ∷ none ∷ []; node_paths = []; scope_exits = [] }

abbrev with_child : FlatBuilder ℕ String String
with_child = record {
  items = none ∷ none ∷ filled 2 team compiled_sample.items;
  node_paths = (in_team "plan", 2) ∷ (in_team "left", 3) ∷ (in_team "right", 4) ∷ [];
  scope_exits = [];
}

appended : append_graph compiled_sample team two_slots ≡ returned (some 2, with_child)
unfolding append_graph allocate_each allocate append_items append_item Flat.insert_node set_item
    append_exits remap remap_indices graph_prefixed node_prefixed get insert
appended = refl

append_graph_items_example :
    (with_child.items ≡ two_slots.items ++ filled 2 team compiled_sample.items)
    × (some 2 ≡ shift 2 compiled_sample.entry_index)
append_graph_items_example =
    append_graph_items compiled_sample team two_slots with_child (some 2) appended

sample-IsInRange : IsInRange compiled_sample
sample-IsInRange = record {
  items = ((omega arith, (omega arith, tt)), (tt, (tt, tt)));
  exits = tt;
  entry = omega arith;
}

append_graph_total_example :
    ((entry : Option NodeIndex) × (after : FlatBuilder ℕ String String) × (append_graph
          compiled_sample team two_slots
        ≡ returned (entry, after))
      × ((p : NodePath) → ¬ Clashes two_slots (placed_paths team compiled_sample.items) p))
    ⊎ ((p : NodePath) × Clashes two_slots (placed_paths team compiled_sample.items) p
        × (append_graph compiled_sample team two_slots ≡ rejected (duplicate_node_path p)))
append_graph_total_example = append_graph_total compiled_sample team two_slots sample-IsInRange
