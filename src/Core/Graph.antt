-- ===== src/Core/Graph.antt =====
-- The state-graph builder and the compiled graph: crates/group-agent-core/src/graph.rs, with the
-- edges of edge.rs. `S` is the state, `E` the error of a router and `N` the kind of a node, with
-- the application's code in it. A method that changes the builder returns it beside its result.
pub mod Build
pub mod Edges
pub mod Frontiers
pub mod Flat
pub mod Topology
pub mod Compile
pub mod Tests
use group.Prelude.{
  if◌then◌else◌, is_empty, Map, get, insert, contains_key, ◌==◌, nat_eq, string_eq, bool_eq,
  option_eq, list_eq, contains, Result, ok, err, ℕ, Bool, true, false, ◌||◌, Option, none, some,
  List, [], ◌∷◌, ◌++◌,
}
use group.Core.Path.{NodeId, GraphPath, NodePath, is_reserved}
use group.Core.Record.{GraphVersion}
use group.Core.Transition.{NodeIndex, CompiledTransition}

pub record FixedEdge : Type 0 where
  pub from : NodeId
  pub to : NodeId

pub record FanOutEdge : Type 0 where
  pub source : NodeId
  pub targets : List NodeId

pub record ConditionalEdge (S E : Type 0) : Type 0 where
  pub source : NodeId
  pub allowed_targets : List NodeId
  pub router : S → Result NodeId E

pub record ConditionalFanOutEdge (S E : Type 0) : Type 0 where
  pub source : NodeId
  pub allowed_targets : List NodeId
  pub router : S → Result (List NodeId) E

pub record CompiledNode (S E N : Type 0) : Type 0 where
  pub path : NodePath
  pub graph_path : GraphPath
  pub kind : N
  pub transition : CompiledTransition S E

pub data CompiledItem (S E N : Type 0) : Type 0 where
  node : CompiledNode S E N → CompiledItem S E N
  enter_subgraph : GraphPath → CompiledTransition S E → CompiledItem S E N
  exit_subgraph : GraphPath → NodePath → CompiledTransition S E → CompiledItem S E N

pub record CompiledGraph (S E N : Type 0) : Type 0 where
  pub items : List (CompiledItem S E N)
  pub node_paths : Map NodePath NodeIndex
  pub scope_exits : Map GraphPath NodeIndex
  pub entry_index : Option NodeIndex
  pub version : Option GraphVersion

pub data DeclaredItem (S E N : Type 0) : Type 0 where
  declared_node : N → DeclaredItem S E N
  declared_subgraph : CompiledGraph S E N → DeclaredItem S E N

abbrev pub is_subgraph : {S E N : Type 0} → DeclaredItem S E N → Bool
is_subgraph (declared_node n) = false
is_subgraph (declared_subgraph g) = true

pub record StateGraph (S E N : Type 0) : Type 0 where
  pub items : Map NodeId (DeclaredItem S E N)
  pub fixed_edges : List FixedEdge
  pub fan_out_edges : List FanOutEdge
  pub conditional_edges : List (ConditionalEdge S E)
  pub conditional_fan_out_edges : List (ConditionalFanOutEdge S E)
  pub version : Option GraphVersion

pub data GraphBuildError : Type 0 where
  duplicate_node reserved_node_id : NodeId → GraphBuildError
  empty_conditional_targets : NodeId → GraphBuildError
  duplicate_conditional_target : NodeId → NodeId → GraphBuildError
  multiple_conditional_routers : NodeId → GraphBuildError
  empty_conditional_fan_out_targets : NodeId → GraphBuildError
  duplicate_conditional_fan_out_target : NodeId → NodeId → GraphBuildError
  multiple_conditional_fan_out_routers : NodeId → GraphBuildError
  empty_fan_out_targets : NodeId → GraphBuildError
  duplicate_fan_out_target : NodeId → NodeId → GraphBuildError
  multiple_fan_out_transitions duplicate_subgraph_mount : NodeId → GraphBuildError

pub data GraphCompileError : Type 0 where
  unknown_node : NodeId → NodeId → NodeId → GraphCompileError
  unknown_conditional_source unknown_conditional_fan_out_source : NodeId → GraphCompileError
  unknown_fan_out_source : NodeId → GraphCompileError
  unknown_conditional_target unknown_conditional_fan_out_target :
      NodeId → NodeId → GraphCompileError
  unknown_fan_out_target : NodeId → NodeId → GraphCompileError
  conditional_fan_out_targets_subgraph : NodeId → NodeId → GraphCompileError
  missing_start_edge : GraphCompileError
  start_has_incoming : NodeId → GraphCompileError
  start_has_conditional_edge start_has_conditional_fan_out start_has_fan_out : GraphCompileError
  end_has_outgoing : NodeId → GraphCompileError
  end_has_conditional_edge end_has_conditional_fan_out end_has_fan_out : GraphCompileError
  multiple_start_edges : ℕ → GraphCompileError
  multiple_outgoing_edges : NodeId → ℕ → GraphCompileError
  mixed_outgoing_edge_kinds missing_outgoing_edge unreachable_node : NodeId → GraphCompileError
  no_reachable_end : GraphCompileError
  subgraph_in_parallel_frontier : NodeId → GraphCompileError
  duplicate_node_path : NodePath → GraphCompileError

-- The first identifier that a `HashSet` which holds `seen` refuses.
pub first_duplicate : List NodeId → List NodeId → Option NodeId
first_duplicate seen [] = none
first_duplicate seen (x ∷ xs) =
    let rest = first_duplicate (x ∷ seen) xs in if contains x seen then some x else rest

-- `any(|edge| edge.source == source)`, for the sources of a list of edges.
abbrev pub has_source {ℓ} : {A : Type ℓ} → (A → NodeId) → NodeId → List A → Bool
has_source source_of source [] = false
has_source source_of source (edge ∷ rest) =
    source_of edge == source || has_source source_of source rest

-- The checks that the three kinds of multiple transitions share, each with its own errors.
pub check_targets :
    Bool
    → List NodeId
    → GraphBuildError
    → GraphBuildError
    → (NodeId → GraphBuildError)
    → Option GraphBuildError
unfolding first_duplicate
check_targets known targets multiple empty duplicate =
    if known
    then some multiple
    else if is_empty targets
    then some empty
    else elim (first_duplicate [] targets) [ none ↦ none | some target ↦ some (duplicate target) ]

module _ {S E N : Type 0} where
  -- `StateGraph::new`.
  abbrev pub empty : StateGraph S E N
  empty = record {
    items = [];
    fixed_edges = [];
    fan_out_edges = [];
    conditional_edges = [];
    conditional_fan_out_edges = [];
    version = none;
  }

  pub set_version : GraphVersion → StateGraph S E N → StateGraph S E N
  set_version version graph = record graph { version = some version }

  -- `add_node` and `add_interruptible_node` call this with their kind of node.
  pub insert_node :
      NodeId → N → StateGraph S E N → Result (Unit {0}) GraphBuildError × StateGraph S E N
  insert_node node_id kind graph =
      if is_reserved node_id
      then (err (reserved_node_id node_id), graph)
      else if contains_key node_id graph.items
      then (err (duplicate_node node_id), graph)
      else (ok tt, record graph { items = insert node_id (declared_node kind) graph.items })

  pub add_subgraph :
      NodeId
      → CompiledGraph S E N
      → StateGraph S E N
      → Result (Unit {0}) GraphBuildError × StateGraph S E N
  add_subgraph node_id subgraph graph =
      if is_reserved node_id
      then (err (reserved_node_id node_id), graph)
      else elim (get node_id graph.items) [
        | some existing ↦ (
          err (
              if is_subgraph existing
              then duplicate_subgraph_mount node_id
              else duplicate_node node_id),
          graph,
        )
        | none ↦ (
          ok tt,
          record graph { items = insert node_id (declared_subgraph subgraph) graph.items },
        )
      ]

  pub add_edge : NodeId → NodeId → StateGraph S E N → StateGraph S E N
  add_edge from to graph = record graph {
    fixed_edges = graph.fixed_edges ++ record { from = from; to = to } ∷ [];
  }

  pub add_fan_out :
      NodeId → List NodeId → StateGraph S E N → Result (Unit {0}) GraphBuildError × StateGraph S E N
  unfolding check_targets
  add_fan_out source targets graph =
      elim (check_targets (has_source (λ e. e.source) source graph.fan_out_edges) targets
        (multiple_fan_out_transitions source) (empty_fan_out_targets source)
        (duplicate_fan_out_target source)) [
          | some e ↦ (err e, graph)
          | none ↦ (
            ok tt,
            record graph {
              fan_out_edges =
                  graph.fan_out_edges ++ record { source = source; targets = targets } ∷ [];
            },
          )
        ]

  pub add_conditional_edges :
      NodeId
      → List NodeId
      → (S → Result NodeId E)
      → StateGraph S E N
      → Result (Unit {0}) GraphBuildError × StateGraph S E N
  unfolding check_targets
  add_conditional_edges source allowed_targets router graph =
      elim (check_targets (has_source (λ e. e.source) source graph.conditional_edges)
        allowed_targets (multiple_conditional_routers source) (empty_conditional_targets source)
        (duplicate_conditional_target source)) [
          | some e ↦ (err e, graph)
          | none ↦ (
            ok tt,
            record graph {
              conditional_edges =
                  graph.conditional_edges
                  ++ record { source = source; allowed_targets = allowed_targets; router = router }
                    ∷ [];
            },
          )
        ]

  pub add_conditional_fan_out :
      NodeId
      → List NodeId
      → (S → Result (List NodeId) E)
      → StateGraph S E N
      → Result (Unit {0}) GraphBuildError × StateGraph S E N
  unfolding check_targets
  add_conditional_fan_out source allowed_targets router graph =
      elim (check_targets (has_source (λ e. e.source) source graph.conditional_fan_out_edges)
        allowed_targets (multiple_conditional_fan_out_routers source)
        (empty_conditional_fan_out_targets source) (duplicate_conditional_fan_out_target source)) [
          | some e ↦ (err e, graph)
          | none ↦ (
            ok tt,
            record graph {
              conditional_fan_out_edges =
                  graph.conditional_fan_out_edges
                  ++ record { source = source; allowed_targets = allowed_targets; router = router }
                    ∷ [];
            },
          )
        ]
