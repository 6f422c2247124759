-- ===== src/Core/Graph/Build.antt =====
-- Sequences of the methods of `StateGraph` in crates/group-agent-core/src/graph.rs, and what they
-- keep of the builder.
pub mod Checked
pub mod Kept
use group.Prelude.{
  All, Distinct, nat_eq, string_eq, bool_eq, option_eq, list_eq, Result, ok, err, ◌≡◌, ◌≢◌, false,
  none, some, List, [], ◌∷◌, map, arith,
}
use group.Core.Path.{NodeId, is_reserved}
use group.Core.Record.{GraphVersion}
use group.Core.Transition.Routes.{contains-Absent}
use group.Core.Graph.{
  StateGraph, CompiledGraph, GraphBuildError, set_version, insert_node, add_subgraph, add_edge,
  add_fan_out, add_conditional_edges, add_conditional_fan_out, first_duplicate, has_source,
  check_targets,
}

-- One call of a method.
pub data Call (S E N : Type 0) : Type 0 where
  node_call : NodeId → N → Call S E N
  subgraph_call : NodeId → CompiledGraph S E N → Call S E N
  edge_call : NodeId → NodeId → Call S E N
  fan_out_call : NodeId → List NodeId → Call S E N
  conditional_call : NodeId → List NodeId → (S → Result NodeId E) → Call S E N
  conditional_fan_out_call : NodeId → List NodeId → (S → Result (List NodeId) E) → Call S E N
  version_call : GraphVersion → Call S E N

module _ {S E N : Type 0} where
  unfoldable pub apply :
      Call S E N → StateGraph S E N → Result (Unit {0}) GraphBuildError × StateGraph S E N
  unfolding set_version insert_node add_subgraph add_edge add_fan_out add_conditional_edges
      add_conditional_fan_out
  apply (node_call id kind) graph = insert_node id kind graph
  apply (subgraph_call id child) graph = add_subgraph id child graph
  apply (edge_call from to) graph = (ok tt, add_edge from to graph)
  apply (fan_out_call source targets) graph = add_fan_out source targets graph
  apply (conditional_call source targets router) graph =
      add_conditional_edges source targets router graph
  apply (conditional_fan_out_call source targets router) graph =
      add_conditional_fan_out source targets router graph
  apply (version_call version) graph = (ok tt, set_version version graph)

  unfoldable pub build : List (Call S E N) → StateGraph S E N → StateGraph S E N
  unfolding apply
  build [] graph = graph
  build (call ∷ rest) graph = build rest (apply call graph).1

  -- A method that is refused leaves the builder as it was.
  pub refused_unchanged :
      (call : Call S E N) (graph : StateGraph S E N) (e : GraphBuildError)
      → (apply call graph).0 ≡ err e
      → (apply call graph).1 ≡ graph
  unfolding apply
  refused_unchanged (node_call id kind) graph e h = unfold insert_node in ground arith
  refused_unchanged (subgraph_call id child) graph e h = unfold add_subgraph in ground arith
  refused_unchanged (edge_call from to) graph e h = cc
  refused_unchanged (fan_out_call source targets) graph e h = unfold add_fan_out in ground arith
  refused_unchanged (conditional_call source targets router) graph e h =
      unfold add_conditional_edges in ground arith
  refused_unchanged (conditional_fan_out_call source targets router) graph e h =
      unfold add_conditional_fan_out in ground arith
  refused_unchanged (version_call version) graph e h = cc

-- The targets of an edge: some, and none twice.
abbrev pub IsTargetList : List NodeId → Type 0
IsTargetList targets = (targets ≢ []) × Distinct targets

-- Edges of one kind: from different sources, to lists of targets.
pub record AreEdges {A : Type 0} (source_of : A → NodeId) (targets_of : A → List NodeId)
    (edges : List A) : Type 0 where
  pub sources : Distinct (map source_of edges)
  pub targets : All (λ e. IsTargetList (targets_of e)) edges

pub record IsBuilt {S E N : Type 0} (graph : StateGraph S E N) : Type 0 where
  pub ids : Distinct (map (λ x. x.0) graph.items)
  pub free : All (λ x. is_reserved x.0 ≡ false) graph.items
  pub fan_outs : AreEdges (λ e. e.source) (λ e. e.targets) graph.fan_out_edges
  pub conditionals : AreEdges (λ e. e.source) (λ e. e.allowed_targets) graph.conditional_edges
  pub conditional_fan_outs :
      AreEdges (λ e. e.source) (λ e. e.allowed_targets) graph.conditional_fan_out_edges
