-- ===== src/Core/Graph/Frontiers/Concurrent.antt =====
-- The nodes that can run in one step of a graph, by its edges; those that
-- `validate_subgraph_frontiers` of crates/group-agent-core/src/graph.rs looks for.
use group.Prelude.{
  Among, get, nat_eq, string_eq, bool_eq, option_eq, list_eq, ◌≡◌, none, some, List, [], ◌∷◌, ◌++◌,
}
use group.Core.Path.{NodeId}
use group.Core.Graph.{StateGraph, FanOutEdge, ConditionalEdge, ConditionalFanOutEdge}
use group.Core.Graph.Edges.{EdgeAggregation, FixedOutgoing}
use group.Core.Graph.Frontiers.Members.{Beside}

-- What a node's transition can select: the target of its fixed edge, all targets of its fan-out,
-- of its conditional fan-out any of them, one target of its conditional edges, or nothing.
pub data Selects {S E : Type 0} (edges : EdgeAggregation S E) (source : NodeId)
    (targets : List NodeId) : Type 0 where
  by_edge :
      (outgoing : FixedOutgoing)
      → get source edges.fixed_by_source ≡ some outgoing
      → targets ≡ outgoing.successor ∷ []
      → Selects edges source targets
  by_fan_out :
      (fan_out : FanOutEdge)
      → get source edges.fixed_by_source ≡ none
      → get source edges.fan_out_by_source ≡ some fan_out
      → targets ≡ fan_out.targets
      → Selects edges source targets
  by_selection :
      (fan_out : ConditionalFanOutEdge S E)
      → get source edges.fixed_by_source ≡ none
      → get source edges.fan_out_by_source ≡ none
      → get source edges.conditional_fan_out_by_source ≡ some fan_out
      → targets ≡ fan_out.allowed_targets
      → Selects edges source targets
  by_route :
      (edge : ConditionalEdge S E) (target : NodeId)
      → get source edges.fixed_by_source ≡ none
      → get source edges.fan_out_by_source ≡ none
      → get source edges.conditional_fan_out_by_source ≡ none
      → get source edges.conditional_by_source ≡ some edge
      → Among target edge.allowed_targets
      → targets ≡ target ∷ []
      → Selects edges source targets
  by_nothing :
      get source edges.fixed_by_source ≡ none
      → get source edges.fan_out_by_source ≡ none
      → get source edges.conditional_fan_out_by_source ≡ none
      → get source edges.conditional_by_source ≡ none
      → targets ≡ []
      → Selects edges source targets

-- Two nodes that can run in one step: distinct executable targets of one declared fan-out, or of
-- what two such nodes select.
pub data Concurrent {S E N : Type 0} (graph : StateGraph S E N) (edges : EdgeAggregation S E)
    : NodeId → NodeId → Type 0 where
  fanned :
      (a b : NodeId) (edge : FanOutEdge)
      → Among edge graph.fan_out_edges
      → Beside a b edge.targets
      → Concurrent graph edges a b
  selected :
      (a b : NodeId) (edge : ConditionalFanOutEdge S E)
      → Among edge graph.conditional_fan_out_edges
      → Beside a b edge.allowed_targets
      → Concurrent graph edges a b
  continued :
      (left right a b : NodeId) (ls rs : List NodeId)
      → Concurrent graph edges left right
      → Selects edges left ls
      → Selects edges right rs
      → Beside a b (ls ++ rs)
      → Concurrent graph edges a b
