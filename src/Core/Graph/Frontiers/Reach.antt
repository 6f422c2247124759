-- ===== src/Core/Graph/Frontiers/Reach.antt =====
-- The pairs of nodes that `validate_subgraph_frontiers` in crates/group-agent-core/src/graph.rs
-- looks for: those that can run in one step of the graph.
use group.Prelude.{Among, nat_eq, string_eq, bool_eq, option_eq, list_eq, List, []}
use group.Core.Path.{NodeId}
use group.Core.Graph.{StateGraph}
use group.Core.Graph.Edges.{EdgeAggregation}
use group.Core.Graph.Frontiers.{
  canonical_pair, pair_eq, without_end, distinct_from, all_pairs, next_frontiers,
  declared_frontiers,
}
use group.Core.Graph.Frontiers.Measure.{Pair}

-- The pairs of distinct executable nodes of a frontier.
abbrev pub parallel : List NodeId → List Pair
parallel frontier = all_pairs (distinct_from [] (without_end frontier))

-- A pair that a declared fan-out runs side by side, or that follows such a pair.
pub data Reached {S E N : Type 0} (graph : StateGraph S E N) (edges : EdgeAggregation S E)
    : Pair → Type 0 where
  declared :
      (frontier : List NodeId) (p : Pair)
      → Among frontier (declared_frontiers graph edges)
      → Among p (parallel frontier)
      → Reached graph edges p
  follows :
      (q : Pair) (frontier : List NodeId) (p : Pair)
      → Reached graph edges q
      → Among frontier (next_frontiers graph edges (canonical_pair q.0 q.1))
      → Among p (parallel frontier)
      → Reached graph edges p
