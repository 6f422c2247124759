-- ===== src/Core/Graph/Topology.antt =====
-- The topology that `compile` of crates/group-agent-core/src/graph.rs builds, and
-- `validate_reachability`. `petgraph`'s depth-first search is a parameter: what it visits from a
-- node, over the edges of the topology.
use group.Prelude.{
  Map, get, insert, contains_key, nat_eq, string_eq, bool_eq, option_eq, list_eq, contains, suc,
  Bool, not, ◌||◌, List, [], ◌∷◌, ◌++◌, map,
}
use group.Core.Path.{NodeId, start, end}
use group.Core.Transition.{NodeIndex}
use group.Core.Graph.{StateGraph, missing_outgoing_edge, unreachable_node, no_reachable_end}
use group.Core.Graph.Edges.{EdgeAggregation, refuse_if}
use group.Core.Graph.Flat.{Outcome, returned, ◌>>=◌, expect, try}

-- A directed edge of the topology.
abbrev pub Arrow : Type 0
Arrow = NodeIndex × NodeIndex

abbrev pub Search : Type 0
Search = List Arrow → NodeIndex → List NodeIndex

module _ {S E N : Type 0} where
  abbrev pub item_ids : StateGraph S E N → List NodeId
  item_ids graph = map (λ x. x.0) graph.items

-- `topology.add_node` for each identifier in turn.
unfoldable pub add_nodes : List NodeId → NodeIndex → Map NodeId NodeIndex → Map NodeId NodeIndex
add_nodes [] index m = m
add_nodes (id ∷ rest) index m = add_nodes rest (suc index) (insert id index m)

unfoldable pub topology_indices : List NodeId → Map NodeId NodeIndex
unfolding add_nodes
topology_indices ids = add_nodes (start ∷ ids ++ end ∷ []) 0 []

-- `topology.add_edge(indices[source], indices[target], ..)` for each target.
unfoldable pub add_arrows :
    Map NodeId NodeIndex → NodeId → List NodeId → List Arrow → Outcome (List Arrow)
add_arrows indices source [] arrows = returned arrows
add_arrows indices source (target ∷ rest) arrows = expect (get source indices) >>= λ from.
    expect (get target indices) >>= λ to. add_arrows indices source rest (arrows ++ (from, to) ∷ [])

unfoldable pub add_each :
    {A : Type 0}
    → Map NodeId NodeIndex
    → (A → NodeId)
    → (A → List NodeId)
    → List A
    → List Arrow
    → Outcome (List Arrow)
unfolding add_arrows
add_each indices source_of targets_of [] arrows = returned arrows
add_each indices source_of targets_of (edge ∷ rest) arrows =
    add_arrows indices (source_of edge) (targets_of edge) arrows >>= λ arrows'.
    add_each indices source_of targets_of rest arrows'

module _ {S E N : Type 0} where
  unfoldable pub topology : Map NodeId NodeIndex → StateGraph S E N → Outcome (List Arrow)
  unfolding add_each
  topology indices graph =
      add_each indices (λ e. e.from) (λ e. e.to ∷ []) graph.fixed_edges [] >>= λ arrows.
      add_each indices (λ e. e.source) (λ e. e.targets) graph.fan_out_edges arrows >>= λ arrows.
      add_each indices (λ e. e.source) (λ e. e.allowed_targets) graph.conditional_edges arrows
      >>= λ arrows.
          add_each indices (λ e. e.source) (λ e. e.allowed_targets) graph.conditional_fan_out_edges
            arrows

unfoldable pub check_reachable :
    Map NodeId NodeIndex → List NodeIndex → List NodeId → Outcome (Unit {0})
check_reachable indices reachable [] = returned tt
check_reachable indices reachable (id ∷ rest) = expect (get id indices) >>= λ index.
    try (refuse_if (not (contains index reachable)) (unreachable_node id)) >>= λ _.
    check_reachable indices reachable rest

module _ {S E : Type 0} (edges : EdgeAggregation S E) where
  unfoldable pub has_outgoing : NodeId → Bool
  has_outgoing id =
      contains_key id edges.fixed_by_source
      || contains_key id edges.fan_out_by_source
      || contains_key id edges.conditional_by_source
      || contains_key id edges.conditional_fan_out_by_source

  unfoldable pub check_outgoing : List NodeId → Outcome (Unit {0})
  unfolding has_outgoing
  check_outgoing [] = returned tt
  check_outgoing (id ∷ rest) =
      try (refuse_if (not (has_outgoing id)) (missing_outgoing_edge id)) >>= λ _.
      check_outgoing rest

  unfoldable pub validate_reachability :
      Map NodeId NodeIndex → List NodeIndex → NodeIndex → List NodeId → Outcome (Unit {0})
  unfolding check_reachable check_outgoing
  validate_reachability indices reachable end_index ids =
      check_reachable indices reachable ids >>= λ _. check_outgoing ids >>= λ _.
      try (refuse_if (not (contains end_index reachable)) no_reachable_end)
