-- ===== src/Core/Graph/Edges/Shape.antt =====
-- What a graph's edges must be like for `compile` of crates/group-agent-core/src/graph.rs, said of
-- the declared edges.
use group.Prelude.{
  if◌then◌else◌, All, Map, get, contains_key, ◌==◌, nat_eq, string_eq, bool_eq, option_eq, list_eq,
  ℕ, suc, ◌+◌, ◌≤◌, ◌≡◌, ◌⊎◌, Bool, true, false, not, Option, none, some, List, [], ◌∷◌,
}
use group.Core.Path.{NodeId, start, is_start, is_end}
use group.Core.Graph.{
  StateGraph, FixedEdge, FanOutEdge, ConditionalEdge, ConditionalFanOutEdge, DeclaredItem,
  is_subgraph, has_source,
}
use group.Core.Graph.Edges.{usize_from}

abbrev pub is_node : {S E N : Type 0} → Option (DeclaredItem S E N) → Bool
is_node none = false
is_node (some item) = not (is_subgraph item)

module _ {S E N : Type 0} (items : Map NodeId (DeclaredItem S E N)) where
  abbrev IsItem : NodeId → Type 0
  IsItem id = contains_key id items ≡ true

  -- An edge may lead to an item, or to `END`.
  abbrev pub IsTarget : NodeId → Type 0
  IsTarget id = (is_start id ≡ false) × ((is_end id ≡ true) ⊎ IsItem id)

  -- An edge of several targets comes from an item.
  abbrev pub IsSource : NodeId → Type 0
  IsSource id = (is_start id ≡ false) × (is_end id ≡ false) × IsItem id

  -- A conditional fan-out leads to no mount.
  abbrev pub IsNodeTarget : NodeId → Type 0
  IsNodeTarget id = (is_start id ≡ false) × ((is_end id ≡ true) ⊎ (is_node (get id items) ≡ true))

  -- A fixed edge may also come from `START`.
  abbrev pub IsFixedEdge : FixedEdge → Type 0
  IsFixedEdge e =
      (is_end e.from ≡ false) × ((is_start e.from ≡ true) ⊎ IsItem e.from) × IsTarget e.to

  abbrev pub IsFanOut : FanOutEdge → Type 0
  IsFanOut e = IsSource e.source × All IsTarget e.targets

  abbrev pub IsConditional : ConditionalEdge S E → Type 0
  IsConditional e = IsSource e.source × All IsTarget e.allowed_targets

  abbrev pub IsConditionalFanOut : ConditionalFanOutEdge S E → Type 0
  IsConditionalFanOut e = IsSource e.source × All IsNodeTarget e.allowed_targets

-- How many fixed edges come from the source.
unfoldable pub count_from : NodeId → List FixedEdge → ℕ
count_from id [] = 0
count_from id (e ∷ es) = let rest = count_from id es in if e.from == id then suc rest else rest

module _ {S E N : Type 0} (graph : StateGraph S E N) where
  -- The transitions of an item: its fixed edges, and one for each other kind that it has.
  unfoldable pub transition_count : NodeId → ℕ
  unfolding count_from
  transition_count id =
      count_from id graph.fixed_edges
      + usize_from (has_source (λ e. e.source) id graph.fan_out_edges)
      + usize_from (has_source (λ e. e.source) id graph.conditional_edges)
      + usize_from (has_source (λ e. e.source) id graph.conditional_fan_out_edges)

  -- Every edge is well placed, `START` has one edge, and an item has at most one transition.
  pub record IsWellShaped : Type 0 where
    pub fixed : All (IsFixedEdge graph.items) graph.fixed_edges
    pub conditional : All (IsConditional graph.items) graph.conditional_edges
    pub fan_out : All (IsFanOut graph.items) graph.fan_out_edges
    pub conditional_fan_out : All (IsConditionalFanOut graph.items) graph.conditional_fan_out_edges
    pub entry : count_from start graph.fixed_edges ≡ 1
    pub single : All (λ x. transition_count x.0 ≤ 1) graph.items
