-- ===== src/Core/Graph/Edges/Parts.antt =====
-- The four maps that `aggregate_edges` of crates/group-agent-core/src/graph.rs collects.
use group.Prelude.{
  is_empty, Map, insert, nat_eq, string_eq, bool_eq, option_eq, list_eq, ok, ◌≡◌, refl, true, false,
  List, [], ◌∷◌, arith,
}
use group.Core.Path.{NodeId}
use group.Core.Graph.{StateGraph, FanOutEdge, ConditionalFanOutEdge, DeclaredItem}
use group.Core.Graph.Edges.{
  EdgeAggregation, aggregate_edges, aggregate_fixed, aggregate_conditional, aggregate_fan_out,
  aggregate_conditional_fan_out, aggregate_each, Checked, check_fan_out, check_conditional_fan_out,
}

module _ {S E N : Type 0} where
  pub record Parts (graph : StateGraph S E N) (edges : EdgeAggregation S E) : Type 0 where
    pub fixed : aggregate_fixed graph.items graph.fixed_edges [] ≡ ok edges.fixed_by_source
    pub conditional :
        aggregate_conditional graph.items graph.conditional_edges []
        ≡ ok edges.conditional_by_source
    pub fan_out : aggregate_fan_out graph.items graph.fan_out_edges [] ≡ ok edges.fan_out_by_source
    pub conditional_fan_out :
        aggregate_conditional_fan_out graph.items graph.conditional_fan_out_edges []
        ≡ ok edges.conditional_fan_out_by_source

  pub aggregate_edges-Parts :
      (graph : StateGraph S E N) (edges : EdgeAggregation S E)
      → aggregate_edges graph ≡ ok edges
      → Parts graph edges
  unfolding aggregate_edges
  aggregate_edges-Parts graph edges h = record {
    fixed = ground arith;
    conditional = ground arith;
    fan_out = ground arith;
    conditional_fan_out = ground arith;
  }

insert-not-empty :
    {V : Type 0} (k : NodeId) (v : V) (m : Map NodeId V) → is_empty (insert k v m) ≡ false
unfolding insert
insert-not-empty k v [] = refl
insert-not-empty k v ((j, w) ∷ m) = ground arith

pub aggregate_each-empty :
    {A : Type 0} (check : A → Checked) (source_of : A → NodeId) (es : List A) (m m' : Map NodeId A)
    → aggregate_each check source_of es m ≡ ok m'
    → is_empty m' ≡ true
    → (es ≡ []) × (is_empty m ≡ true)
unfolding aggregate_each
aggregate_each-empty check source_of [] m m' h e = (refl, ground arith)
aggregate_each-empty check source_of (edge ∷ es) m m' h e = absurd (
    ground (
      arith,
      aggregate_each-empty check source_of es (insert (source_of edge) edge m) m',
      insert-not-empty (source_of edge) edge m,
    ))

module _ {S E N : Type 0} (items : Map NodeId (DeclaredItem S E N)) where
  pub aggregate_fan_out-empty :
      (es : List FanOutEdge) (m' : Map NodeId FanOutEdge)
      → aggregate_fan_out items es [] ≡ ok m'
      → is_empty m' ≡ true
      → es ≡ []
  unfolding aggregate_fan_out
  aggregate_fan_out-empty es m' h e =
      (aggregate_each-empty (check_fan_out items) (λ x. x.source) es [] m' h e).0

  pub aggregate_conditional_fan_out-empty :
      (es : List (ConditionalFanOutEdge S E)) (m' : Map NodeId (ConditionalFanOutEdge S E))
      → aggregate_conditional_fan_out items es [] ≡ ok m'
      → is_empty m' ≡ true
      → es ≡ []
  unfolding aggregate_conditional_fan_out
  aggregate_conditional_fan_out-empty es m' h e =
      (aggregate_each-empty (check_conditional_fan_out items) (λ x. x.source) es [] m' h e).0
