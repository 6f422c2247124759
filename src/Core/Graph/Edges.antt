-- ===== src/Core/Graph/Edges.antt =====
-- `aggregate_edges` and `validate_edge_shapes` of crates/group-agent-core/src/graph.rs: each loop
-- is a recursion on its edges that stops at the first error.
pub mod Parts
pub mod Shape
pub mod Checks
pub mod Loops
pub mod Accepted
use group.Prelude.{
  ltb, nat_beq, if◌then◌else◌, Map, get, insert, contains_key, nat_eq, string_eq, bool_eq,
  option_eq, list_eq, Result, ◌>>=◌, ◌>>◌, ok, err, ℕ, ◌+◌, Bool, true, false, not, ◌&&◌, Option,
  none, some, List, [], ◌∷◌,
}
use group.Core.Path.{NodeId, is_start, is_end, is_reserved, start}
use group.Core.Graph.{
  FixedEdge, FanOutEdge, ConditionalEdge, ConditionalFanOutEdge, DeclaredItem, is_subgraph,
  StateGraph, GraphCompileError, unknown_node, unknown_conditional_source,
  unknown_conditional_fan_out_source, unknown_fan_out_source, unknown_conditional_target,
  unknown_conditional_fan_out_target, unknown_fan_out_target, conditional_fan_out_targets_subgraph,
  missing_start_edge, start_has_incoming, start_has_conditional_edge, start_has_conditional_fan_out,
  start_has_fan_out, end_has_outgoing, end_has_conditional_edge, end_has_conditional_fan_out,
  end_has_fan_out, multiple_start_edges, multiple_outgoing_edges, mixed_outgoing_edge_kinds,
}

pub record FixedOutgoing : Type 0 where
  pub count : ℕ
  pub successor : NodeId

pub record EdgeAggregation (S E : Type 0) : Type 0 where
  pub fixed_by_source : Map NodeId FixedOutgoing
  pub fan_out_by_source : Map NodeId FanOutEdge
  pub conditional_by_source : Map NodeId (ConditionalEdge S E)
  pub conditional_fan_out_by_source : Map NodeId (ConditionalFanOutEdge S E)

-- `if condition { return Err(error); }`.
abbrev pub refuse_if {ℓ} : {E : Type ℓ} → Bool → E → Result (Unit {0}) E
refuse_if true e = err e
refuse_if false e = ok tt

abbrev pub Checked : Type 0
Checked = Result (Unit {0}) GraphCompileError

-- `entry(..).and_modify(..).or_insert_with(..)`.
abbrev pub count_outgoing : NodeId → Option FixedOutgoing → FixedOutgoing
count_outgoing to none = record { count = 1; successor = to }
count_outgoing to (some outgoing) = record outgoing { count = outgoing.count + 1 }

-- One check of a list of targets, with the errors of a kind of edge.
unfoldable pub each_target : (NodeId → Checked) → List NodeId → Checked
each_target check [] = ok tt
each_target check (target ∷ rest) = check target >> each_target check rest

module _ {S E N : Type 0} (items : Map NodeId (DeclaredItem S E N)) where
  abbrev unknown : NodeId → Bool
  unknown node_id = not (contains_key node_id items)

  unfoldable pub check_endpoint : FixedEdge → NodeId → Checked
  check_endpoint edge endpoint =
      refuse_if (not (is_reserved endpoint) && unknown endpoint)
        (unknown_node edge.from edge.to endpoint)

  unfoldable pub check_fixed : FixedEdge → Checked
  unfolding check_endpoint
  check_fixed edge = do
    check_endpoint edge edge.from
    check_endpoint edge edge.to
    refuse_if (is_start edge.to) (start_has_incoming edge.from)
    refuse_if (is_end edge.from) (end_has_outgoing edge.to)

  unfoldable pub aggregate_fixed :
      List FixedEdge
      → Map NodeId FixedOutgoing
      → Result (Map NodeId FixedOutgoing) GraphCompileError
  unfolding check_fixed
  aggregate_fixed [] m = ok m
  aggregate_fixed (edge ∷ rest) m =
      check_fixed edge
      >> aggregate_fixed rest (insert edge.from (count_outgoing edge.to (get edge.from m)) m)

  -- The targets of conditional edges and of fan-outs, `source` being the edge's.
  unfoldable pub check_target : NodeId → (NodeId → NodeId → GraphCompileError) → NodeId → Checked
  check_target source unknown_target target = do
    refuse_if (is_start target) (start_has_incoming source)
    refuse_if (not (is_end target) && unknown target) (unknown_target source target)

  -- The targets of conditional fan-outs.
  unfoldable pub check_fan_out_item : NodeId → NodeId → Option (DeclaredItem S E N) → Checked
  check_fan_out_item source target none = err (unknown_conditional_fan_out_target source target)
  check_fan_out_item source target (some item) =
      refuse_if (is_subgraph item) (conditional_fan_out_targets_subgraph source target)

  unfoldable pub check_fan_out_target : NodeId → NodeId → Checked
  unfolding check_fan_out_item
  check_fan_out_target source target = do
    refuse_if (is_start target) (start_has_incoming source)
    if is_end target then ok tt else check_fan_out_item source target (get target items)

  unfoldable pub check_source :
      NodeId → GraphCompileError → GraphCompileError → GraphCompileError → Checked
  check_source source start_error end_error unknown_source = do
    refuse_if (is_start source) start_error
    refuse_if (is_end source) end_error
    refuse_if (unknown source) unknown_source

  unfoldable pub check_conditional : ConditionalEdge S E → Checked
  unfolding check_source check_target each_target
  check_conditional edge =
      check_source edge.source start_has_conditional_edge end_has_conditional_edge
        (unknown_conditional_source edge.source)
      >> each_target (check_target edge.source unknown_conditional_target) edge.allowed_targets

  unfoldable pub check_fan_out : FanOutEdge → Checked
  unfolding check_source check_target each_target
  check_fan_out edge =
      check_source edge.source start_has_fan_out end_has_fan_out
        (unknown_fan_out_source edge.source)
      >> each_target (check_target edge.source unknown_fan_out_target) edge.targets

  unfoldable pub check_conditional_fan_out : ConditionalFanOutEdge S E → Checked
  unfolding check_source check_fan_out_target each_target
  check_conditional_fan_out edge =
      check_source edge.source start_has_conditional_fan_out end_has_conditional_fan_out
        (unknown_conditional_fan_out_source edge.source)
      >> each_target (check_fan_out_target edge.source) edge.allowed_targets

-- The loop over the edges of a kind: each is checked, then inserted under its source.
unfoldable pub aggregate_each :
    {A : Type 0}
    → (A → Checked)
    → (A → NodeId)
    → List A
    → Map NodeId A
    → Result (Map NodeId A) GraphCompileError
aggregate_each check source_of [] m = ok m
aggregate_each check source_of (edge ∷ rest) m =
    check edge >> aggregate_each check source_of rest (insert (source_of edge) edge m)

module _ {S E N : Type 0} (items : Map NodeId (DeclaredItem S E N)) where
  unfoldable pub aggregate_conditional :
      List (ConditionalEdge S E)
      → Map NodeId (ConditionalEdge S E)
      → Result (Map NodeId (ConditionalEdge S E)) GraphCompileError
  unfolding check_conditional aggregate_each
  aggregate_conditional = aggregate_each (check_conditional items) (λ e. e.source)

  unfoldable pub aggregate_fan_out :
      List FanOutEdge → Map NodeId FanOutEdge → Result (Map NodeId FanOutEdge) GraphCompileError
  unfolding check_fan_out aggregate_each
  aggregate_fan_out = aggregate_each (check_fan_out items) (λ e. e.source)

  unfoldable pub aggregate_conditional_fan_out :
      List (ConditionalFanOutEdge S E)
      → Map NodeId (ConditionalFanOutEdge S E)
      → Result (Map NodeId (ConditionalFanOutEdge S E)) GraphCompileError
  unfolding check_conditional_fan_out aggregate_each
  aggregate_conditional_fan_out = aggregate_each (check_conditional_fan_out items) (λ e. e.source)

module _ {S E N : Type 0} where
  unfoldable pub aggregate_edges : StateGraph S E N → Result (EdgeAggregation S E) GraphCompileError
  aggregate_edges graph = aggregate_fixed graph.items graph.fixed_edges [] >>= λ fixed.
      aggregate_conditional graph.items graph.conditional_edges [] >>= λ conditional.
      aggregate_fan_out graph.items graph.fan_out_edges [] >>= λ fan_out.
      aggregate_conditional_fan_out graph.items graph.conditional_fan_out_edges []
      >>= λ conditional_fan_out. ok (record {
        fixed_by_source = fixed;
        fan_out_by_source = fan_out;
        conditional_by_source = conditional;
        conditional_fan_out_by_source = conditional_fan_out;
      })

-- `map(|outgoing| outgoing.count).unwrap_or(0)`.
abbrev pub outgoing_count : Option FixedOutgoing → ℕ
outgoing_count none = 0
outgoing_count (some outgoing) = outgoing.count

-- `usize::from`.
abbrev pub usize_from : Bool → ℕ
usize_from true = 1
usize_from false = 0

module _ {S E : Type 0} (edges : EdgeAggregation S E) where
  unfoldable pub kind_count : NodeId → ℕ
  kind_count item_id =
      usize_from (nat_beq (outgoing_count (get item_id edges.fixed_by_source)) 1)
      + usize_from (contains_key item_id edges.fan_out_by_source)
      + usize_from (contains_key item_id edges.conditional_by_source)
      + usize_from (contains_key item_id edges.conditional_fan_out_by_source)

  unfoldable pub check_start : ℕ → Checked
  check_start count =
      if nat_beq count 0
      then err missing_start_edge
      else if nat_beq count 1
      then ok tt
      else err (multiple_start_edges count)

  unfoldable pub check_shape : NodeId → Checked
  unfolding kind_count
  check_shape item_id =
      let fixed_count = outgoing_count (get item_id edges.fixed_by_source) in
      refuse_if (ltb 1 fixed_count) (multiple_outgoing_edges item_id fixed_count)
      >> refuse_if (ltb 1 (kind_count item_id)) (mixed_outgoing_edge_kinds item_id)

  unfoldable pub check_shapes : List NodeId → Checked
  unfolding check_shape
  check_shapes [] = ok tt
  check_shapes (item_id ∷ rest) = check_shape item_id >> check_shapes rest

  -- The argument is the list of the items' keys.
  unfoldable pub validate_edge_shapes : List NodeId → Checked
  unfolding check_start check_shapes
  validate_edge_shapes item_ids =
      check_start (outgoing_count (get start edges.fixed_by_source)) >> check_shapes item_ids
