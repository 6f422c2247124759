-- ===== src/Core/Graph/Edges/Accepted.antt =====
-- `aggregate_edges` and `validate_edge_shapes` of crates/group-agent-core/src/graph.rs against the
-- declared edges.
use group.Prelude.{
  All, All-map, Map, get, nat_eq, string_eq, bool_eq, option_eq, list_eq, Result, ◌>>=◌, >>=-eq-ok,
  ok, err, ◌≤◌, ◌≡◌, refl, sym, ap, ◌∙◌, ◌↔◌, true, [], ◌∷◌, map, arith,
}
use group.Core.Path.{NodeId, start}
use group.Core.Graph.{StateGraph, GraphCompileError}
use group.Core.Graph.Edges.{
  EdgeAggregation, aggregate_edges, aggregate_conditional, aggregate_fan_out,
  aggregate_conditional_fan_out, outgoing_count, kind_count, validate_edge_shapes, check_fan_out,
  check_conditional, check_conditional_fan_out,
}
use group.Core.Graph.Edges.Parts.{Parts, aggregate_edges-Parts}
use group.Core.Graph.Edges.Shape.{
  IsFanOut, IsConditional, IsConditionalFanOut, count_from, transition_count, IsWellShaped,
}
use group.Core.Graph.Edges.Checks.{
  check_conditional_iff, check_fan_out_iff, check_conditional_fan_out_iff,
}
use group.Core.Graph.Edges.Loops.{
  is_accepted, aggregate_each_iff, aggregate_each-contains_key, aggregate_fixed_iff,
  aggregate_fixed-outgoing_count, IsSingle, validate_edge_shapes_iff,
}

accepted-ok :
    {A : Type 0} (r : Result A GraphCompileError) → is_accepted r ≡ true → (a : A) × (r ≡ ok a)
accepted-ok (ok a) h = (a, refl)
accepted-ok (err e) h = cc

module _ {S E N : Type 0} (graph : StateGraph S E N) where
  -- The two checks, as `compile` runs them.
  abbrev pub check_edges : Result (Unit {0}) GraphCompileError
  check_edges =
      aggregate_edges graph >>= λ edges. validate_edge_shapes edges (map (λ x. x.0) graph.items)

  aggregate_conditional_iff :
      (is_accepted (aggregate_conditional graph.items graph.conditional_edges []) ≡ true)
      ↔ All (IsConditional graph.items) graph.conditional_edges
  unfolding aggregate_conditional
  aggregate_conditional_iff =
      let check = check_conditional graph.items in
      let loop = aggregate_each_iff check (λ e. e.source) graph.conditional_edges [] in
      (
        λ h. All-map _ _ (λ e. (check_conditional_iff graph.items e).0) _ (loop.0 h),
        λ a. loop.1 (All-map _ _ (λ e. (check_conditional_iff graph.items e).1) _ a),
      )

  aggregate_fan_out_iff :
      (is_accepted (aggregate_fan_out graph.items graph.fan_out_edges []) ≡ true)
      ↔ All (IsFanOut graph.items) graph.fan_out_edges
  unfolding aggregate_fan_out
  aggregate_fan_out_iff =
      let check = check_fan_out graph.items in
      let loop = aggregate_each_iff check (λ e. e.source) graph.fan_out_edges [] in
      (
        λ h. All-map _ _ (λ e. (check_fan_out_iff graph.items e).0) _ (loop.0 h),
        λ a. loop.1 (All-map _ _ (λ e. (check_fan_out_iff graph.items e).1) _ a),
      )

  aggregate_conditional_fan_out_iff :
      (is_accepted (aggregate_conditional_fan_out graph.items graph.conditional_fan_out_edges [])
        ≡ true)
      ↔ All (IsConditionalFanOut graph.items) graph.conditional_fan_out_edges
  unfolding aggregate_conditional_fan_out
  aggregate_conditional_fan_out_iff =
      let check = check_conditional_fan_out graph.items in
      let loop = aggregate_each_iff check (λ e. e.source) graph.conditional_fan_out_edges [] in
      (
        λ h. All-map _ _ (λ e. (check_conditional_fan_out_iff graph.items e).0) _ (loop.0 h),
        λ a. loop.1 (All-map _ _ (λ e. (check_conditional_fan_out_iff graph.items e).1) _ a),
      )

  module _ (edges : EdgeAggregation S E) (parts : Parts graph edges) where
    -- The maps have the sources that the edges have.
    count-parts :
        (id : NodeId)
        → outgoing_count (get id edges.fixed_by_source) ≡ count_from id graph.fixed_edges
    unfolding get
    count-parts id = omega (
      arith,
      aggregate_fixed-outgoing_count graph.items id graph.fixed_edges [] edges.fixed_by_source
          parts.fixed,
    )

    IsSingle-transition_count : (id : NodeId) → IsSingle edges id ↔ (transition_count graph id ≤ 1)
    unfolding kind_count transition_count aggregate_conditional aggregate_fan_out
        aggregate_conditional_fan_out get
    IsSingle-transition_count id = ground (
      arith,
      count-parts id,
      aggregate_each-contains_key (check_fan_out graph.items) (λ e. e.source) id graph.fan_out_edges
          [] edges.fan_out_by_source parts.fan_out,
      aggregate_each-contains_key (check_conditional graph.items) (λ e. e.source) id
          graph.conditional_edges [] edges.conditional_by_source parts.conditional,
      aggregate_each-contains_key (check_conditional_fan_out graph.items) (λ e. e.source) id
          graph.conditional_fan_out_edges [] edges.conditional_fan_out_by_source
          parts.conditional_fan_out,
    )

    All-IsSingle :
        {A : Type 0} (items : Map NodeId A)
        → All (IsSingle edges) (map (λ x. x.0) items)
          ↔ All (λ x. transition_count graph x.0 ≤ 1) items
    All-IsSingle [] = (λ h. tt, λ h. tt)
    All-IsSingle (x ∷ items) =
        let ih = All-IsSingle items in
        (
          λ h. ((IsSingle-transition_count x.0).0 (h.0), ih.0 (h.1)),
          λ h. ((IsSingle-transition_count x.0).1 (h.0), ih.1 (h.1)),
        )

    shapes_iff : (validate_edge_shapes edges (map (λ x. x.0) graph.items) ≡ ok tt) ↔ (
        (count_from start graph.fixed_edges ≡ 1)
        × All (λ x. transition_count graph x.0 ≤ 1) graph.items)
    shapes_iff =
        let shape = validate_edge_shapes_iff edges (map (λ x. x.0) graph.items) in
        let single = All-IsSingle graph.items in
        (
          λ h. let (one, all) = shape.0 h in (sym (count-parts start) ∙ one, single.0 all),
          λ (one, all). shape.1 (count-parts start ∙ one, single.1 all),
        )

  check_edges-IsWellShaped : check_edges ≡ ok tt → IsWellShaped graph
  check_edges-IsWellShaped h =
      let (edges, e, shape) =
        >>=-eq-ok (aggregate_edges graph)
          (λ edges. validate_edge_shapes edges (map (λ x. x.0) graph.items)) h in
      let parts = aggregate_edges-Parts graph edges e in
      let (one, single) = (shapes_iff edges parts).0 shape in
      record {
        fixed =
            (aggregate_fixed_iff graph.items graph.fixed_edges []).0 (ap is_accepted parts.fixed);
        conditional = aggregate_conditional_iff.0 (ap is_accepted parts.conditional);
        fan_out = aggregate_fan_out_iff.0 (ap is_accepted parts.fan_out);
        conditional_fan_out =
            aggregate_conditional_fan_out_iff.0 (ap is_accepted parts.conditional_fan_out);
        entry = one;
        single = single;
      }

  Parts-aggregate_edges :
      (edges : EdgeAggregation S E) → Parts graph edges → aggregate_edges graph ≡ ok edges
  unfolding aggregate_edges
  Parts-aggregate_edges edges parts =
      ground (arith, parts.fixed, parts.conditional, parts.fan_out, parts.conditional_fan_out)

  IsWellShaped-check_edges : IsWellShaped graph → check_edges ≡ ok tt
  IsWellShaped-check_edges w =
      let (f, fixed) =
        accepted-ok _ ((aggregate_fixed_iff graph.items graph.fixed_edges []).1 w.fixed) in
      let (c, conditional) = accepted-ok _ (aggregate_conditional_iff.1 w.conditional) in
      let (o, fan_out) = accepted-ok _ (aggregate_fan_out_iff.1 w.fan_out) in
      let (m, conditional_fan_out) =
        accepted-ok _ (aggregate_conditional_fan_out_iff.1 w.conditional_fan_out) in
      let edges : EdgeAggregation S E = record {
        fixed_by_source = f;
        fan_out_by_source = o;
        conditional_by_source = c;
        conditional_fan_out_by_source = m;
      } in
      let parts : Parts graph edges = record {
        fixed = fixed;
        conditional = conditional;
        fan_out = fan_out;
        conditional_fan_out = conditional_fan_out;
      } in
      rw (Parts-aggregate_edges edges parts) ((shapes_iff edges parts).1 (w.entry, w.single))

  -- The edges pass the two checks exactly when every edge is well placed (its ends are items, or
  -- `START` before and `END` after, with no mount as the target of a conditional fan-out and no
  -- `START` as the source of several targets), `START` has exactly one edge, and each item has at
  -- most one transition.
  pub check_edges_iff : (check_edges ≡ ok tt) ↔ IsWellShaped graph
  check_edges_iff = (check_edges-IsWellShaped, IsWellShaped-check_edges)
