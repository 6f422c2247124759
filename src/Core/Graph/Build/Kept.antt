-- ===== src/Core/Graph/Build/Kept.antt =====
-- What the methods of `StateGraph` in crates/group-agent-core/src/graph.rs keep of the builder, one
-- call after another.
use group.Prelude.{
  Bool-cases, Option-cases, All-append, get, insert, nat_eq, string_eq, bool_eq, option_eq, list_eq,
  Result, ◌≡◌, inl, inr, false, none, List, [], ◌∷◌, map, map-append,
}
use group.Core.Path.{NodeId, is_reserved}
use group.Core.Graph.{
  StateGraph, DeclaredItem, empty, set_version, insert_node, add_subgraph, add_edge, add_fan_out,
  add_conditional_edges, add_conditional_fan_out, has_source, check_targets, declared_node,
  declared_subgraph, multiple_fan_out_transitions, empty_fan_out_targets, duplicate_fan_out_target,
  multiple_conditional_routers, empty_conditional_targets, duplicate_conditional_target,
  multiple_conditional_fan_out_routers, empty_conditional_fan_out_targets,
  duplicate_conditional_fan_out_target, FanOutEdge, ConditionalEdge, ConditionalFanOutEdge,
}
use group.Core.Graph.Build.Checked.{Distinct-concat, get-Absent, insert-new, AreEdges-add}
use group.Core.Graph.Build.{
  Call, node_call, subgraph_call, edge_call, fan_out_call, conditional_call,
  conditional_fan_out_call, version_call, apply, build, IsBuilt,
}

module _ {S E N : Type 0} where
  -- A new item under a free identifier.
  insert-IsBuilt :
      (id : NodeId) (item : DeclaredItem S E N) (graph : StateGraph S E N)
      → is_reserved id ≡ false
      → get id graph.items ≡ none
      → IsBuilt graph
      → IsBuilt (record graph { items = insert id item graph.items })
  insert-IsBuilt id item graph free new old =
      let grown = insert-new id item graph.items new in
      record {
        ids = rw grown (
            rw (map-append (λ x. x.0) graph.items ((id, item) ∷ [])) (
              Distinct-concat (map (λ x. x.0) graph.items) id old.ids
                (get-Absent id graph.items new)));
        free = rw grown (
            All-append (λ x. is_reserved x.0 ≡ false) graph.items ((id, item) ∷ []) old.free
              (free, tt));
        fan_outs = old.fan_outs;
        conditionals = old.conditionals;
        conditional_fan_outs = old.conditional_fan_outs;
      }

  add_fan_out-IsBuilt :
      (source : NodeId) (targets : List NodeId) (graph : StateGraph S E N)
      → IsBuilt graph
      → IsBuilt (add_fan_out source targets graph).1
  unfolding add_fan_out
  add_fan_out-IsBuilt source targets graph old =
      let known = has_source (λ e. e.source) source graph.fan_out_edges in
      let a = multiple_fan_out_transitions source in
      let b = empty_fan_out_targets source in
      let c = duplicate_fan_out_target source in
      elim (Option-cases (check_targets known targets a b c)) [
        | inr (reason, e) ↦ rw (e, add_fan_out) old
        | inl e ↦
            let edge : FanOutEdge = record { source = source; targets = targets } in
            rw (e, add_fan_out)
              (record {
                ids = old.ids;
                free = old.free;
                fan_outs =
                    AreEdges-add (λ x. x.source) (λ x. x.targets) edge graph.fan_out_edges a b c e
                      old.fan_outs;
                conditionals = old.conditionals;
                conditional_fan_outs = old.conditional_fan_outs;
              })
      ]

  add_conditional_edges-IsBuilt :
      (source : NodeId) (targets : List NodeId) (router : S → Result NodeId E)
      (graph : StateGraph S E N)
      → IsBuilt graph
      → IsBuilt (add_conditional_edges source targets router graph).1
  unfolding add_conditional_edges
  add_conditional_edges-IsBuilt source targets router graph old =
      let known = has_source (λ e. e.source) source graph.conditional_edges in
      let a = multiple_conditional_routers source in
      let b = empty_conditional_targets source in
      let c = duplicate_conditional_target source in
      elim (Option-cases (check_targets known targets a b c)) [
        | inr (reason, e) ↦ rw (e, add_conditional_edges) old
        | inl e ↦
            let edge : ConditionalEdge S E = record {
              source = source;
              allowed_targets = targets;
              router = router;
            } in
            rw (e, add_conditional_edges)
              (record {
                ids = old.ids;
                free = old.free;
                fan_outs = old.fan_outs;
                conditionals =
                    AreEdges-add (λ x. x.source) (λ x. x.allowed_targets) edge
                      graph.conditional_edges a b c e old.conditionals;
                conditional_fan_outs = old.conditional_fan_outs;
              })
      ]

  add_conditional_fan_out-IsBuilt :
      (source : NodeId) (targets : List NodeId) (router : S → Result (List NodeId) E)
      (graph : StateGraph S E N)
      → IsBuilt graph
      → IsBuilt (add_conditional_fan_out source targets router graph).1
  unfolding add_conditional_fan_out
  add_conditional_fan_out-IsBuilt source targets router graph old =
      let known = has_source (λ e. e.source) source graph.conditional_fan_out_edges in
      let a = multiple_conditional_fan_out_routers source in
      let b = empty_conditional_fan_out_targets source in
      let c = duplicate_conditional_fan_out_target source in
      elim (Option-cases (check_targets known targets a b c)) [
        | inr (reason, e) ↦ rw (e, add_conditional_fan_out) old
        | inl e ↦
            let edge : ConditionalFanOutEdge S E = record {
              source = source;
              allowed_targets = targets;
              router = router;
            } in
            rw (e, add_conditional_fan_out)
              (record {
                ids = old.ids;
                free = old.free;
                fan_outs = old.fan_outs;
                conditionals = old.conditionals;
                conditional_fan_outs =
                    AreEdges-add (λ x. x.source) (λ x. x.allowed_targets) edge
                      graph.conditional_fan_out_edges a b c e old.conditional_fan_outs;
              })
      ]

  apply-IsBuilt :
      (call : Call S E N) (graph : StateGraph S E N) → IsBuilt graph → IsBuilt (apply call graph).1
  unfolding apply insert_node add_subgraph add_edge set_version
  apply-IsBuilt (node_call id kind) graph old = elim (Bool-cases (is_reserved id)) [
    | inl e ↦ rw e old
    | inr e ↦ elim (Option-cases (get id graph.items)) [
      | inr (item, f) ↦ rw (e, f) old
      | inl f ↦ rw (e, f) (insert-IsBuilt id (declared_node kind) graph e f old)
    ]
  ]
  apply-IsBuilt (subgraph_call id child) graph old = elim (Bool-cases (is_reserved id)) [
    | inl e ↦ rw e old
    | inr e ↦ elim (Option-cases (get id graph.items)) [
      | inr (item, f) ↦ rw (e, f) old
      | inl f ↦ rw (e, f) (insert-IsBuilt id (declared_subgraph child) graph e f old)
    ]
  ]
  apply-IsBuilt (edge_call from to) graph old = record {
    ids = old.ids;
    free = old.free;
    fan_outs = old.fan_outs;
    conditionals = old.conditionals;
    conditional_fan_outs = old.conditional_fan_outs;
  }
  apply-IsBuilt (fan_out_call source targets) graph old =
      add_fan_out-IsBuilt source targets graph old
  apply-IsBuilt (conditional_call source targets router) graph old =
      add_conditional_edges-IsBuilt source targets router graph old
  apply-IsBuilt (conditional_fan_out_call source targets router) graph old =
      add_conditional_fan_out-IsBuilt source targets router graph old
  apply-IsBuilt (version_call version) graph old = record {
    ids = old.ids;
    free = old.free;
    fan_outs = old.fan_outs;
    conditionals = old.conditionals;
    conditional_fan_outs = old.conditional_fan_outs;
  }

  build_from-IsBuilt :
      (calls : List (Call S E N)) (graph : StateGraph S E N)
      → IsBuilt graph
      → IsBuilt (build calls graph)
  unfolding build
  build_from-IsBuilt [] graph old = old
  build_from-IsBuilt (call ∷ calls) graph old =
      build_from-IsBuilt calls (apply call graph).1 (apply-IsBuilt call graph old)

  empty-IsBuilt : IsBuilt {S = S} {E = E} {N = N} empty
  empty-IsBuilt = record {
    ids = tt;
    free = tt;
    fan_outs = record { sources = tt; targets = tt };
    conditionals = record { sources = tt; targets = tt };
    conditional_fan_outs = record { sources = tt; targets = tt };
  }

  -- After any sequence of calls on an empty builder, refused ones included: the items have distinct
  -- identifiers, none of them reserved; of each kind of edge with several targets, no two have the
  -- same source; and such an edge has at least one target, and none twice.
  pub build-IsBuilt : (calls : List (Call S E N)) → IsBuilt (build calls empty)
  build-IsBuilt calls = build_from-IsBuilt calls empty empty-IsBuilt
