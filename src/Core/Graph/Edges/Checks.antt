-- ===== src/Core/Graph/Edges/Checks.antt =====
-- The checks of `aggregate_edges` in crates/group-agent-core/src/graph.rs, edge by edge.
use group.Prelude.{
  All, Map, nat_eq, string_eq, bool_eq, option_eq, list_eq, ◌>>◌, ok, err, ◌≡◌, refl, ◌↔◌, List, [],
  ◌∷◌, arith,
}
use group.Core.Path.{NodeId, is_reserved}
use group.Core.Graph.{
  GraphCompileError, FixedEdge, FanOutEdge, ConditionalEdge, ConditionalFanOutEdge, DeclaredItem,
  start_has_conditional_edge, end_has_conditional_edge, unknown_conditional_source,
  unknown_conditional_target, start_has_fan_out, end_has_fan_out, unknown_fan_out_source,
  unknown_fan_out_target, start_has_conditional_fan_out, end_has_conditional_fan_out,
  unknown_conditional_fan_out_source,
}
use group.Core.Graph.Edges.{
  Checked, each_target, check_endpoint, check_fixed, check_target, check_fan_out_item,
  check_fan_out_target, check_source, check_conditional, check_fan_out, check_conditional_fan_out,
}
use group.Core.Graph.Edges.Shape.{
  IsTarget, IsSource, IsNodeTarget, IsFixedEdge, IsFanOut, IsConditional, IsConditionalFanOut,
}

each_target_iff :
    (check : NodeId → Checked) (P : NodeId → Type 0)
    → ((t : NodeId) → (check t ≡ ok tt) ↔ P t)
    → (ts : List NodeId) → (each_target check ts ≡ ok tt) ↔ All P ts
unfolding each_target
each_target_iff check P same [] = (λ h. tt, λ h. refl)
each_target_iff check P same (t ∷ ts) =
    let ih = each_target_iff check P same ts in
    (
      λ h. ((same t).0 (ground arith), ih.0 (ground arith)),
      λ h. let here = (same t).1 (h.0) in let rest = ih.1 (h.1) in ground arith,
    )

>>-ok : (a b : Checked) → ((a >> b) ≡ ok tt) ↔ ((a ≡ ok tt) × (b ≡ ok tt))
>>-ok (ok u) b = (λ h. (refl, h), λ h. h.1)
>>-ok (err e) b = ground arith

both :
    (a b : Checked) (P Q : Type 0)
    → (a ≡ ok tt) ↔ P
    → (b ≡ ok tt) ↔ Q
    → ((a >> b) ≡ ok tt) ↔ (P × Q)
both a b P Q f g =
    (λ h. let (x, y) = (>>-ok a b).0 h in (f.0 x, g.0 y), λ h. (>>-ok a b).1 (f.1 (h.0), g.1 (h.1)))

module _ {S E N : Type 0} (items : Map NodeId (DeclaredItem S E N)) where
  check_target_iff :
      (source : NodeId) (unknown_target : NodeId → NodeId → GraphCompileError) (t : NodeId)
      → (check_target items source unknown_target t ≡ ok tt) ↔ IsTarget items t
  unfolding check_target
  check_target_iff source unknown_target t = ground arith

  check_fan_out_target_iff :
      (source t : NodeId) → (check_fan_out_target items source t ≡ ok tt) ↔ IsNodeTarget items t
  unfolding check_fan_out_target check_fan_out_item
  check_fan_out_target_iff source t = ground arith

  check_source_iff :
      (source : NodeId) (a b c : GraphCompileError)
      → (check_source items source a b c ≡ ok tt) ↔ IsSource items source
  unfolding check_source
  check_source_iff source a b c = ground arith

  pub check_fixed_iff : (e : FixedEdge) → (check_fixed items e ≡ ok tt) ↔ IsFixedEdge items e
  unfolding check_fixed check_endpoint is_reserved
  check_fixed_iff e = ground arith

  pub check_conditional_iff :
      (e : ConditionalEdge S E) → (check_conditional items e ≡ ok tt) ↔ IsConditional items e
  unfolding check_conditional
  check_conditional_iff e =
      both _ _ _ _
        (check_source_iff e.source start_has_conditional_edge end_has_conditional_edge
          (unknown_conditional_source e.source))
        (each_target_iff (check_target items e.source unknown_conditional_target) (IsTarget items)
          (check_target_iff e.source unknown_conditional_target) e.allowed_targets)

  pub check_fan_out_iff : (e : FanOutEdge) → (check_fan_out items e ≡ ok tt) ↔ IsFanOut items e
  unfolding check_fan_out
  check_fan_out_iff e =
      both _ _ _ _
        (check_source_iff e.source start_has_fan_out end_has_fan_out
          (unknown_fan_out_source e.source))
        (each_target_iff (check_target items e.source unknown_fan_out_target) (IsTarget items)
          (check_target_iff e.source unknown_fan_out_target) e.targets)

  pub check_conditional_fan_out_iff :
      (e : ConditionalFanOutEdge S E)
      → (check_conditional_fan_out items e ≡ ok tt) ↔ IsConditionalFanOut items e
  unfolding check_conditional_fan_out
  check_conditional_fan_out_iff e =
      both _ _ _ _
        (check_source_iff e.source start_has_conditional_fan_out end_has_conditional_fan_out
          (unknown_conditional_fan_out_source e.source))
        (each_target_iff (check_fan_out_target items e.source) (IsNodeTarget items)
          (check_fan_out_target_iff e.source) e.allowed_targets)
