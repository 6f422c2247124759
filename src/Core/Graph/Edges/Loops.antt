-- ===== src/Core/Graph/Edges/Loops.antt =====
-- The loops of `aggregate_edges` and `validate_edge_shapes` in
-- crates/group-agent-core/src/graph.rs: when they succeed, and what they collect.
use group.Prelude.{
  All, Map, get, insert, contains_key, get-insert, ==_iff, nat_eq, string_eq, bool_eq, option_eq,
  list_eq, Result, Result-cases, ok, err, ◌+◌, ◌≤◌, ◌≡◌, refl, ◌↔◌, inl, inr, Bool, true, false,
  ◌||◌, List, [], ◌∷◌, arith,
}
use group.Core.Path.{NodeId, start}
use group.Core.Graph.{GraphCompileError, FixedEdge, DeclaredItem, has_source}
use group.Core.Graph.Edges.{
  Checked, EdgeAggregation, FixedOutgoing, aggregate_each, aggregate_fixed, check_fixed,
  count_outgoing, outgoing_count, kind_count, check_start, check_shape, check_shapes,
  validate_edge_shapes,
}
use group.Core.Graph.Edges.Shape.{IsFixedEdge, count_from}
use group.Core.Graph.Edges.Checks.{check_fixed_iff}

abbrev pub is_accepted {ℓ} : {A : Type ℓ} → Result A GraphCompileError → Bool
is_accepted (ok a) = true
is_accepted (err e) = false

module _ {A : Type 0} (check : A → Checked) (source_of : A → NodeId) where
  pub aggregate_each_iff :
      (es : List A) (m : Map NodeId A)
      → (is_accepted (aggregate_each check source_of es m) ≡ true) ↔ All (λ e. check e ≡ ok tt) es
  unfolding aggregate_each
  aggregate_each_iff [] m = (λ h. tt, λ h. refl)
  aggregate_each_iff (e ∷ es) m =
      let ih = aggregate_each_iff es (insert (source_of e) e m) in
      elim (Result-cases (check e)) [
        | inl (u, f) ↦
            (λ h. (f, ih.0 (rw (f, aggregate_each) at h)), λ h. rw (f, aggregate_each) (ih.1 (h.1)))
        | inr (reason, f) ↦ (λ h. absurd (ground arith), λ h. cc (f, h.0))
      ]

  pub aggregate_each-contains_key :
      (id : NodeId) (es : List A) (m m' : Map NodeId A)
      → aggregate_each check source_of es m ≡ ok m'
      → contains_key id m' ≡ (contains_key id m || has_source source_of id es)
  unfolding aggregate_each
  aggregate_each-contains_key id [] m m' h = ground arith
  aggregate_each-contains_key id (e ∷ es) m m' h = ground (
    arith,
    get-insert (source_of e) id e m,
    aggregate_each-contains_key id es (insert (source_of e) e m) m',
  )

module _ {S E N : Type 0} (items : Map NodeId (DeclaredItem S E N)) where
  pub aggregate_fixed_iff :
      (es : List FixedEdge) (m : Map NodeId FixedOutgoing)
      → (is_accepted (aggregate_fixed items es m) ≡ true) ↔ All (IsFixedEdge items) es
  unfolding aggregate_fixed
  aggregate_fixed_iff [] m = (λ h. tt, λ h. refl)
  aggregate_fixed_iff (e ∷ es) m =
      let ih = aggregate_fixed_iff es (insert e.from (count_outgoing e.to (get e.from m)) m) in
      elim (Result-cases (check_fixed items e)) [
        | inl (u, f) ↦ (
          λ h. ((check_fixed_iff items e).0 f, ih.0 (rw (f, aggregate_fixed) at h)),
          λ h. rw (f, aggregate_fixed) (ih.1 (h.1)),
        )
        | inr (reason, f) ↦
            (λ h. absurd (ground arith), λ h. cc (f, (check_fixed_iff items e).1 (h.0)))
      ]

  pub aggregate_fixed-outgoing_count :
      (id : NodeId) (es : List FixedEdge) (m m' : Map NodeId FixedOutgoing)
      → aggregate_fixed items es m ≡ ok m'
      → outgoing_count (get id m') ≡ outgoing_count (get id m) + count_from id es
  unfolding aggregate_fixed count_from
  aggregate_fixed-outgoing_count id [] m m' h = ground arith
  aggregate_fixed-outgoing_count id (e ∷ es) m m' h =
      let next = insert e.from (count_outgoing e.to (get e.from m)) m in
      ground (
        arith,
        ==_iff e.from id,
        get-insert e.from id (count_outgoing e.to (get e.from m)) m,
        aggregate_fixed-outgoing_count id es next m',
      )

module _ {S E : Type 0} (edges : EdgeAggregation S E) where
  -- At most one fixed edge, and one kind of transition.
  abbrev pub IsSingle : NodeId → Type 0
  IsSingle id = (outgoing_count (get id edges.fixed_by_source) ≤ 1) × (kind_count edges id ≤ 1)

  check_shape_iff : (id : NodeId) → (check_shape edges id ≡ ok tt) ↔ IsSingle id
  unfolding check_shape
  check_shape_iff id = ground arith

  check_shapes_iff : (ids : List NodeId) → (check_shapes edges ids ≡ ok tt) ↔ All IsSingle ids
  unfolding check_shapes
  check_shapes_iff [] = (λ h. tt, λ h. refl)
  check_shapes_iff (id ∷ ids) =
      let here = check_shape_iff id in
      let rest = check_shapes_iff ids in
      (
        λ h. (here.0 (ground arith), rest.0 (ground arith)),
        λ h. let f = here.1 (h.0) in let g = rest.1 (h.1) in ground arith,
      )

  pub validate_edge_shapes_iff :
      (ids : List NodeId)
      → (validate_edge_shapes edges ids ≡ ok tt)
        ↔ ((outgoing_count (get start edges.fixed_by_source) ≡ 1) × All IsSingle ids)
  unfolding validate_edge_shapes check_start
  validate_edge_shapes_iff ids =
      let rest = check_shapes_iff ids in
      (
        λ h. (ground arith, rest.0 (ground arith)),
        λ h. let g = rest.1 (h.1) in let one = h.0 in ground arith,
      )
