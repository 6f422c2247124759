-- ===== src/Core/Graph/Frontiers/Steps.antt =====
-- The pairs that `validate_subgraph_frontiers` of crates/group-agent-core/src/graph.rs reaches are
-- those that can run in one step.
use Prim.Native.String.{compare}
use text.Mathlib.Text.{is_le}
use group.Prelude.{
  Bool-cases, Option-cases, Among, Among-nil, Among-cases, Among-append, Among-split, Among-map,
  Among-mapped, at_head, get, nat_eq, string_eq, bool_eq, option_eq, list_eq, contains, ◌≡◌, refl,
  sym, ap₂, ◌∙◌, subst, ◌⊎◌, inl, inr, false, List, [], ◌∷◌, ◌++◌, map,
}
use group.Core.Path.{NodeId, is_end}
use group.Core.Graph.{StateGraph}
use group.Core.Graph.Edges.{EdgeAggregation}
use group.Core.Graph.Frontiers.{
  executable_target, canonical_pair, without_end, distinct_from, transition_alternatives,
  next_frontiers, declared_frontiers,
}
use group.Core.Graph.Frontiers.Measure.{Pair}
use group.Core.Graph.Frontiers.Members.{
  Beside, Beside-swapped, among_executable, executable_among, among_distinct, distinct_among,
  parallel-Beside, Beside-parallel, among_joint, joint_among,
}
use group.Core.Graph.Frontiers.Reach.{Reached, declared, follows}
use group.Core.Graph.Frontiers.Concurrent.{
  Selects, by_edge, by_fan_out, by_selection, by_route, by_nothing, Concurrent, fanned, selected,
  continued,
}

module _ {S E N : Type 0} (graph : StateGraph S E N) (edges : EdgeAggregation S E) where
  alternative_selected :
      (source : NodeId) (found : List NodeId)
      → is_end source ≡ false
      → Among found (transition_alternatives source edges)
      → (targets : List NodeId) × Selects edges source targets × (found ≡ without_end targets)
  unfolding transition_alternatives without_end
  alternative_selected source found runs m =
      elim (Option-cases (get source edges.fixed_by_source)) [
        | inr (v, f) ↦ elim (Among-cases found _ [] (rw (runs, f, transition_alternatives) at m)) [
          | inl e ↦ (v.successor ∷ [], by_edge v f refl, e)
          | inr n ↦ absurd (Among-nil found n)
        ]
        | inl f ↦ elim (Option-cases (get source edges.fan_out_by_source)) [
          | inr (v, g) ↦
              elim (Among-cases found _ [] (rw (runs, f, g, transition_alternatives) at m)) [
                | inl e ↦ (v.targets, by_fan_out v f g refl, e)
                | inr n ↦ absurd (Among-nil found n)
              ]
          | inl g ↦ elim (Option-cases (get source edges.conditional_fan_out_by_source)) [
            | inr (v, h) ↦
                elim (Among-cases found _ [] (rw (runs, f, g, h, transition_alternatives) at m)) [
                  | inl e ↦ (v.allowed_targets, by_selection v f g h refl, e)
                  | inr n ↦ absurd (Among-nil found n)
                ]
            | inl h ↦ elim (Option-cases (get source edges.conditional_by_source)) [
              | inr (v, k) ↦
                  let (target, n, e) =
                    Among-mapped executable_target found v.allowed_targets
                      (rw (runs, f, g, h, k, transition_alternatives) at m) in
                  (target ∷ [], by_route v target f g h k n refl, e)
              | inl k ↦
                  elim (Among-cases found _ []
                    (rw (runs, f, g, h, k, transition_alternatives) at m)) [
                      | inl e ↦ ([], by_nothing f g h k refl, e)
                      | inr n ↦ absurd (Among-nil found n)
                    ]
            ]
          ]
        ]
      ]

  selected_alternative :
      (source : NodeId) (targets : List NodeId)
      → is_end source ≡ false
      → Selects edges source targets
      → Among (without_end targets) (transition_alternatives source edges)
  unfolding transition_alternatives without_end
  selected_alternative source targets runs (by_edge v f e) =
      rw (e, runs, f, transition_alternatives) (at_head _ [] refl)
  selected_alternative source targets runs (by_fan_out v f g e) =
      rw (e, runs, f, g, transition_alternatives) (at_head _ [] refl)
  selected_alternative source targets runs (by_selection v f g h e) =
      rw (e, runs, f, g, h, transition_alternatives) (at_head _ [] refl)
  selected_alternative source targets runs (by_route v target f g h k n e) =
      rw (e, runs, f, g, h, k, transition_alternatives)
        (Among-map executable_target target v.allowed_targets n)
  selected_alternative source targets runs (by_nothing f g h k e) =
      rw (e, runs, f, g, h, k, transition_alternatives) (at_head _ [] refl)

  Concurrent-Beside :
      (a b : NodeId) → Concurrent graph edges a b → (is_end a ≡ false) × (is_end b ≡ false)
  Concurrent-Beside _ _ (fanned a b edge m h) = (h.first_runs, h.second_runs)
  Concurrent-Beside _ _ (selected a b edge m h) = (h.first_runs, h.second_runs)
  Concurrent-Beside _ _ (continued l r a b ls rs c p q h) = (h.first_runs, h.second_runs)

  pub Concurrent-swapped : (a b : NodeId) → Concurrent graph edges a b → Concurrent graph edges b a
  Concurrent-swapped _ _ (fanned a b edge m h) = fanned b a edge m (Beside-swapped a b _ h)
  Concurrent-swapped _ _ (selected a b edge m h) = selected b a edge m (Beside-swapped a b _ h)
  Concurrent-swapped _ _ (continued l r a b ls rs c p q h) =
      continued l r b a ls rs c p q (Beside-swapped a b _ h)

  -- Of a frontier of two alternatives, and of the targets that they come from.
  joint_Among :
      (x : NodeId) (ls rs : List NodeId)
      → Among x (distinct_from [] (without_end ls ++ without_end rs))
      → Among x (ls ++ rs)
  joint_Among x ls rs m =
      let (n, _) = distinct_among x [] (without_end ls ++ without_end rs) m in
      Among-append x ls rs (elim (Among-split x (without_end ls) (without_end rs) n) [
        | inl l ↦ inl (executable_among x ls l).0
        | inr r ↦ inr (executable_among x rs r).0
      ])

  Among-joint :
      (x : NodeId) (ls rs : List NodeId)
      → is_end x ≡ false
      → Among x (ls ++ rs)
      → Among x (distinct_from [] (without_end ls ++ without_end rs))
  unfolding contains
  Among-joint x ls rs runs m = among_distinct x [] (without_end ls ++ without_end rs) refl (
      Among-append x (without_end ls) (without_end rs) (elim (Among-split x ls rs m) [
        | inl l ↦ inl (among_executable x ls runs l)
        | inr r ↦ inr (among_executable x rs runs r)
      ]))

  canonical-cases : (a b : NodeId) → (canonical_pair a b ≡ (a, b)) ⊎ (canonical_pair a b ≡ (b, a))
  unfolding canonical_pair
  canonical-cases a b = elim (Bool-cases (is_le (compare a b))) [
    | inl e ↦ inl (rw e refl)
    | inr e ↦ inr (rw e refl)
  ]

  -- A frontier that follows two concurrent nodes has only concurrent nodes in it.
  next-Concurrent :
      (left right : NodeId) (frontier : List NodeId) (a b : NodeId)
      → Concurrent graph edges left right
      → Among frontier (next_frontiers graph edges (left, right))
      → Beside a b frontier
      → Concurrent graph edges a b
  unfolding next_frontiers
  next-Concurrent left right frontier a b c m h =
      let (runs, runs') = Concurrent-Beside left right c in
      let (l, r, n, o, e) =
        joint_among frontier (transition_alternatives left edges)
          (transition_alternatives right edges) m in
      let (ls, p, same) = alternative_selected left l runs n in
      let (rs, q, same') = alternative_selected right r runs' o in
      let whole : frontier ≡ distinct_from [] (without_end ls ++ without_end rs) =
        e ∙ ap₂ (λ x y. distinct_from [] (x ++ y)) same same' in
      continued left right a b ls rs c p q (record {
        first = joint_Among a ls rs (subst (Among a) whole h.first);
        second = joint_Among b ls rs (subst (Among b) whole h.second);
        apart = h.apart;
        first_runs = h.first_runs;
        second_runs = h.second_runs;
      })

  pub Reached-Concurrent : (p : Pair) → Reached graph edges p → Concurrent graph edges p.0 p.1
  Reached-Concurrent _ (declared f p m n) =
      elim (Among-split f (map (λ e. e.targets) graph.fan_out_edges)
        (map (λ e. e.allowed_targets) graph.conditional_fan_out_edges) m) [
          | inl l ↦
              let (edge, k, same) = Among-mapped (λ e. e.targets) f graph.fan_out_edges l in
              fanned p.0 p.1 edge k (subst (Beside p.0 p.1) same (parallel-Beside p.0 p.1 f n))
          | inr r ↦
              let (edge, k, same) =
                Among-mapped (λ e. e.allowed_targets) f graph.conditional_fan_out_edges r in
              selected p.0 p.1 edge k (subst (Beside p.0 p.1) same (parallel-Beside p.0 p.1 f n))
        ]
  Reached-Concurrent _ (follows q f p r m n) =
      let c = Reached-Concurrent q r in
      elim (canonical-cases q.0 q.1) [
        | inl e ↦
            next-Concurrent q.0 q.1 f p.0 p.1 c
              (subst (λ x. Among f (next_frontiers graph edges x)) e m)
              (parallel-Beside p.0 p.1 f n)
        | inr e ↦
            next-Concurrent q.1 q.0 f p.0 p.1 (Concurrent-swapped q.0 q.1 c)
              (subst (λ x. Among f (next_frontiers graph edges x)) e m)
              (parallel-Beside p.0 p.1 f n)
      ]

  -- The pair is reached in one of its two orders.
  abbrev Either : NodeId → NodeId → Type 0
  Either a b = Reached graph edges (a, b) ⊎ Reached graph edges (b, a)

  declared-Either :
      (a b : NodeId) (frontier : List NodeId)
      → Among frontier (declared_frontiers graph edges)
      → Beside a b frontier
      → Either a b
  declared-Either a b frontier m h = elim (Beside-parallel a b frontier h) [
    | inl p ↦ inl (declared frontier (a, b) m p)
    | inr p ↦ inr (declared frontier (b, a) m p)
  ]

  next-Either :
      (q : Pair) (left right : NodeId) (ls rs : List NodeId) (a b : NodeId)
      → Reached graph edges q
      → canonical_pair q.0 q.1 ≡ (left, right)
      → (is_end left ≡ false) × (is_end right ≡ false)
      → Selects edges left ls
      → Selects edges right rs
      → Beside a b (ls ++ rs)
      → Either a b
  unfolding next_frontiers
  next-Either q left right ls rs a b r e (runs, runs') p p' h =
      let frontier = distinct_from [] (without_end ls ++ without_end rs) in
      let m : Among frontier (next_frontiers graph edges (canonical_pair q.0 q.1)) =
        subst (λ x. Among frontier (next_frontiers graph edges x)) (sym e)
          (among_joint (without_end ls) (without_end rs) (transition_alternatives left edges)
            (transition_alternatives right edges) (selected_alternative left ls runs p)
            (selected_alternative right rs runs' p')) in
      let beside : Beside a b frontier = record {
        first = Among-joint a ls rs h.first_runs h.first;
        second = Among-joint b ls rs h.second_runs h.second;
        apart = h.apart;
        first_runs = h.first_runs;
        second_runs = h.second_runs;
      } in
      elim (Beside-parallel a b frontier beside) [
        | inl n ↦ inl (follows q frontier (a, b) r m n)
        | inr n ↦ inr (follows q frontier (b, a) r m n)
      ]

  Beside-turned :
      (a b : NodeId) (ls rs : List NodeId) → Beside a b (ls ++ rs) → Beside a b (rs ++ ls)
  Beside-turned a b ls rs h = record {
    first = turned a h.first;
    second = turned b h.second;
    apart = h.apart;
    first_runs = h.first_runs;
    second_runs = h.second_runs;
  }
    where
      turned : (x : NodeId) → Among x (ls ++ rs) → Among x (rs ++ ls)
      turned x m =
          Among-append x rs ls (elim (Among-split x ls rs m) [ inl l ↦ inr l | inr r ↦ inl r ])

  pub Concurrent-Reached : (a b : NodeId) → Concurrent graph edges a b → Either a b
  Concurrent-Reached _ _ (fanned a b edge m h) =
      declared-Either a b edge.targets
        (Among-append edge.targets (map (λ e. e.targets) graph.fan_out_edges) _
          (inl (Among-map (λ e. e.targets) edge graph.fan_out_edges m)))
        h
  Concurrent-Reached _ _ (selected a b edge m h) =
      declared-Either a b edge.allowed_targets
        (Among-append edge.allowed_targets (map (λ e. e.targets) graph.fan_out_edges) _
          (inr (Among-map (λ e. e.allowed_targets) edge graph.conditional_fan_out_edges m)))
        h
  Concurrent-Reached _ _ (continued l r a b ls rs c p q h) =
      let runs = Concurrent-Beside l r c in
      elim (Concurrent-Reached l r c) [
        | inl k ↦ elim (canonical-cases l r) [
          | inl e ↦ next-Either (l, r) l r ls rs a b k e runs p q h
          | inr e ↦
              next-Either (l, r) r l rs ls a b k e (runs.1, runs.0) q p (Beside-turned a b ls rs h)
        ]
        | inr k ↦ elim (canonical-cases r l) [
          | inl e ↦
              next-Either (r, l) r l rs ls a b k e (runs.1, runs.0) q p (Beside-turned a b ls rs h)
          | inr e ↦ next-Either (r, l) l r ls rs a b k e runs p q h
        ]
      ]
