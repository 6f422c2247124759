-- ===== src/Core/Transition/Mount.antt =====
-- A transition that `remap` of crates/group-agent-core/src/transition.rs moved into a parent graph
-- resolves as it did in the child.
use group.Prelude.{
  Option-cases, get_elem?, All, sort_by, All-sort_by, map-sort_by, Map, get, nat_eq, string_eq,
  bool_eq, option_eq, list_eq, Result, ok, err, ℕ, ◌+◌, ◌≡◌, refl, sym, ap, ap₂, ◌∙◌, subst, inl,
  inr, Option, none, some, List, [], ◌∷◌, map, map-append, arith,
}
use group.Core.Path.{NodeId, GraphPath, NodePath, graph_prefixed, node_prefixed}
use group.Core.Transition.{
  NodeIndex, CompiledTransition, fixed, static_fan_out, conditional, conditional_fan_out,
  TransitionError, resolve_into, resolve_single, resolve_multiple, finish_multiple, resolve_each,
  key_le, multiple, remap, remap_target, remap_indices, remap_allowed,
}
use group.Core.Transition.Remap.{
  Lands, resolve_each-Lands, remap_allowed-found, shift, shift_all, shift_target, shift_allowed,
  map_result, mounted, remap_target-shift, remap_indices-shift, remap_allowed-shift,
  get-shift_allowed, resolve_each-shift, key_le-shift, shift_all-extend, extend_all-shift,
  target_path-shift, target_paths-shift,
}

abbrev pub moved : {S E : Type 0} → ℕ → CompiledTransition S E → CompiledTransition S E
moved base (fixed t) = fixed (shift base t)
moved base (static_fan_out is) = static_fan_out (shift_all base is)
moved base (conditional route m) = conditional route (shift_allowed base m)
moved base (conditional_fan_out route m) = conditional_fan_out route (shift_allowed base m)

module _ {S E : Type 0} (base : ℕ) (mapping : List NodeIndex)
    (moves : (i j : NodeIndex) → get_elem? mapping i ≡ some j → j ≡ base + i) where
  pub remap-moved : (t t' : CompiledTransition S E) → remap mapping t ≡ some t' → t' ≡ moved base t
  unfolding remap
  remap-moved (fixed t) t' h = elim (Option-cases (remap_target mapping t)) [
    | inl e ↦ cc (rw e at h)
    | inr (u, e) ↦ ground (arith, remap_target-shift base mapping moves t u e)
  ]
  remap-moved (static_fan_out is) t' h = elim (Option-cases (remap_indices mapping is)) [
    | inl e ↦ cc (rw e at h)
    | inr (u, e) ↦ ground (arith, remap_indices-shift base mapping moves is u e)
  ]
  remap-moved (conditional route m) t' h = elim (Option-cases (remap_allowed mapping m)) [
    | inl e ↦ cc (rw e at h)
    | inr (u, e) ↦ ground (arith, remap_allowed-shift base mapping moves m u e)
  ]
  remap-moved (conditional_fan_out route m) t' h = elim (Option-cases (remap_allowed mapping m)) [
    | inl e ↦ cc (rw e at h)
    | inr (u, e) ↦ ground (arith, remap_allowed-shift base mapping moves m u e)
  ]

-- Every target of a map lands.
abbrev LandsAll :
    ℕ
    → GraphPath
    → (NodeIndex → NodePath)
    → (NodeIndex → NodePath)
    → Map NodeId (Option NodeIndex)
    → Type 0
LandsAll base prefix path_at path_at' m =
    (k : NodeId) (t : Option NodeIndex)
    → get k m ≡ some t
    → Lands base prefix path_at path_at' (t, k)

module _ {E : Type 0} (base : ℕ) (prefix : GraphPath) (path_at path_at' : NodeIndex → NodePath)
    (g : GraphPath) (targets : List NodeIndex) where
  single-moved :
      (m : Map NodeId (Option NodeIndex)) (r : Result NodeId E)
      → LandsAll base prefix path_at path_at' m
      → resolve_single
          (shift_allowed base m)
          (graph_prefixed g prefix)
          path_at'
          (shift_all base targets)
          r
        ≡ mounted base prefix (resolve_single m g path_at targets r)
  unfolding resolve_single
  single-moved m (err e) lands = refl
  single-moved m (ok id) lands = elim (Option-cases (get id m)) [
    | inl e ↦ ground (arith, get-shift_allowed base id m)
    | inr (t, e) ↦ ground (
      arith,
      get-shift_allowed base id m,
      target_path-shift base prefix path_at path_at' g (t, id) (lands id t e),
      shift_all-extend base targets t,
    )
  ]

  finish-moved :
      (r : Result (List (Option NodeIndex × NodeId)) (TransitionError E))
      → ((xs : List (Option NodeIndex × NodeId))
          → r ≡ ok xs
          → All (Lands base prefix path_at path_at') xs)
      → finish_multiple
          (graph_prefixed g prefix)
          path_at'
          (shift_all base targets)
          (map_result (map (shift_target base)) r)
        ≡ mounted base prefix (finish_multiple g path_at targets r)
  unfolding finish_multiple
  finish-moved (err e) lands = refl
  finish-moved (ok xs) lands =
      let sorted = sort_by key_le xs in
      let e : sort_by key_le (map (shift_target base) xs) ≡ map (shift_target base) sorted =
        sym (map-sort_by key_le key_le (shift_target base) (key_le-shift base) xs) in
      rw e (
        ap₂ (λ d l. (ok (some (multiple d)), l))
          (target_paths-shift base prefix path_at path_at' g sorted
            (All-sort_by key_le (Lands base prefix path_at path_at') xs (lands xs refl)))
          (extend_all-shift base targets sorted))

  multiple-moved :
      (m : Map NodeId (Option NodeIndex)) (r : Result (List NodeId) E)
      → LandsAll base prefix path_at path_at' m
      → resolve_multiple
          (shift_allowed base m)
          (graph_prefixed g prefix)
          path_at'
          (shift_all base targets)
          r
        ≡ mounted base prefix (resolve_multiple m g path_at targets r)
  unfolding resolve_multiple
  multiple-moved m (err e) lands = refl
  multiple-moved m (ok []) lands = refl
  multiple-moved m (ok (x ∷ ids)) lands =
      let move = resolve_each-shift {E = E} base m [] (x ∷ ids) in
      ap (finish_multiple (graph_prefixed g prefix) path_at' (shift_all base targets)) move
      ∙ finish-moved (resolve_each m [] (x ∷ ids))
          (resolve_each-Lands base prefix path_at path_at' m lands {E = E} [] (x ∷ ids))

-- A remapped map of targets lands wherever the mapping leads.
allowed_lands :
    (base : ℕ) (mapping : List NodeIndex) (prefix : GraphPath)
    (path_at path_at' : NodeIndex → NodePath) (m m' : Map NodeId (Option NodeIndex))
    → ((i j : NodeIndex) → get_elem? mapping i ≡ some j → j ≡ base + i)
    → ((i j : NodeIndex)
        → get_elem? mapping i ≡ some j
        → path_at' j ≡ node_prefixed (path_at i) prefix)
    → remap_allowed mapping m ≡ some m'
    → LandsAll base prefix path_at path_at' m
allowed_lands base mapping prefix p p' m m' moves paths h k none found = tt
allowed_lands base mapping prefix p p' m m' moves paths h k (some i) found =
    let (j, at) = remap_allowed-found mapping m m' k i h found in
    subst (λ n. p' n ≡ node_prefixed (p i) prefix) (moves i j at) (paths i j at)

module _ {S E : Type 0} where
  conditional_lands :
      (base : ℕ) (mapping : List NodeIndex) (prefix : GraphPath)
      (path_at path_at' : NodeIndex → NodePath) (route : S → Result NodeId E)
      (m : Map NodeId (Option NodeIndex)) (t' : CompiledTransition S E)
      → ((i j : NodeIndex) → get_elem? mapping i ≡ some j → j ≡ base + i)
      → ((i j : NodeIndex)
          → get_elem? mapping i ≡ some j
          → path_at' j ≡ node_prefixed (path_at i) prefix)
      → remap mapping (conditional route m) ≡ some t'
      → LandsAll base prefix path_at path_at' m
  unfolding remap
  conditional_lands base mapping prefix p p' route m t' moves paths h =
      elim (Option-cases (remap_allowed mapping m)) [
        | inl e ↦ cc (rw e at h)
        | inr (m', e) ↦ allowed_lands base mapping prefix p p' m m' moves paths e
      ]

  selected_lands :
      (base : ℕ) (mapping : List NodeIndex) (prefix : GraphPath)
      (path_at path_at' : NodeIndex → NodePath) (route : S → Result (List NodeId) E)
      (m : Map NodeId (Option NodeIndex)) (t' : CompiledTransition S E)
      → ((i j : NodeIndex) → get_elem? mapping i ≡ some j → j ≡ base + i)
      → ((i j : NodeIndex)
          → get_elem? mapping i ≡ some j
          → path_at' j ≡ node_prefixed (path_at i) prefix)
      → remap mapping (conditional_fan_out route m) ≡ some t'
      → LandsAll base prefix path_at path_at' m
  unfolding remap
  selected_lands base mapping prefix p p' route m t' moves paths h =
      elim (Option-cases (remap_allowed mapping m)) [
        | inl e ↦ cc (rw e at h)
        | inr (m', e) ↦ allowed_lands base mapping prefix p p' m m' moves paths e
      ]

  -- Let `remap` move a transition by a mapping that adds `base` to each index that it has, and let
  -- the parent's item at the place of such an index have the child's path under `prefix`. Then the moved transition, from
  -- the prefixed namespace, takes the same decision as the child's, with the paths prefixed, adds
  -- the same targets, moved, and fails with the same error.
  pub remap-mounted :
      (base : ℕ) (mapping : List NodeIndex) (prefix : GraphPath)
      (path_at path_at' : NodeIndex → NodePath) (t t' : CompiledTransition S E) (state : S)
      (g : GraphPath) (targets : List NodeIndex)
      → ((i j : NodeIndex) → get_elem? mapping i ≡ some j → j ≡ base + i)
      → ((i j : NodeIndex)
          → get_elem? mapping i ≡ some j
          → path_at' j ≡ node_prefixed (path_at i) prefix)
      → remap mapping t ≡ some t'
      → resolve_into t' state (graph_prefixed g prefix) (shift_all base targets) path_at'
        ≡ mounted base prefix (resolve_into t state g targets path_at)
  unfolding resolve_into
  remap-mounted base mapping prefix p p' (fixed t) t' state g targets moves paths h =
      rw (remap-moved base mapping moves (fixed t) t' h)
        (ap (λ l. (ok none, l)) (shift_all-extend base targets t))
  remap-mounted base mapping prefix p p' (static_fan_out is) t' state g targets moves paths h =
      rw (remap-moved base mapping moves (static_fan_out is) t' h)
        (ap (λ l. (ok none, l)) (sym (map-append (λ i. base + i) targets is)))
  remap-mounted base mapping prefix p p' (conditional route m) t' state g targets moves paths h =
      rw (remap-moved base mapping moves (conditional route m) t' h) (
        single-moved base prefix p p' g targets m (route state)
          (conditional_lands base mapping prefix p p' route m t' moves paths h))
  remap-mounted base mapping prefix p p' (conditional_fan_out route m) t' state g targets moves
        paths h =
      rw (remap-moved base mapping moves (conditional_fan_out route m) t' h) (
        multiple-moved base prefix p p' g targets m (route state)
          (selected_lands base mapping prefix p p' route m t' moves paths h))
