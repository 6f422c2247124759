-- ===== src/Core/Graph/Flat/Range.antt =====
-- The indices of a compiled graph of crates/group-agent-core/src/graph.rs, and the `remap` of
-- transitions whose indices are in range.
use group.Prelude.{
  length, get_elem?, All, Map, nat_eq, string_eq, bool_eq, option_eq, list_eq, ℕ, ◌<◌, ◌≡◌, refl,
  Option, none, some, List, [], ◌∷◌,
}
use group.Core.Path.{NodeId}
use group.Core.Transition.{
  NodeIndex, CompiledTransition, fixed, static_fan_out, conditional, conditional_fan_out, remap,
  remap_target, remap_indices, remap_allowed,
}
use group.Core.Graph.{CompiledItem, node, enter_subgraph, exit_subgraph, CompiledGraph}

abbrev pub IsTargetBelow : ℕ → Option NodeIndex → Type 0
IsTargetBelow n none = Unit
IsTargetBelow n (some i) = i < n

-- The targets of a transition are below the number.
abbrev pub IsBelow : {S E : Type 0} → ℕ → CompiledTransition S E → Type 0
IsBelow n (fixed target) = IsTargetBelow n target
IsBelow n (static_fan_out targets) = All (λ i. i < n) targets
IsBelow n (conditional route allowed) = All (λ x. IsTargetBelow n x.1) allowed
IsBelow n (conditional_fan_out route allowed) = All (λ x. IsTargetBelow n x.1) allowed

abbrev pub IsItemBelow : {S E N : Type 0} → ℕ → CompiledItem S E N → Type 0
IsItemBelow n (node c) = IsBelow n c.transition
IsItemBelow n (enter_subgraph g t) = IsBelow n t
IsItemBelow n (exit_subgraph g m t) = IsBelow n t

-- Every index of a compiled graph is the index of an item.
pub record IsInRange {S E N : Type 0} (graph : CompiledGraph S E N) : Type 0 where
  pub items : All (IsItemBelow (length graph.items)) graph.items
  pub exits : All (λ x. x.1 < length graph.items) graph.scope_exits
  pub entry : IsTargetBelow (length graph.items) graph.entry_index

module _ (n : ℕ) (mapping : List NodeIndex)
    (maps : (i : NodeIndex) → i < n → (j : NodeIndex) × (get_elem? mapping i ≡ some j)) where
  remap_target-some :
      (t : Option NodeIndex)
      → IsTargetBelow n t
      → (u : Option NodeIndex) × (remap_target mapping t ≡ some u)
  remap_target-some none h = (none, refl)
  remap_target-some (some i) h = let (j, e) = maps i h in (some j, rw e refl)

  remap_indices-some :
      (is : List NodeIndex)
      → All (λ i. i < n) is
      → (js : List NodeIndex) × (remap_indices mapping is ≡ some js)
  unfolding remap_indices
  remap_indices-some [] h = ([], refl)
  remap_indices-some (i ∷ is) h =
      let (j, e) = maps i (h.0) in
      let (js, f) = remap_indices-some is (h.1) in (j ∷ js, rw (e, remap_indices) (rw f refl))

  remap_allowed-some :
      (m : Map NodeId (Option NodeIndex))
      → All (λ x. IsTargetBelow n x.1) m
      → (m' : Map NodeId (Option NodeIndex)) × (remap_allowed mapping m ≡ some m')
  unfolding remap_allowed
  remap_allowed-some [] h = ([], refl)
  remap_allowed-some ((id, t) ∷ m) h =
      let (u, e) = remap_target-some t (h.0) in
      let (m', f) = remap_allowed-some m (h.1) in ((id, u) ∷ m', rw (e, remap_allowed) (rw f refl))

  pub remap-some :
      {S E : Type 0} (t : CompiledTransition S E)
      → IsBelow n t
      → (t' : CompiledTransition S E) × (remap mapping t ≡ some t')
  unfolding remap
  remap-some (fixed t) h = let (u, e) = remap_target-some t h in (fixed u, rw (e, remap) refl)
  remap-some (static_fan_out is) h =
      let (js, e) = remap_indices-some is h in (static_fan_out js, rw (e, remap) refl)
  remap-some (conditional route m) h =
      let (m', e) = remap_allowed-some m h in (conditional route m', rw (e, remap) refl)
  remap-some (conditional_fan_out route m) h =
      let (m', e) = remap_allowed-some m h in (conditional_fan_out route m', rw (e, remap) refl)
