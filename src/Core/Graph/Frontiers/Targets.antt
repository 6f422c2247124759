-- ===== src/Core/Graph/Frontiers/Targets.antt =====
-- Where the frontiers of `validate_subgraph_frontiers` in crates/group-agent-core/src/graph.rs come
-- from: their nodes are targets that an edge names.
use group.Prelude.{
  Bool-cases, Option-cases, All, All-append, All-split, All-map, Map, get, ◌==◌, ==_refl, nat_eq,
  string_eq, bool_eq, option_eq, list_eq, contains, ◌≡◌, refl, inl, inr, true, ◌||◌, some, List, [],
  ◌∷◌, ◌++◌, map, arith,
}
use group.Core.Path.{NodeId}
use group.Core.Graph.{StateGraph}
use group.Core.Graph.Edges.{EdgeAggregation}
use group.Core.Graph.Frontiers.{
  without_end, distinct_from, transition_alternatives, joint_frontiers, next_frontiers,
  declared_frontiers, executable_target, is_end,
}

-- `flat_map` over the values of a map.
flat {ℓ} : {A : Type ℓ} → (A → List NodeId) → List A → List NodeId
flat f [] = []
flat f (x ∷ xs) = f x ++ flat f xs

abbrev pub Within : List NodeId → List NodeId → Type 0
Within known = All (λ x. contains x known ≡ true)

pub contains-append :
    (x : NodeId) (xs ys : List NodeId) → contains x (xs ++ ys) ≡ (contains x xs || contains x ys)
unfolding contains
contains-append x [] ys = refl
contains-append x (y ∷ xs) ys = ground (arith, contains-append x xs ys)

Within-left : (ls rs xs : List NodeId) → Within ls xs → Within (ls ++ rs) xs
Within-left ls rs =
    All-map (λ x. contains x ls ≡ true) (λ x. contains x (ls ++ rs) ≡ true)
      (λ x h. ground (arith, contains-append x ls rs))

Within-right : (ls rs xs : List NodeId) → Within rs xs → Within (ls ++ rs) xs
Within-right ls rs =
    All-map (λ x. contains x rs ≡ true) (λ x. contains x (ls ++ rs) ≡ true)
      (λ x h. ground (arith, contains-append x ls rs))

Within-self : (xs : List NodeId) → Within xs xs
unfolding contains
Within-self [] = tt
Within-self (x ∷ xs) = (ground (arith, ==_refl x), Within-right (x ∷ []) xs xs (Within-self xs))

-- The targets of an edge that a map holds.
flat-found :
    {V : Type 0} (f : V → List NodeId) (k : NodeId) (v : V) (m : Map NodeId V)
    → get k m ≡ some v
    → Within (flat (λ x. f x.1) m) (f v)
unfolding get flat
flat-found f k v [] h = cc
flat-found f k v ((j, w) ∷ m) h = elim (Bool-cases (j == k)) [
  | inl same ↦
      let e : w ≡ v = ground arith in
      Within-left (f w) (flat (λ x. f x.1) m) (f v) (rw e (Within-self (f v)))
  | inr other ↦ Within-right (f w) (flat (λ x. f x.1) m) (f v) (flat-found f k v m (ground arith))
]

flat-all :
    (known : List NodeId) (xs : List (List NodeId))
    → Within known (flat (λ x. x) xs)
    → All (Within known) xs
unfolding flat
flat-all known [] w = tt
flat-all known (x ∷ xs) w =
    let (here, there) = All-split (λ y. contains y known ≡ true) x (flat (λ y. y) xs) w in
    (here, flat-all known xs there)

-- Every list of the frontier's nodes stays within the known ones.
module _ (known : List NodeId) where
  Within-append :
      (xs ys : List NodeId) → Within known xs → Within known ys → Within known (xs ++ ys)
  Within-append = All-append (λ x. contains x known ≡ true)

  pub Within-without_end : (xs : List NodeId) → Within known xs → Within known (without_end xs)
  unfolding without_end
  Within-without_end [] w = tt
  Within-without_end (x ∷ xs) w = elim (Bool-cases (is_end x)) [
    | inl e ↦ rw e (Within-without_end xs w.1)
    | inr e ↦ rw e (w.0, Within-without_end xs w.1)
  ]

  pub Within-distinct_from :
      (seen xs : List NodeId) → Within known xs → Within known (distinct_from seen xs)
  unfolding distinct_from
  Within-distinct_from seen [] w = tt
  Within-distinct_from seen (x ∷ xs) w = elim (Bool-cases (contains x seen)) [
    | inl e ↦ rw e (Within-distinct_from seen xs w.1)
    | inr e ↦ rw e (w.0, Within-distinct_from (x ∷ seen) xs w.1)
  ]

  Within-executable : (x : NodeId) → contains x known ≡ true → Within known (executable_target x)
  Within-executable x h = elim (Bool-cases (is_end x)) [ inl e ↦ rw e tt | inr e ↦ rw e (h, tt) ]

  Within-executables :
      (xs : List NodeId) → Within known xs → All (Within known) (map executable_target xs)
  Within-executables [] w = tt
  Within-executables (x ∷ xs) w = (Within-executable x w.0, Within-executables xs w.1)

  Within-joint_row :
      (l : List NodeId) (rs : List (List NodeId))
      → Within known l
      → All (Within known) rs
      → All (Within known) (map (λ r. distinct_from [] (l ++ r)) rs)
  Within-joint_row l [] w a = tt
  Within-joint_row l (r ∷ rs) w a =
      (Within-distinct_from [] (l ++ r) (Within-append l r w a.0), Within-joint_row l rs w a.1)

  Within-joint_frontiers :
      (ls rs : List (List NodeId))
      → All (Within known) ls
      → All (Within known) rs
      → All (Within known) (joint_frontiers ls rs)
  unfolding joint_frontiers
  Within-joint_frontiers [] rs a b = tt
  Within-joint_frontiers (l ∷ ls) rs a b =
      All-append (Within known) (map (λ r. distinct_from [] (l ++ r)) rs) (joint_frontiers ls rs)
        (Within-joint_row l rs a.0 b) (Within-joint_frontiers ls rs a.1 b)

module _ {S E N : Type 0} (graph : StateGraph S E N) (edges : EdgeAggregation S E) where
  abbrev fixed_targets : List NodeId
  fixed_targets = flat (λ x. x.1.successor ∷ []) edges.fixed_by_source

  abbrev fan_out_targets : List NodeId
  fan_out_targets = flat (λ x. x.1.targets) edges.fan_out_by_source

  abbrev conditional_targets : List NodeId
  conditional_targets = flat (λ x. x.1.allowed_targets) edges.conditional_by_source

  abbrev conditional_fan_out_targets : List NodeId
  conditional_fan_out_targets = flat (λ x. x.1.allowed_targets) edges.conditional_fan_out_by_source

  -- The targets of all edges.
  pub mentioned : List NodeId
  mentioned =
      fixed_targets
      ++ (fan_out_targets
          ++ (conditional_targets
              ++ (conditional_fan_out_targets ++ flat (λ x. x) (declared_frontiers graph edges))))

  Within-fixed : (xs : List NodeId) → Within fixed_targets xs → Within mentioned xs
  unfolding mentioned
  Within-fixed xs w = Within-left fixed_targets _ xs w

  Within-fan_out : (xs : List NodeId) → Within fan_out_targets xs → Within mentioned xs
  unfolding mentioned
  Within-fan_out xs w = Within-right fixed_targets _ xs (Within-left fan_out_targets _ xs w)

  Within-conditional : (xs : List NodeId) → Within conditional_targets xs → Within mentioned xs
  unfolding mentioned
  Within-conditional xs w =
      Within-right fixed_targets _ xs
        (Within-right fan_out_targets _ xs (Within-left conditional_targets _ xs w))

  Within-conditional_fan_out :
      (xs : List NodeId) → Within conditional_fan_out_targets xs → Within mentioned xs
  unfolding mentioned
  Within-conditional_fan_out xs w = Within-right fixed_targets _ xs (
      Within-right fan_out_targets _ xs
        (Within-right conditional_targets _ xs (Within-left conditional_fan_out_targets _ xs w)))

  Within-declared :
      (xs : List NodeId)
      → Within (flat (λ x. x) (declared_frontiers graph edges)) xs
      → Within mentioned xs
  unfolding mentioned
  Within-declared xs w = Within-right fixed_targets _ xs (
      Within-right fan_out_targets _ xs
        (Within-right conditional_targets _ xs (Within-right conditional_fan_out_targets _ xs w)))

  pub Within-declared_frontiers : All (Within mentioned) (declared_frontiers graph edges)
  Within-declared_frontiers =
      All-map _ (Within mentioned) Within-declared (declared_frontiers graph edges) (
        flat-all (flat (λ x. x) (declared_frontiers graph edges)) (declared_frontiers graph edges)
          (Within-self _))

  pub Within-transition_alternatives :
      (source : NodeId) → All (Within mentioned) (transition_alternatives source edges)
  unfolding transition_alternatives
  Within-transition_alternatives source = elim (Bool-cases (is_end source)) [
    | inl e ↦ rw (e, transition_alternatives) (tt, tt)
    | inr e ↦ elim (Option-cases (get source edges.fixed_by_source)) [
      | inr (v, f) ↦
          let w =
            Within-fixed (v.successor ∷ [])
              (flat-found (λ o. o.successor ∷ []) source v edges.fixed_by_source f) in
          rw (e, f, transition_alternatives) (Within-executable mentioned v.successor w.0, tt)
      | inl f ↦ elim (Option-cases (get source edges.fan_out_by_source)) [
        | inr (v, g) ↦
            let w =
              Within-fan_out v.targets
                (flat-found (λ o. o.targets) source v edges.fan_out_by_source g) in
            rw (e, f, g, transition_alternatives) (Within-without_end mentioned v.targets w, tt)
        | inl g ↦ elim (Option-cases (get source edges.conditional_fan_out_by_source)) [
          | inr (v, h) ↦
              let w = Within-conditional_fan_out v.allowed_targets (
                flat-found (λ o. o.allowed_targets) source v edges.conditional_fan_out_by_source
                  h) in
              rw (e, f, g, h, transition_alternatives)
                (Within-without_end mentioned v.allowed_targets w, tt)
          | inl h ↦ elim (Option-cases (get source edges.conditional_by_source)) [
            | inr (v, k) ↦
                let w =
                  Within-conditional v.allowed_targets
                    (flat-found (λ o. o.allowed_targets) source v edges.conditional_by_source k) in
                rw (e, f, g, h, k, transition_alternatives)
                  (Within-executables mentioned v.allowed_targets w)
            | inl k ↦ rw (e, f, g, h, k, transition_alternatives) (tt, tt)
          ]
        ]
      ]
    ]
  ]

  pub Within-next_frontiers :
      (pair : NodeId × NodeId) → All (Within mentioned) (next_frontiers graph edges pair)
  unfolding next_frontiers
  Within-next_frontiers (l, r) =
      Within-joint_frontiers mentioned (transition_alternatives l edges)
        (transition_alternatives r edges) (Within-transition_alternatives l)
        (Within-transition_alternatives r)
