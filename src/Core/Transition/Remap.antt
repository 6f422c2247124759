-- ===== src/Core/Transition/Remap.antt =====
-- How `remap` of crates/group-agent-core/src/transition.rs
-- moves the parts of a transition into a parent graph.
use mathlib.Core.Option
use group.Prelude.{
  Bool-cases, Option-cases, get_elem?, All, Map, get, ◌==◌, nat_eq, string_eq, bool_eq, option_eq,
  list_eq, contains, Result, Result-cases, ok, err, ℕ, ◌+◌, ◌≡◌, refl, sym, ap, ap₂, ◌∙◌, inl, inr,
  Option, none, some, List, [], ◌∷◌, map, map-append, arith,
}
use group.Core.Path.{NodeId, GraphPath, NodePath, graph_prefixed, node_prefixed}
use group.Core.Path.Laws.{prefixed-new}
use group.Core.Transition.{
  NodeIndex, resolve_each, extend, extend_all, key_le, RouteDecision, single, multiple,
  remap_target, remap_indices, remap_allowed, target_path, Resolved,
}

-- The move by `base`, and under `prefix`.
module _ (base : ℕ) where
  abbrev pub shift : Option NodeIndex → Option NodeIndex
  shift none = none
  shift (some i) = some (base + i)

  abbrev pub shift_all : List NodeIndex → List NodeIndex
  shift_all = map (λ i. base + i)

  abbrev pub shift_target : Option NodeIndex × NodeId → Option NodeIndex × NodeId
  shift_target x = (shift x.0, x.1)

  abbrev pub shift_allowed : Map NodeId (Option NodeIndex) → Map NodeId (Option NodeIndex)
  shift_allowed = map (λ x. (x.0, shift x.1))

abbrev pub prefix_decision : GraphPath → RouteDecision → RouteDecision
prefix_decision prefix (single p) = single (node_prefixed p prefix)
prefix_decision prefix (multiple ps) = multiple (map (λ p. node_prefixed p prefix) ps)

abbrev pub map_result {ℓ κ μ} :
    {A : Type ℓ} {B : Type κ} {E : Type μ} → (A → B) → Result A E → Result B E
map_result f (ok a) = ok (f a)
map_result f (err e) = err e

-- The outcome, with its indices moved and its paths prefixed.
abbrev pub mounted : {E : Type 0} → ℕ → GraphPath → Resolved E → Resolved E
mounted base prefix (decision, targets) =
    (map_result (Option.map (prefix_decision prefix)) decision, shift_all base targets)

module _ (base : ℕ) (mapping : List NodeIndex)
    (moves : (i j : NodeIndex) → get_elem? mapping i ≡ some j → j ≡ base + i) where
  pub remap_target-shift :
      (t t' : Option NodeIndex) → remap_target mapping t ≡ some t' → t' ≡ shift base t
  remap_target-shift none t' h = ground arith
  remap_target-shift (some i) t' h = elim (Option-cases (get_elem? mapping i)) [
    | inl e ↦ ground arith
    | inr (j, e) ↦ ground (arith, moves i j e)
  ]

  pub remap_indices-shift :
      (is js : List NodeIndex) → remap_indices mapping is ≡ some js → js ≡ shift_all base is
  unfolding remap_indices
  remap_indices-shift [] js h = ground arith
  remap_indices-shift (i ∷ is) js h = elim (Option-cases (get_elem? mapping i)) [
    | inl e ↦ ground arith
    | inr (j, e) ↦ elim (Option-cases (remap_indices mapping is)) [
      | inl f ↦ ground arith
      | inr (ks, f) ↦ ground (arith, moves i j e, remap_indices-shift is ks f)
    ]
  ]

  pub remap_allowed-shift :
      (m m' : Map NodeId (Option NodeIndex))
      → remap_allowed mapping m ≡ some m'
      → m' ≡ shift_allowed base m
  unfolding remap_allowed
  remap_allowed-shift [] m' h = ground arith
  remap_allowed-shift ((k, t) ∷ m) m' h = elim (Option-cases (remap_target mapping t)) [
    | inl e ↦ ground arith
    | inr (t', e) ↦ elim (Option-cases (remap_allowed mapping m)) [
      | inl f ↦ ground arith
      | inr (rest, f) ↦ ground (arith, remap_target-shift t t' e, remap_allowed-shift m rest f)
    ]
  ]

pub get-shift_allowed :
    (base : ℕ) (k : NodeId) (m : Map NodeId (Option NodeIndex))
    → get k (shift_allowed base m) ≡ Option.map (shift base) (get k m)
unfolding get
get-shift_allowed base k [] = refl
get-shift_allowed base k ((j, t) ∷ m) = ground (arith, get-shift_allowed base k m)

pub resolve_each-shift :
    {E : Type 0} (base : ℕ) (m : Map NodeId (Option NodeIndex)) (seen ids : List NodeId)
    → resolve_each {E = E} (shift_allowed base m) seen ids
      ≡ map_result (map (shift_target base)) (resolve_each {E = E} m seen ids)
unfolding resolve_each
resolve_each-shift base m seen [] = refl
resolve_each-shift {E} base m seen (x ∷ ids) =
    ground (arith, get-shift_allowed base x m, resolve_each-shift {E = E} base m (x ∷ seen) ids)

pub key_le-shift :
    (base : ℕ) (x y : Option NodeIndex × NodeId)
    → key_le (shift_target base x) (shift_target base y) ≡ key_le x y
key_le-shift base (some a, _) (some b, _) = ground arith
key_le-shift base (some a, _) (none, _) = refl
key_le-shift base (none, _) (some b, _) = refl
key_le-shift base (none, _) (none, _) = refl

pub shift_all-extend :
    (base : ℕ) (targets : List NodeIndex) (t : Option NodeIndex)
    → extend (shift_all base targets) (shift base t) ≡ shift_all base (extend targets t)
shift_all-extend base targets none = refl
shift_all-extend base targets (some i) = sym (map-append (λ j. base + j) targets (i ∷ []))

pub extend_all-shift :
    (base : ℕ) (targets : List NodeIndex) (xs : List (Option NodeIndex × NodeId))
    → extend_all (shift_all base targets) (map (shift_target base) xs)
      ≡ shift_all base (extend_all targets xs)
extend_all-shift base targets [] = refl
extend_all-shift base targets ((t, id) ∷ xs) =
    ap (λ l. extend_all l (map (shift_target base) xs)) (shift_all-extend base targets t)
    ∙ extend_all-shift base (extend targets t) xs

-- The entries of a map that was remapped have a place in the mapping.
pub remap_allowed-found :
    (mapping : List NodeIndex) (m m' : Map NodeId (Option NodeIndex)) (k : NodeId) (i : NodeIndex)
    → remap_allowed mapping m ≡ some m'
    → get k m ≡ some (some i)
    → (j : NodeIndex) × (get_elem? mapping i ≡ some j)
unfolding remap_allowed get
remap_allowed-found mapping [] m' k i h found = cc
remap_allowed-found mapping ((key, t) ∷ m) m' k i h found =
    elim (Option-cases (remap_target mapping t)) [
      | inl e ↦ absurd (ground arith)
      | inr (t', e) ↦ elim (Option-cases (remap_allowed mapping m)) [
        | inl f ↦ absurd (ground arith)
        | inr (rest, f) ↦ elim (Bool-cases (key == k)) [
          | inr other ↦ remap_allowed-found mapping m rest k i f (ground arith)
          | inl same ↦ elim (Option-cases (get_elem? mapping i)) [
            | inr found ↦ found
            | inl missing ↦ absurd (ground arith)
          ]
        ]
      ]
    ]

module _ (base : ℕ) (prefix : GraphPath) (path_at path_at' : NodeIndex → NodePath) where
  -- The path of the item of a target is found under the prefix, at the moved index.
  abbrev pub Lands : Option NodeIndex × NodeId → Type 0
  Lands (none, id) = Unit {0}
  Lands (some i, id) = path_at' (base + i) ≡ node_prefixed (path_at i) prefix

  pub target_path-shift :
      (g : GraphPath) (x : Option NodeIndex × NodeId)
      → Lands x
      → target_path (graph_prefixed g prefix) path_at' (shift_target base x)
        ≡ node_prefixed (target_path g path_at x) prefix
  target_path-shift g (none, id) h = sym (prefixed-new g prefix prefix id).0
  target_path-shift g (some i, id) h = h

  pub target_paths-shift :
      (g : GraphPath) (xs : List (Option NodeIndex × NodeId))
      → All Lands xs
      → map (target_path (graph_prefixed g prefix) path_at') (map (shift_target base) xs)
        ≡ map (λ p. node_prefixed p prefix) (map (target_path g path_at) xs)
  target_paths-shift g [] h = refl
  target_paths-shift g (x ∷ xs) h =
      ap₂ (λ p l. p ∷ l) (target_path-shift g x h.0) (target_paths-shift g xs h.1)

  module _ (m : Map NodeId (Option NodeIndex))
      (lands : (k : NodeId) (t : Option NodeIndex) → get k m ≡ some t → Lands (t, k)) where
    pub resolve_each-Lands :
        {E : Type 0} (seen ids : List NodeId) (xs : List (Option NodeIndex × NodeId))
        → resolve_each {E = E} m seen ids ≡ ok xs
        → All Lands xs
    unfolding resolve_each
    resolve_each-Lands {E} seen [] xs h = let e : xs ≡ [] = cc in rw e tt
    resolve_each-Lands {E} seen (x ∷ ids) xs h = elim (Bool-cases (contains x seen)) [
      | inl repeated ↦ absurd (ground arith)
      | inr fresh ↦ elim (Option-cases (get x m)) [
        | inl e ↦ absurd (ground arith)
        | inr (t, e) ↦ elim (Result-cases (resolve_each {E = E} m (x ∷ seen) ids)) [
          | inr (reason, f) ↦ absurd (ground arith)
          | inl (ys, f) ↦
              let same : xs ≡ (t, x) ∷ ys = ground arith in
              rw same (lands x t e, resolve_each-Lands {E = E} (x ∷ seen) ids ys f)
        ]
      ]
    ]
