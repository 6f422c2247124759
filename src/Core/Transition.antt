-- ===== src/Core/Transition.antt =====
-- Compiled transitions: crates/group-agent-core/src/transition.rs. A router is a pure function of
-- the state, the vector of targets that `resolve_into` extends is passed on, and an index out of
-- range, where the source panics, is `none`.
pub mod Routes
pub mod Targets
pub mod Remap
pub mod Mount
pub mod Tests
use mathlib.Core.Option
use group.Prelude.{
  leb, if◌then◌else◌, get_elem?, sort_by, Map, get, nat_eq, string_eq, bool_eq, option_eq, list_eq,
  contains, Result, ◌>>=◌, ok, err, ℕ, Bool, true, false, Option, none, some, List, [], ◌∷◌, ◌++◌,
  map,
}
use group.Core.Path.{NodeId, GraphPath, NodePath, new}

-- `petgraph`'s `NodeIndex` as its number.
abbrev pub NodeIndex : Type 0
NodeIndex = ℕ

-- `S` is the state, and `E` the error of a router.
pub data CompiledTransition (S E : Type 0) : Type 0 where
  fixed : Option NodeIndex → CompiledTransition S E
  static_fan_out : List NodeIndex → CompiledTransition S E
  conditional : (S → Result NodeId E) → Map NodeId (Option NodeIndex) → CompiledTransition S E
  conditional_fan_out :
      (S → Result (List NodeId) E) → Map NodeId (Option NodeIndex) → CompiledTransition S E

pub data RouteDecision : Type 0 where
  single : NodePath → RouteDecision
  multiple : List NodePath → RouteDecision

pub data TransitionError (E : Type 0) : Type 0 where
  router : E → TransitionError E
  invalid_target : NodeId → TransitionError E
  empty_targets : TransitionError E
  duplicate_target : NodeId → TransitionError E

-- `Vec::extend` by an `Option`.
abbrev pub extend : List NodeIndex → Option NodeIndex → List NodeIndex
extend targets none = targets
extend targets (some index) = targets ++ index ∷ []

-- The order of `sort_unstable_by_key`: by index, `END` last.
abbrev pub key_le : Option NodeIndex × NodeId → Option NodeIndex × NodeId → Bool
key_le (some a, _) (some b, _) = leb a b
key_le (some a, _) (none, _) = true
key_le (none, _) (some b, _) = false
key_le (none, _) (none, _) = true

-- The path of a selected target.
abbrev pub target_path : GraphPath → (NodeIndex → NodePath) → Option NodeIndex × NodeId → NodePath
target_path graph_path path_at (none, target_id) = new graph_path target_id
target_path graph_path path_at (some index, target_id) = path_at index

-- The final loop over the selected targets, which extends the vector.
abbrev pub extend_all : List NodeIndex → List (Option NodeIndex × NodeId) → List NodeIndex
extend_all targets [] = targets
extend_all targets ((target, _) ∷ rest) = extend_all (extend targets target) rest

abbrev pub Resolved : Type 0 → Type 0
Resolved E = Result (Option RouteDecision) (TransitionError E) × List NodeIndex

module _ {E : Type 0} where
  -- The loop over the selected identifiers.
  unfoldable pub resolve_each :
      Map NodeId (Option NodeIndex)
      → List NodeId
      → List NodeId
      → Result (List (Option NodeIndex × NodeId)) (TransitionError E)
  resolve_each allowed seen [] = ok []
  resolve_each allowed seen (target_id ∷ rest) =
      if contains target_id seen
      then err (duplicate_target target_id)
      else elim (get target_id allowed) [
        | none ↦ err (invalid_target target_id)
        | some target ↦ resolve_each allowed (target_id ∷ seen) rest >>= λ resolved.
            ok ((target, target_id) ∷ resolved)
      ]

  unfoldable pub resolve_single :
      Map NodeId (Option NodeIndex)
      → GraphPath
      → (NodeIndex → NodePath)
      → List NodeIndex
      → Result NodeId E
      → Resolved E
  resolve_single allowed graph_path path_at targets (err e) = (err (router e), targets)
  resolve_single allowed graph_path path_at targets (ok target_id) = elim (get target_id allowed) [
    | none ↦ (err (invalid_target target_id), targets)
    | some target ↦ (
      ok (some (single (target_path graph_path path_at (target, target_id)))),
      extend targets target,
    )
  ]

  unfoldable pub finish_multiple :
      GraphPath
      → (NodeIndex → NodePath)
      → List NodeIndex
      → Result (List (Option NodeIndex × NodeId)) (TransitionError E)
      → Resolved E
  finish_multiple graph_path path_at targets (err e) = (err e, targets)
  finish_multiple graph_path path_at targets (ok resolved) =
      let sorted = sort_by key_le resolved in
      (
        ok (some (multiple (map (target_path graph_path path_at) sorted))),
        extend_all targets sorted,
      )

  unfoldable pub resolve_multiple :
      Map NodeId (Option NodeIndex)
      → GraphPath
      → (NodeIndex → NodePath)
      → List NodeIndex
      → Result (List NodeId) E
      → Resolved E
  unfolding resolve_each finish_multiple sort_by
  resolve_multiple allowed graph_path path_at targets (err e) = (err (router e), targets)
  resolve_multiple allowed graph_path path_at targets (ok []) = (err empty_targets, targets)
  resolve_multiple allowed graph_path path_at targets (ok (first ∷ rest)) =
      finish_multiple graph_path path_at targets (resolve_each allowed [] (first ∷ rest))

module _ {S E : Type 0} where
  unfoldable pub resolve_into :
      CompiledTransition S E → S → GraphPath → List NodeIndex → (NodeIndex → NodePath) → Resolved E
  unfolding resolve_single resolve_multiple
  resolve_into (fixed target) state graph_path targets path_at = (ok none, extend targets target)
  resolve_into (static_fan_out compiled_targets) state graph_path targets path_at =
      (ok none, targets ++ compiled_targets)
  resolve_into (conditional route allowed) state graph_path targets path_at =
      resolve_single allowed graph_path path_at targets (route state)
  resolve_into (conditional_fan_out route allowed) state graph_path targets path_at =
      resolve_multiple allowed graph_path path_at targets (route state)

-- `mapping[index]`.
abbrev pub remap_target : List NodeIndex → Option NodeIndex → Option (Option NodeIndex)
remap_target mapping none = some none
remap_target mapping (some index) = Option.map some (get_elem? mapping index)

unfoldable pub remap_indices : List NodeIndex → List NodeIndex → Option (List NodeIndex)
remap_indices mapping [] = some []
remap_indices mapping (index ∷ rest) = elim (get_elem? mapping index) [
  | none ↦ none
  | some new_index ↦ Option.map (λ l. new_index ∷ l) (remap_indices mapping rest)
]

unfoldable pub remap_allowed :
    List NodeIndex → Map NodeId (Option NodeIndex) → Option (Map NodeId (Option NodeIndex))
remap_allowed mapping [] = some []
remap_allowed mapping ((node_id, index) ∷ rest) = elim (remap_target mapping index) [
  | none ↦ none
  | some target ↦ Option.map (λ l. (node_id, target) ∷ l) (remap_allowed mapping rest)
]

module _ {S E : Type 0} where
  unfoldable pub remap : List NodeIndex → CompiledTransition S E → Option (CompiledTransition S E)
  unfolding remap_indices remap_allowed
  remap mapping (fixed index) = Option.map fixed (remap_target mapping index)
  remap mapping (static_fan_out indices) = Option.map static_fan_out (remap_indices mapping indices)
  remap mapping (conditional route allowed) =
      Option.map (conditional route) (remap_allowed mapping allowed)
  remap mapping (conditional_fan_out route allowed) =
      Option.map (conditional_fan_out route) (remap_allowed mapping allowed)
