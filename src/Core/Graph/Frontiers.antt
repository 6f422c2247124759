-- ===== src/Core/Graph/Frontiers.antt =====
-- `validate_subgraph_frontiers` and `transition_alternatives` of
-- crates/group-agent-core/src/graph.rs. The worklist loop takes fuel, and is `none` when it runs
-- out; a `HashSet` is the list of what was inserted.
pub mod Targets
pub mod Measure
pub mod Fuel
pub mod Reach
pub mod Growth
pub mod Safety
pub mod Refusal
pub mod Members
pub mod Concurrent
pub mod Steps
pub mod Correct
use Prim.Native.String.{compare}
use text.Mathlib.Text.{is_le}
use group.Prelude.{
  if◌then◌else◌, is_empty, Map, get, Eq, ◌==◌, ==_iff, nat_eq, string_eq, bool_eq, option_eq,
  list_eq, contains, Result, ◌>>=◌, ok, err, ℕ, zero, suc, ◌≡◌, ◌↔◌, Bool, true, false, not, ◌&&◌,
  ◌||◌, Option, none, some, List, [], ◌∷◌, ◌++◌, map, arith,
}
use group.Core.Path.{NodeId, is_end}
use group.Core.Graph.{
  DeclaredItem, is_subgraph, StateGraph, GraphCompileError, subgraph_in_parallel_frontier,
}
use group.Core.Graph.Edges.{EdgeAggregation}

-- `canonical_pair`.
unfoldable pub canonical_pair : NodeId → NodeId → NodeId × NodeId
canonical_pair left right = if is_le (compare left right) then (left, right) else (right, left)

abbrev pub pair_beq : NodeId × NodeId → NodeId × NodeId → Bool
pair_beq a b = a.0 == b.0 && a.1 == b.1

pub pair_beq_iff : (a b : NodeId × NodeId) → (pair_beq a b ≡ true) ↔ (a ≡ b)
pair_beq_iff a b = ground (arith, ==_iff a.0 b.0, ==_iff a.1 b.1)

instance abbrev pub pair_eq : Eq (NodeId × NodeId)
pair_eq = record { equal = pair_beq; equal_iff = pair_beq_iff }

-- `filter(|target| !target.is_end())`.
unfoldable pub without_end : List NodeId → List NodeId
without_end [] = []
without_end (x ∷ xs) = let rest = without_end xs in if is_end x then rest else x ∷ rest

-- What a `HashSet` that holds `seen` lets through.
unfoldable pub distinct_from : List NodeId → List NodeId → List NodeId
distinct_from seen [] = []
distinct_from seen (x ∷ xs) =
    let skip = distinct_from seen xs in
    let keep = distinct_from (x ∷ seen) xs in if contains x seen then skip else x ∷ keep

-- The pairs of an element with a later one, in the order of the two loops.
unfoldable pub all_pairs : List NodeId → List (NodeId × NodeId)
all_pairs [] = []
all_pairs (left ∷ rest) = map (λ right. (left, right)) rest ++ all_pairs rest

pub record Worklist : Type 0 where
  pub queued : List (NodeId × NodeId)
  pub work : List (NodeId × NodeId)

abbrev executable_target : NodeId → List NodeId
executable_target target = if is_end target then [] else target ∷ []

module _ {S E : Type 0} where
  unfoldable pub transition_alternatives : NodeId → EdgeAggregation S E → List (List NodeId)
  unfolding without_end
  transition_alternatives source edges =
      if is_end source then [] ∷ [] else elim (get source edges.fixed_by_source) [
        | some fixed ↦ executable_target fixed.successor ∷ []
        | none ↦ elim (get source edges.fan_out_by_source) [
          | some fan_out ↦ without_end fan_out.targets ∷ []
          | none ↦ elim (get source edges.conditional_fan_out_by_source) [
            | some fan_out ↦ without_end fan_out.allowed_targets ∷ []
            | none ↦ elim (get source edges.conditional_by_source) [
              | some edge ↦ map executable_target edge.allowed_targets
              | none ↦ [] ∷ []
            ]
          ]
        ]
      ]

module _ {S E N : Type 0} (items : Map NodeId (DeclaredItem S E N)) where
  unfoldable pub is_mount : NodeId → Bool
  is_mount node_id = elim (get node_id items) [ none ↦ false | some item ↦ is_subgraph item ]

  -- The body of the two loops over the pairs.
  unfoldable pub enqueue_pair : NodeId × NodeId → Worklist → Result Worklist GraphCompileError
  unfolding is_mount canonical_pair
  enqueue_pair (left, right) list =
      if is_mount left
      then err (subgraph_in_parallel_frontier left)
      else if is_mount right
      then err (subgraph_in_parallel_frontier right)
      else (let pair = canonical_pair left right in
          if contains pair list.queued
          then ok list
          else ok (record { queued = pair ∷ list.queued; work = list.work ++ pair ∷ [] }))

  unfoldable pub enqueue_pairs :
      List (NodeId × NodeId) → Worklist → Result Worklist GraphCompileError
  unfolding enqueue_pair
  enqueue_pairs [] list = ok list
  enqueue_pairs (pair ∷ rest) list = enqueue_pair pair list >>= λ list'. enqueue_pairs rest list'

  unfoldable pub enqueue_frontier : List NodeId → Worklist → Result Worklist GraphCompileError
  unfolding enqueue_pairs without_end distinct_from all_pairs
  enqueue_frontier frontier = enqueue_pairs (all_pairs (distinct_from [] (without_end frontier)))

  unfoldable pub enqueue_each : List (List NodeId) → Worklist → Result Worklist GraphCompileError
  unfolding enqueue_frontier
  enqueue_each [] list = ok list
  enqueue_each (frontier ∷ rest) list =
      enqueue_frontier frontier list >>= λ list'. enqueue_each rest list'

-- The frontiers of two alternatives, one of each side.
unfoldable pub joint_frontiers : List (List NodeId) → List (List NodeId) → List (List NodeId)
unfolding distinct_from
joint_frontiers [] rights = []
joint_frontiers (left ∷ lefts) rights =
    map (λ right. distinct_from [] (left ++ right)) rights ++ joint_frontiers lefts rights

module _ {S E N : Type 0} (graph : StateGraph S E N) (edges : EdgeAggregation S E) where
  -- The frontiers that a pair of parallel nodes leads to.
  unfoldable pub next_frontiers : NodeId × NodeId → List (List NodeId)
  unfolding joint_frontiers transition_alternatives
  next_frontiers (left, right) =
      joint_frontiers (transition_alternatives left edges) (transition_alternatives right edges)

  unfoldable pub drain : ℕ → Worklist → Option (Result (Unit {0}) GraphCompileError)
  unfolding next_frontiers enqueue_each
  drain zero list = elim list.work [ [] ↦ some (ok tt) | _ ∷ _ ↦ none ]
  drain (suc fuel) list = elim list.work [
    | [] ↦ some (ok tt)
    | pair ∷ rest ↦
        elim (enqueue_each graph.items (next_frontiers pair) (record list { work = rest })) [
          | err e ↦ some (err e)
          | ok list' ↦ drain fuel list'
        ]
  ]

  -- The frontiers of the declared fan-outs.
  abbrev pub declared_frontiers : List (List NodeId)
  declared_frontiers =
      map (λ e. e.targets) graph.fan_out_edges
      ++ map (λ e. e.allowed_targets) graph.conditional_fan_out_edges

  unfoldable pub has_mount : Map NodeId (DeclaredItem S E N) → Bool
  has_mount [] = false
  has_mount ((_, item) ∷ rest) = is_subgraph item || has_mount rest

  unfoldable pub validate_subgraph_frontiers : ℕ → Option (Result (Unit {0}) GraphCompileError)
  unfolding drain has_mount enqueue_each
  validate_subgraph_frontiers fuel =
      if not (has_mount graph.items)
        || is_empty edges.fan_out_by_source && is_empty edges.conditional_fan_out_by_source
      then some (ok tt)
      else elim (enqueue_each graph.items declared_frontiers (record { queued = []; work = [] })) [
        | err e ↦ some (err e)
        | ok list ↦ drain fuel list
      ]
