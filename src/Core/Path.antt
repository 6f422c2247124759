-- ===== src/Core/Path.antt =====
-- Node identifiers and the two kinds of structured path: `NodeId` of
-- crates/group-agent-core/src/edge.rs, and crates/group-agent-core/src/path.rs. A panic of the
-- source (`expect`, `assert!`) is `none`.
pub mod Laws
pub mod Display
pub mod Tests
use group.Prelude.{
  ℕ, zero, suc, String, Bool, ◌||◌, ◌&&◌, List, [], ◌∷◌, ◌++◌, map, Option, none, some, length,
  last?, init, take, ◌==◌, Eq, ◌≡◌, ◌↔◌, arith, list_beq, list_beq_iff, if◌then◌else◌, string_eq,
  option_beq, nat_beq, true, false,
}

-- The text is the identifier.
abbrev pub NodeId : Type 0
NodeId = String

abbrev pub start : NodeId
start = "__start__"

abbrev pub end : NodeId
end = "__end__"

unfoldable pub is_start : NodeId → Bool
is_start node_id = node_id == start

unfoldable pub is_end : NodeId → Bool
is_end node_id = node_id == end

unfoldable pub is_reserved : NodeId → Bool
unfolding is_start is_end
is_reserved node_id = is_start node_id || is_end node_id

pub record GraphPath : Type 0 where
  pub segments : List NodeId

pub record NodePath : Type 0 where
  pub segments : List NodeId

pub graph_path_beq_iff : (a b : GraphPath) → (list_beq a.segments b.segments ≡ true) ↔ (a ≡ b)
graph_path_beq_iff a b = ground (arith, list_beq_iff a.segments b.segments)

pub node_path_beq_iff : (a b : NodePath) → (list_beq a.segments b.segments ≡ true) ↔ (a ≡ b)
node_path_beq_iff a b = ground (arith, list_beq_iff a.segments b.segments)

instance abbrev pub graph_path_eq : Eq GraphPath
graph_path_eq = record {
  equal = λ a b. list_beq a.segments b.segments;
  equal_iff = graph_path_beq_iff;
}

instance abbrev pub node_path_eq : Eq NodePath
node_path_eq = record {
  equal = λ a b. list_beq a.segments b.segments;
  equal_iff = node_path_beq_iff;
}

-- `GraphPath::root`.
abbrev pub root : GraphPath
root = record { segments = [] }

unfoldable pub is_root : GraphPath → Bool
is_root path = elim path.segments [ [] ↦ true | _ ∷ _ ↦ false ]

-- `GraphPath::child`.
unfoldable pub child : GraphPath → NodeId → GraphPath
child path segment = record { segments = path.segments ++ segment ∷ [] }

-- `GraphPath::prefixed`.
unfoldable pub graph_prefixed : GraphPath → GraphPath → GraphPath
graph_prefixed path prefix = record { segments = prefix.segments ++ path.segments }

-- The range `first..first + count`.
abbrev range_from : ℕ → ℕ → List ℕ
range_from zero first = []
range_from (suc count) first = first ∷ range_from count (suc first)

-- `GraphPath::prefixes`: one path for each length in `1..=len`.
unfoldable pub prefixes : GraphPath → List GraphPath
prefixes path =
    map (λ n. record { segments = take n path.segments }) (range_from (length path.segments) 1)

-- `GraphPath::mount_path`.
unfoldable pub mount_path : GraphPath → Option NodePath
unfolding is_root
mount_path path = if is_root path then none else some (record { segments = path.segments })

-- `NodePath::root`.
abbrev pub node_root : NodeId → NodePath
node_root node_id = record { segments = node_id ∷ [] }

-- `NodePath::new`.
unfoldable pub new : GraphPath → NodeId → NodePath
new graph_path node_id = record { segments = graph_path.segments ++ node_id ∷ [] }

unfoldable pub leaf : NodePath → Option NodeId
leaf path = last? path.segments

-- `NodePath::graph_path`: the slice `..len - 1`.
unfoldable pub graph_path : NodePath → Option GraphPath
graph_path path = elim path.segments [
  | [] ↦ none
  | _ ∷ _ ↦ some (record { segments = init path.segments })
]

-- `NodePath::prefixed`.
unfoldable pub node_prefixed : NodePath → GraphPath → NodePath
node_prefixed path prefix = record { segments = prefix.segments ++ path.segments }

-- `NodePath == NodeId`.
unfoldable pub eq_node_id : NodePath → NodeId → Bool
unfolding leaf
eq_node_id path other = nat_beq (length path.segments) 1 && option_beq (leaf path) (some other)
