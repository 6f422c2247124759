-- ===== src/Core/Runtime/Resume.antt =====
-- `validate_and_resolve_checkpoint_frontier` of crates/group-agent-core/src/runtime.rs, and the
-- resume value of a checkpoint. An index of `node_paths` that is no node, where the source panics,
-- is `none`. A path has a segment by construction; an empty one is an unknown node here.
pub mod Paths
pub mod Nodes
pub mod Accepted
use group.Prelude.{
  ltb, nat_beq, if◌then◌else◌, length, get_elem?, head?, is_empty, Map, is_some, get, ◌==◌, nat_eq,
  string_eq, bool_eq, option_eq, list_eq, contains, Result, ◌>>=◌, ok, err, Bool, not, ◌&&◌, ◌||◌,
  Option, none, some, List, [], ◌∷◌,
}
use group.Core.Path.{
  NodeId, GraphPath, NodePath, leaf, is_start, is_end, graph_path_eq, node_path_eq,
}
use group.Core.Record.{GraphVersion}
use group.Core.Transition.{NodeIndex}
use group.Core.Graph.{CompiledNode, CompiledGraph}
use group.Core.Checkpoint.{CheckpointInterrupt, Checkpoint}
use group.Core.Runtime.Route.{as_node}
use group.Core.Runtime.Error.{
  CheckpointIncompatibility, unversioned_checkpoint, unversioned_graph, graph_version_mismatch,
  unknown_frontier_node, duplicate_frontier_node, non_canonical_frontier_order,
  mixed_frontier_namespace, start_in_frontier, end_in_frontier, completed_with_frontier,
  incomplete_without_frontier, completed_interrupt, invalid_interrupt_frontier,
}

abbrev pub Validated : Type 0 → Type 0
Validated A = Result A CheckpointIncompatibility

unfoldable pub check_version : Option GraphVersion → Option GraphVersion → Validated (Unit {0})
check_version none compiled = err unversioned_checkpoint
check_version (some checkpoint) none = err unversioned_graph
check_version (some checkpoint) (some compiled) =
    if checkpoint == compiled then ok tt else err (graph_version_mismatch checkpoint compiled)

-- The tests of the completion and of the interrupt.
unfoldable pub check_shape :
    {P : Type 0} → Bool → List NodePath → Option (CheckpointInterrupt P) → Validated (Unit {0})
check_shape completed frontier waiting =
    if completed && not (is_empty frontier)
    then err completed_with_frontier
    else if not completed && is_empty frontier
    then err incomplete_without_frontier
    else if completed && is_some waiting
    then err completed_interrupt
    else elim waiting [
      | none ↦ ok tt
      | some stopped ↦
          if not (nat_beq (length frontier) 1) || not (head? frontier == some stopped.node_path)
          then err (invalid_interrupt_frontier stopped.node_path frontier)
          else ok tt
    ]

-- A path of the frontier, from its last segment and the index that it has.
unfoldable pub resolve_leaf : NodePath → Option NodeId → Option NodeIndex → Validated NodeIndex
resolve_leaf path none found = err (unknown_frontier_node path)
resolve_leaf path (some id) none =
    if is_start id
    then err start_in_frontier
    else if is_end id
    then err end_in_frontier
    else err (unknown_frontier_node path)
resolve_leaf path (some id) (some index) =
    if is_start id
    then err start_in_frontier
    else if is_end id
    then err end_in_frontier
    else ok index

-- A path of the frontier, as an index.
unfoldable pub resolve_path : Map NodePath NodeIndex → NodePath → Validated NodeIndex
unfolding resolve_leaf leaf
resolve_path node_paths path = resolve_leaf path (leaf path) (get path node_paths)

unfoldable pub resolve_paths : Map NodePath NodeIndex → List NodePath → Validated (List NodeIndex)
unfolding resolve_path
resolve_paths node_paths [] = ok []
resolve_paths node_paths (path ∷ rest) = resolve_path node_paths path >>= λ index.
    resolve_paths node_paths rest >>= λ indices. ok (index ∷ indices)

module _ {S E N : Type 0} where
  unfoldable pub add_node :
      NodeIndex
      → Option (CompiledNode S E N)
      → Option (List (NodeIndex × CompiledNode S E N))
      → Option (List (NodeIndex × CompiledNode S E N))
  add_node index (some compiled) (some nodes) = some ((index, compiled) ∷ nodes)
  add_node index (some compiled) none = none
  add_node index none nodes = none

  -- The nodes of a frontier with their indices, or a panic.
  unfoldable pub nodes_of :
      CompiledGraph S E N → List NodeIndex → Option (List (NodeIndex × CompiledNode S E N))
  unfolding add_node
  nodes_of graph [] = some []
  nodes_of graph (index ∷ rest) =
      add_node index (as_node (get_elem? graph.items index)) (nodes_of graph rest)

  -- The loop with a `HashSet` of the indices that were seen.
  unfoldable pub check_distinct :
      List NodeIndex → List (NodeIndex × CompiledNode S E N) → Validated (Unit {0})
  check_distinct seen [] = ok tt
  check_distinct seen ((index, compiled) ∷ rest) =
      if contains index seen
      then err (duplicate_frontier_node compiled.path)
      else check_distinct (index ∷ seen) rest

  unfoldable pub check_namespace :
      GraphPath → List (NodeIndex × CompiledNode S E N) → Validated (Unit {0})
  check_namespace expected [] = ok tt
  check_namespace expected ((index, compiled) ∷ rest) =
      if compiled.graph_path == expected
      then check_namespace expected rest
      else err (mixed_frontier_namespace expected compiled.graph_path compiled.path)

  unfoldable pub check_namespaces : List (NodeIndex × CompiledNode S E N) → Validated (Unit {0})
  unfolding check_namespace
  check_namespaces [] = ok tt
  check_namespaces ((index, compiled) ∷ rest) = check_namespace compiled.graph_path rest

  -- The loop over `windows(2)`.
  unfoldable pub check_order : List (NodeIndex × CompiledNode S E N) → Validated (Unit {0})
  check_order [] = ok tt
  check_order ((i, a) ∷ []) = ok tt
  check_order ((i, a) ∷ (j, b) ∷ rest) =
      let later = check_order ((j, b) ∷ rest) in
      if ltb j i then err (non_canonical_frontier_order a.path b.path) else later

  unfoldable pub check_nodes :
      Option (List (NodeIndex × CompiledNode S E N))
      → List NodeIndex
      → Option (Validated (List NodeIndex))
  unfolding check_distinct check_namespace check_order
  check_nodes none frontier = none
  check_nodes (some nodes) frontier = some (
      check_distinct [] nodes >>= λ _.
      check_namespaces nodes >>= λ _. check_order nodes >>= λ _. ok frontier)

  unfoldable pub check_resolved :
      CompiledGraph S E N → Validated (List NodeIndex) → Option (Validated (List NodeIndex))
  unfolding nodes_of check_distinct check_namespace check_order
  check_resolved graph (err reason) = some (err reason)
  check_resolved graph (ok frontier) = check_nodes (nodes_of graph frontier) frontier

  unfoldable pub validate_and_resolve_checkpoint_frontier :
      {C P : Type 0} → CompiledGraph S E N → Checkpoint C P → Option (Validated (List NodeIndex))
  unfolding check_version check_shape resolve_paths nodes_of check_distinct check_namespace
      check_order
  validate_and_resolve_checkpoint_frontier graph checkpoint = check_resolved graph (
      check_version checkpoint.graph_version graph.version >>= λ _.
      check_shape checkpoint.completed checkpoint.next_frontier checkpoint.interrupt >>= λ _.
      resolve_paths graph.node_paths checkpoint.next_frontier)
