-- ===== src/Core/Runtime/Resume/Accepted.antt =====
-- Which checkpoints `validate_and_resolve_checkpoint_frontier` of
-- crates/group-agent-core/src/runtime.rs accepts.
use group.Prelude.{
  is_empty, nat_eq, string_eq, bool_eq, option_eq, list_eq, ◌>>=◌, >>=-eq-ok, ok, err, ◌≡◌, refl,
  ap, ◌∙◌, subst, ◌↔◌, Option, none, some, List, [],
}
use group.Core.Path.{graph_path_eq, node_path_eq}
use group.Core.Record.{GraphVersion}
use group.Core.Transition.{NodeIndex}
use group.Core.Graph.{CompiledNode, CompiledGraph}
use group.Core.Checkpoint.{Checkpoint}
use group.Core.Runtime.Resume.{
  Validated, check_version, check_shape, nodes_of, check_distinct, check_namespaces, check_order,
  check_nodes, check_resolved, validate_and_resolve_checkpoint_frontier,
}
use group.Core.Runtime.Resume.Paths.{
  Waits, Resolves, check_version_iff, check_shape_iff, resolved-Resolves, Resolves-resolved,
}
use group.Core.Runtime.Resume.Nodes.{
  NodesAt, InOneGraph, Ascending, nodes_of-NodesAt, NodesAt-nodes_of, check_namespaces_iff,
  Above-none, Ascending-distinct, Ascending-ordered, checked-Ascending,
}

module _ {S E N : Type 0} where
  nodes_accepted :
      (found : Option (List (NodeIndex × CompiledNode S E N))) (frontier accepted : List NodeIndex)
      → check_nodes found frontier ≡ some (ok accepted)
      → (nodes : List (NodeIndex × CompiledNode S E N)) × (found ≡ some nodes)
        × (frontier ≡ accepted)
        × InOneGraph nodes
        × Ascending nodes
  unfolding check_nodes
  nodes_accepted none frontier accepted h = absurd (cc)
  nodes_accepted (some nodes) frontier accepted h =
      let r : Validated (List NodeIndex) = check_distinct [] nodes >>= λ _.
      check_namespaces nodes >>= λ _. check_order nodes >>= λ _. ok frontier in
      let e : r ≡ ok accepted = cc in
      let (d, p, q) = >>=-eq-ok (check_distinct [] nodes) _ e in
      let (n, p', q') = >>=-eq-ok (check_namespaces nodes) _ q in
      let (o, p'', q'') = >>=-eq-ok (check_order nodes) _ q' in
      (nodes, refl, (cc), (check_namespaces_iff nodes).0 p', checked-Ascending [] nodes p p'')

  resolved_accepted :
      (graph : CompiledGraph S E N) (r : Validated (List NodeIndex)) (frontier : List NodeIndex)
      → check_resolved graph r ≡ some (ok frontier)
      → (f : List NodeIndex) × (r ≡ ok f) × (check_nodes (nodes_of graph f) f ≡ some (ok frontier))
  unfolding check_resolved
  resolved_accepted graph (ok f) frontier h = (f, refl, h)
  resolved_accepted graph (err reason) frontier h = absurd (cc)

-- The checkpoint has the version of the graph, is complete exactly if no node is left, waits at its
-- one node if it is interrupted, and its paths name different nodes of one graph, in the order of
-- their indices.
pub record IsResumable {S E N C P : Type 0} (graph : CompiledGraph S E N)
    (checkpoint : Checkpoint C P) (frontier : List NodeIndex) : Type 0 where
  pub version : GraphVersion
  pub saved_version : checkpoint.graph_version ≡ some version
  pub compiled_version : graph.version ≡ some version
  pub completes : checkpoint.completed ≡ is_empty checkpoint.next_frontier
  pub waits : Waits checkpoint.next_frontier checkpoint.interrupt
  pub resolves : Resolves graph.node_paths checkpoint.next_frontier frontier
  pub nodes : List (NodeIndex × CompiledNode S E N)
  pub nodes_at : NodesAt graph frontier nodes
  pub one_graph : InOneGraph nodes
  pub ascending : Ascending nodes

module _ {S E N C P : Type 0} (graph : CompiledGraph S E N) (checkpoint : Checkpoint C P)
    (frontier : List NodeIndex) where
  accepted-IsResumable :
      validate_and_resolve_checkpoint_frontier graph checkpoint ≡ some (ok frontier)
      → IsResumable graph checkpoint frontier
  unfolding validate_and_resolve_checkpoint_frontier
  accepted-IsResumable h =
      let (f, e, c) = resolved_accepted graph _ frontier h in
      let (u, p, e') = >>=-eq-ok (check_version checkpoint.graph_version graph.version) _ e in
      let (v, q, r) =
        >>=-eq-ok (check_shape checkpoint.completed checkpoint.next_frontier checkpoint.interrupt) _
          e' in
      let (version, saved, compiled) =
        (check_version_iff checkpoint.graph_version graph.version).0 p in
      let (completes, waits) =
        (check_shape_iff checkpoint.completed checkpoint.next_frontier checkpoint.interrupt).0 q in
      let (nodes, found, same, one_graph, ascending) =
        nodes_accepted (nodes_of graph f) f frontier c in
      record {
        version = version;
        saved_version = saved;
        compiled_version = compiled;
        completes = completes;
        waits = waits;
        resolves =
            resolved-Resolves graph.node_paths checkpoint.next_frontier frontier (r ∙ ap ok same);
        nodes = nodes;
        nodes_at = subst (λ l. NodesAt graph l nodes) same (nodes_of-NodesAt graph f nodes found);
        one_graph = one_graph;
        ascending = ascending;
      }

  IsResumable-accepted :
      IsResumable graph checkpoint frontier
      → validate_and_resolve_checkpoint_frontier graph checkpoint ≡ some (ok frontier)
  unfolding validate_and_resolve_checkpoint_frontier check_resolved check_nodes
  IsResumable-accepted h =
      let (v, a, b) : (v : GraphVersion) × (checkpoint.graph_version ≡ some v)
          × (graph.version ≡ some v) =
        (h.version, h.saved_version, h.compiled_version) in
      let p = (check_version_iff checkpoint.graph_version graph.version).1 (v, a, b) in
      let q =
        (check_shape_iff checkpoint.completed checkpoint.next_frontier checkpoint.interrupt).1
          (h.completes, h.waits) in
      let r = Resolves-resolved graph.node_paths checkpoint.next_frontier frontier h.resolves in
      let n = NodesAt-nodes_of graph frontier h.nodes h.nodes_at in
      let d = Ascending-distinct [] h.nodes h.ascending (Above-none h.nodes) in
      let c = (check_namespaces_iff h.nodes).1 h.one_graph in
      let o = Ascending-ordered h.nodes h.ascending in rw (p, q, r, n, d, c, o) refl

  -- The validation of a checkpoint that is to be continued accepts it, with a frontier of indices,
  -- exactly when the checkpoint has the version of the compiled graph, which both have; it is
  -- complete exactly if its frontier is empty; an interrupt waits at the one node of the frontier;
  -- each path of the frontier ends neither in `START` nor in `END` and is the path of the index at
  -- its place; and the indices are of nodes of one namespace and strictly ascend.
  pub validate-IsResumable :
      (validate_and_resolve_checkpoint_frontier graph checkpoint ≡ some (ok frontier))
      ↔ IsResumable graph checkpoint frontier
  validate-IsResumable = (accepted-IsResumable, IsResumable-accepted)
