-- ===== src/Core/Runtime/Resume/Nodes.antt =====
-- Which nodes of a frontier the validation of a checkpoint in
-- crates/group-agent-core/src/runtime.rs accepts.
use group.Prelude.{
  ltb, if◌then◌else◌, nat_beq_iff, Bool-cases, ltb→le, get_elem?, ◌==◌, ==_iff, nat_eq, string_eq,
  bool_eq, option_eq, list_eq, contains, ok, err, ◌≤◌, ◌<◌, ◌≡◌, refl, sym, subst, ◌↔◌, ◌⊎◌, inl,
  inr, Bool, true, false, Option, none, some, List, [], ◌∷◌, arith,
}
use group.Core.Path.{GraphPath, graph_path_eq, node_path_eq}
use group.Core.Transition.{NodeIndex}
use group.Core.Graph.{
  CompiledNode, CompiledItem, node, enter_subgraph, exit_subgraph, CompiledGraph,
}
use group.Core.Runtime.Error.{
  CheckpointIncompatibility, mixed_frontier_namespace, duplicate_frontier_node,
  non_canonical_frontier_order,
}
use group.Core.Runtime.Route.{as_node}
use group.Core.Runtime.Resume.{
  Validated, add_node, nodes_of, check_distinct, check_namespace, check_namespaces, check_order,
  mixed_frontier_namespace, duplicate_frontier_node, non_canonical_frontier_order,
}
use group.Core.Runtime.Resume.Paths.{guard_iff}

-- The nodes at some indices.
abbrev pub NodesAt :
    {S E N : Type 0}
    → CompiledGraph S E N
    → List NodeIndex
    → List (NodeIndex × CompiledNode S E N)
    → Type 0
NodesAt graph [] [] = Unit {0}
NodesAt graph (index ∷ indices) ((i, compiled) ∷ rest) =
    (index ≡ i) × (get_elem? graph.items index ≡ some (node compiled)) × NodesAt graph indices rest
NodesAt graph indices nodes = ◌≡◌ {A = Bool} true false

abbrev pub InGraph : {S E N : Type 0} → GraphPath → List (NodeIndex × CompiledNode S E N) → Type 0
InGraph path [] = Unit {0}
InGraph path ((index, compiled) ∷ rest) = (compiled.graph_path ≡ path) × InGraph path rest

abbrev pub InOneGraph : {S E N : Type 0} → List (NodeIndex × CompiledNode S E N) → Type 0
InOneGraph [] = Unit {0}
InOneGraph ((index, compiled) ∷ rest) = InGraph compiled.graph_path rest

abbrev pub Ascending : {S E N : Type 0} → List (NodeIndex × CompiledNode S E N) → Type 0
Ascending [] = Unit {0}
Ascending ((i, a) ∷ []) = Unit {0}
Ascending ((i, a) ∷ (j, b) ∷ rest) = (i < j) × Ascending ((j, b) ∷ rest)

unless_iff :
    {A : Type 0} (test : Bool) (r : Validated A) (reason : CheckpointIncompatibility) (value : A)
    → ((if test then r else err reason) ≡ ok value) ↔ ((test ≡ true) × (r ≡ ok value))
unless_iff true r reason value = ((λ h. (refl, h)), (λ (p, q). q))
unless_iff false r reason value = ((λ h. cc), (λ (p, q). cc))

contains-added :
    (i j : NodeIndex) (seen : List NodeIndex)
    → contains j (i ∷ seen) ≡ true
    → (i ≡ j) ⊎ (contains j seen ≡ true)
unfolding contains
contains-added i j seen h = ground (arith, nat_beq_iff i j)

not_seen :
    (i : NodeIndex) (seen : List NodeIndex)
    → ((j : NodeIndex) → contains j seen ≡ true → j < i)
    → contains i seen ≡ false
not_seen i seen above = elim (Bool-cases (contains i seen)) [
  | inl e ↦ let less = above i e in absurd (omega arith)
  | inr e ↦ e
]

different :
    (i j : NodeIndex) (seen : List NodeIndex) → i ≤ j → contains j (i ∷ seen) ≡ false → i < j
unfolding contains
different i j seen le new = ground (arith, nat_beq_iff i j)

module _ {S E N : Type 0} where
  added :
      (index : NodeIndex) (found : Option (CompiledNode S E N))
      (rest : Option (List (NodeIndex × CompiledNode S E N)))
      (nodes : List (NodeIndex × CompiledNode S E N))
      → add_node index found rest ≡ some nodes
      → (compiled : CompiledNode S E N) × (later : List (NodeIndex × CompiledNode S E N)) × (found
          ≡ some compiled)
        × (rest ≡ some later)
        × (nodes ≡ (index, compiled) ∷ later)
  unfolding add_node
  added index (some compiled) (some later) nodes h = (compiled, later, refl, refl, (cc))
  added index (some compiled) none nodes h = absurd (cc)
  added index none rest nodes h = absurd (cc)

  as_node-some :
      (item : Option (CompiledItem S E N)) (compiled : CompiledNode S E N)
      → as_node item ≡ some compiled
      → item ≡ some (node compiled)
  as_node-some none compiled h = cc
  as_node-some (some (node c)) compiled h = cc
  as_node-some (some (enter_subgraph path transition)) compiled h = cc
  as_node-some (some (exit_subgraph path mount transition)) compiled h = cc

  pub nodes_of-NodesAt :
      (graph : CompiledGraph S E N) (indices : List NodeIndex)
      (nodes : List (NodeIndex × CompiledNode S E N))
      → nodes_of graph indices ≡ some nodes
      → NodesAt graph indices nodes
  unfolding nodes_of
  nodes_of-NodesAt graph [] [] h = tt
  nodes_of-NodesAt graph [] (first ∷ nodes) h = absurd (cc)
  nodes_of-NodesAt graph (index ∷ indices) nodes h =
      let (c, later, found, rest, same) =
        added index (as_node (get_elem? graph.items index)) (nodes_of graph indices) nodes h in
      subst (λ l. NodesAt graph (index ∷ indices) l) (sym same)
        (
          refl,
          as_node-some (get_elem? graph.items index) c found,
          nodes_of-NodesAt graph indices later rest,
        )

  pub NodesAt-nodes_of :
      (graph : CompiledGraph S E N) (indices : List NodeIndex)
      (nodes : List (NodeIndex × CompiledNode S E N))
      → NodesAt graph indices nodes
      → nodes_of graph indices ≡ some nodes
  unfolding nodes_of add_node
  NodesAt-nodes_of graph [] [] h = refl
  NodesAt-nodes_of graph [] (first ∷ nodes) h = absurd (cc)
  NodesAt-nodes_of graph (index ∷ indices) [] h = absurd (cc)
  NodesAt-nodes_of graph (index ∷ indices) ((i, compiled) ∷ nodes) (e, found, rest) =
      let later = NodesAt-nodes_of graph indices nodes rest in rw (found, later, e) refl

  check_namespace_iff :
      (path : GraphPath) (nodes : List (NodeIndex × CompiledNode S E N))
      → (check_namespace path nodes ≡ ok tt) ↔ InGraph path nodes
  unfolding check_namespace
  check_namespace_iff path [] = ((λ h. tt), (λ h. refl))
  check_namespace_iff path ((index, compiled) ∷ rest) =
      let later = check_namespace_iff path rest in
      let guard =
        unless_iff (compiled.graph_path == path) (check_namespace path rest)
          (mixed_frontier_namespace path compiled.graph_path compiled.path) tt in
      let same = ==_iff compiled.graph_path path in
      (
        (λ h. let (p, q) = guard.0 h in (same.0 p, later.0 q)),
        (λ (p, q). guard.1 (same.1 p, later.1 q)),
      )

  pub check_namespaces_iff :
      (nodes : List (NodeIndex × CompiledNode S E N))
      → (check_namespaces nodes ≡ ok tt) ↔ InOneGraph nodes
  unfolding check_namespaces
  check_namespaces_iff [] = ((λ h. tt), (λ h. refl))
  check_namespaces_iff ((index, compiled) ∷ rest) = check_namespace_iff compiled.graph_path rest

  -- The first of the nodes is above each of a list.
  abbrev pub Above : List NodeIndex → List (NodeIndex × CompiledNode S E N) → Type 0
  Above seen [] = Unit {0}
  Above seen ((i, a) ∷ rest) = (j : NodeIndex) → contains j seen ≡ true → j < i

  pub Above-none : (nodes : List (NodeIndex × CompiledNode S E N)) → Above [] nodes
  unfolding contains
  Above-none [] = tt
  Above-none ((i, a) ∷ rest) = λ j present. absurd (cc)

  pub Ascending-distinct :
      (seen : List NodeIndex) (nodes : List (NodeIndex × CompiledNode S E N))
      → Ascending nodes
      → Above seen nodes
      → check_distinct seen nodes ≡ ok tt
  unfolding check_distinct
  Ascending-distinct seen [] h above = refl
  Ascending-distinct seen ((i, a) ∷ []) h above =
      (guard_iff (contains i seen) (ok tt) (duplicate_frontier_node a.path) tt).1
        (not_seen i seen above, refl)
  Ascending-distinct seen ((i, a) ∷ (j, b) ∷ rest) (less, h) above =
      (guard_iff (contains i seen) (check_distinct (i ∷ seen) ((j, b) ∷ rest))
          (duplicate_frontier_node a.path) tt).1
        (
          not_seen i seen above,
          Ascending-distinct (i ∷ seen) ((j, b) ∷ rest) h (λ k present.
              elim (contains-added i k seen present) [
                | inl e ↦ omega arith
                | inr e ↦ let below = above k e in omega arith
              ]),
        )

  pub Ascending-ordered :
      (nodes : List (NodeIndex × CompiledNode S E N)) → Ascending nodes → check_order nodes ≡ ok tt
  unfolding check_order
  Ascending-ordered [] h = refl
  Ascending-ordered ((i, a) ∷ []) h = refl
  Ascending-ordered ((i, a) ∷ (j, b) ∷ rest) (less, h) =
      (guard_iff (ltb j i) (check_order ((j, b) ∷ rest))
          (non_canonical_frontier_order a.path b.path) tt).1
        ((ground arith), Ascending-ordered ((j, b) ∷ rest) h)

  pub checked-Ascending :
      (seen : List NodeIndex) (nodes : List (NodeIndex × CompiledNode S E N))
      → check_distinct seen nodes ≡ ok tt
      → check_order nodes ≡ ok tt
      → Ascending nodes
  unfolding check_distinct check_order
  checked-Ascending seen [] d o = tt
  checked-Ascending seen ((i, a) ∷ []) d o = tt
  checked-Ascending seen ((i, a) ∷ (j, b) ∷ rest) d o =
      let (p, q) =
        (guard_iff (contains i seen) (check_distinct (i ∷ seen) ((j, b) ∷ rest))
            (duplicate_frontier_node a.path) tt).0
          d in
      let (new, q') =
        (guard_iff (contains j (i ∷ seen)) (check_distinct (j ∷ i ∷ seen) rest)
            (duplicate_frontier_node b.path) tt).0
          q in
      let (le, r) =
        (guard_iff (ltb j i) (check_order ((j, b) ∷ rest))
            (non_canonical_frontier_order a.path b.path) tt).0
          o in
      (different i j seen (ltb→le j i le) new, checked-Ascending (i ∷ seen) ((j, b) ∷ rest) q r)
