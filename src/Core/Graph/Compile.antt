-- ===== src/Core/Graph/Compile.antt =====
-- `compile` of crates/group-agent-core/src/graph.rs. `fuel` bounds the rounds of
-- `validate_subgraph_frontiers`; without enough of it the outcome is `panicked`, as it is where
-- the source panics.
use group.Prelude.{
  leb, if◌then◌else◌, sort_by, Map, get, insert, nat_eq, string_eq, bool_eq, option_eq, list_eq,
  Result, ℕ, Option, none, some, List, [], ◌∷◌,
}
use group.Core.Path.{NodeId, is_end, start, end, root, child, new, graph_path_eq, node_path_eq}
use group.Core.Transition.{
  NodeIndex, CompiledTransition, fixed, static_fan_out, conditional, conditional_fan_out,
}
use group.Core.Graph.{
  enter_subgraph, exit_subgraph, CompiledGraph, DeclaredItem, declared_node, declared_subgraph,
  StateGraph, GraphCompileError, missing_outgoing_edge,
}
use group.Core.Graph.Edges.{EdgeAggregation, aggregate_edges, validate_edge_shapes}
use group.Core.Graph.Frontiers.{validate_subgraph_frontiers}
use group.Core.Graph.Topology.{Search, item_ids, topology_indices, topology, validate_reachability}
use group.Core.Graph.Flat.{
  Outcome, returned, rejected, panicked, ◌>>=◌, expect, try, FlatBuilder, allocate, set_item,
  insert_node, append_graph, finish_items,
}
use group.Core.Graph.Flat

-- The closure `target`: `None` for `END`.
unfoldable pub entry_of : Map NodeId NodeIndex → NodeId → Outcome (Option NodeIndex)
entry_of entries id =
    if is_end id then returned none else (expect (get id entries) >>= λ i. returned (some i))

-- `filter_map(target)`.
unfoldable pub entries_of : Map NodeId NodeIndex → List NodeId → Outcome (List NodeIndex)
unfolding entry_of
entries_of entries [] = returned []
entries_of entries (id ∷ rest) = entry_of entries id >>= λ target.
    entries_of entries rest >>= λ targets.
    returned (elim target [ none ↦ targets | some i ↦ i ∷ targets ])

-- The identifiers with their targets, collected into an `IndexMap`.
unfoldable pub collect_allowed :
    Map NodeId NodeIndex
    → List NodeId
    → Map NodeId (Option NodeIndex)
    → Outcome (Map NodeId (Option NodeIndex))
unfolding entry_of
collect_allowed entries [] m = returned m
collect_allowed entries (id ∷ rest) m =
    entry_of entries id >>= λ target. collect_allowed entries rest (insert id target m)

module _ {S E : Type 0} where
  unfoldable pub compile_transition :
      NodeId → EdgeAggregation S E → Map NodeId NodeIndex → Outcome (CompiledTransition S E)
  unfolding entries_of collect_allowed sort_by
  compile_transition id edges entries = elim (get id edges.fixed_by_source) [
    | some outgoing ↦ entry_of entries outgoing.successor >>= λ target. returned (fixed target)
    | none ↦ elim (get id edges.fan_out_by_source) [
      | some edge ↦ entries_of entries edge.targets >>= λ targets.
          returned (static_fan_out (sort_by leb targets))
      | none ↦ elim (get id edges.conditional_by_source) [
        | some edge ↦ collect_allowed entries edge.allowed_targets [] >>= λ allowed.
            returned (conditional edge.router allowed)
        | none ↦ elim (get id edges.conditional_fan_out_by_source) [
          | some edge ↦ collect_allowed entries edge.allowed_targets [] >>= λ allowed.
              returned (conditional_fan_out edge.router allowed)
          | none ↦ rejected (missing_outgoing_edge id)
        ]
      ]
    ]
  ]

-- `item_entries` and `mount_exits`.
pub record Allocation (S E N : Type 0) : Type 0 where
  pub builder : FlatBuilder S E N
  pub item_entries : Map NodeId NodeIndex
  pub mount_exits : Map NodeId NodeIndex

-- `child_entry.or(Some(exit))`.
abbrev pub entry_or : Option NodeIndex → NodeIndex → Option NodeIndex
entry_or none exit = some exit
entry_or (some entry) exit = some entry

module _ {S E N : Type 0} where
  unfoldable pub allocate_item : NodeId → DeclaredItem S E N → Allocation S E N → Allocation S E N
  unfolding allocate
  allocate_item id (declared_node kind) a =
      let (entry, builder) = allocate a.builder in
      record a { builder = builder; item_entries = insert id entry a.item_entries }
  allocate_item id (declared_subgraph child) a =
      let (entry, b) = allocate a.builder in
      let (exit, builder) = allocate b in
      record {
        builder = builder;
        item_entries = insert id entry a.item_entries;
        mount_exits = insert id exit a.mount_exits;
      }

  -- The loop that allocates the items of the parent.
  unfoldable pub allocate_items :
      Map NodeId (DeclaredItem S E N) → Allocation S E N → Allocation S E N
  unfolding allocate_item
  allocate_items [] a = a
  allocate_items ((id, item) ∷ rest) a = allocate_items rest (allocate_item id item a)

  -- The branch for a mounted subgraph, in the loop that fills the items of the parent.
  unfoldable pub place_subgraph :
      NodeId
      → CompiledGraph S E N
      → NodeIndex
      → NodeIndex
      → CompiledTransition S E
      → FlatBuilder S E N
      → Outcome (FlatBuilder S E N)
  unfolding append_graph set_item
  place_subgraph id subgraph entry exit transition b =
      let graph_path = child root id in
      append_graph subgraph graph_path b >>= λ (child_entry, b₁).
      set_item entry (enter_subgraph graph_path (fixed (entry_or child_entry exit))) b₁ >>= λ b₂.
      set_item exit (exit_subgraph graph_path (new root id) transition) b₂ >>= λ b₃.
      returned (record b₃ { scope_exits = insert graph_path exit b₃.scope_exits })

  unfoldable pub place_item :
      Map NodeId NodeIndex
      → Map NodeId NodeIndex
      → NodeId
      → DeclaredItem S E N
      → CompiledTransition S E
      → FlatBuilder S E N
      → Outcome (FlatBuilder S E N)
  unfolding place_subgraph insert_node
  place_item entries exits id (declared_node kind) transition b =
      expect (get id entries) >>= λ entry.
      insert_node entry
        (record { path = new root id; graph_path = root; kind = kind; transition = transition }) b
  place_item entries exits id (declared_subgraph subgraph) transition b =
      expect (get id exits) >>= λ exit.
      expect (get id entries) >>= λ entry. place_subgraph id subgraph entry exit transition b

  unfoldable pub place_items :
      EdgeAggregation S E
      → Map NodeId NodeIndex
      → Map NodeId NodeIndex
      → Map NodeId (DeclaredItem S E N)
      → FlatBuilder S E N
      → Outcome (FlatBuilder S E N)
  unfolding compile_transition place_item
  place_items edges entries exits [] b = returned b
  place_items edges entries exits ((id, item) ∷ rest) b =
      compile_transition id edges entries >>= λ transition.
      place_item entries exits id item transition b >>= λ b'.
      place_items edges entries exits rest b'

  -- `compile`, after the validation.
  unfoldable pub flatten : StateGraph S E N → EdgeAggregation S E → Outcome (CompiledGraph S E N)
  unfolding allocate_items place_items finish_items entry_of
  flatten graph edges =
      let a =
        allocate_items graph.items
          (record { builder = Flat.new; item_entries = []; mount_exits = [] }) in
      place_items edges a.item_entries a.mount_exits graph.items a.builder >>= λ b.
      expect (get start edges.fixed_by_source) >>= λ outgoing.
      entry_of a.item_entries outgoing.successor >>= λ entry. finish_items b.items >>= λ items.
      returned (record {
        items = items;
        node_paths = b.node_paths;
        scope_exits = b.scope_exits;
        entry_index = entry;
        version = graph.version;
      })

-- A search for the worklist that may have run out of fuel.
abbrev pub try_option : {A : Type 0} → Option (Result A GraphCompileError) → Outcome A
try_option none = panicked
try_option (some r) = try r

module _ (dfs : Search) (fuel : ℕ) {S E N : Type 0} where
  unfoldable pub validate : StateGraph S E N → EdgeAggregation S E → Outcome (Unit {0})
  unfolding topology_indices topology validate_reachability validate_subgraph_frontiers
  validate graph edges =
      let indices = topology_indices (item_ids graph) in
      topology indices graph >>= λ arrows. expect (get start indices) >>= λ start_index.
      expect (get end indices) >>= λ end_index.
      validate_reachability edges indices (dfs arrows start_index) end_index (item_ids graph)
      >>= λ _. try_option (validate_subgraph_frontiers graph edges fuel)

  unfoldable pub compile : StateGraph S E N → Outcome (CompiledGraph S E N)
  unfolding aggregate_edges validate_edge_shapes validate flatten
  compile graph = try (aggregate_edges graph) >>= λ edges.
      try (validate_edge_shapes edges (item_ids graph)) >>= λ _.
      validate graph edges >>= λ _. flatten graph edges
