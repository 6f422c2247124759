-- ===== src/Core/Graph/Flat/Total.antt =====
-- `FlatBuilder::append_graph` of crates/group-agent-core/src/graph.rs does not panic on a child
-- whose indices are in range.
use group.Prelude.{
  Bool-cases, lt→ltb, length, get_elem?, set, All, length-append, Among, Among-nil, Among-cases,
  at_head, Map, insert, contains_key, get-insert, ◌==◌, ==_iff, nat_eq, string_eq, bool_eq,
  option_eq, list_eq, ℕ, zero, suc, ◌+◌, ◌<◌, ◌≡◌, refl, sym, ap, ◌⊎◌, inl, inr, true, false,
  Option, none, some, List, [], ◌∷◌, ◌++◌, arith,
}
use group.Core.Path.{NodePath, GraphPath, graph_path_eq, node_path_eq, graph_prefixed}
use group.Core.Transition.{NodeIndex}
use group.Core.Graph.{
  duplicate_node_path, CompiledNode, GraphCompileError, CompiledItem, node, enter_subgraph,
  exit_subgraph, CompiledGraph,
}
use group.Core.Graph.Flat.{
  Outcome, returned, rejected, panicked, FlatBuilder, set_item, insert_node, append_item,
  append_items, append_exits, allocate, allocate_each, mapped_entry, append_graph,
}
use group.Core.Graph.Flat.Clash.{
  placed_path, placed_paths, Clashes, Keeps, Keeps-same, nothing-Clashes, Clashes-known,
  Clashes-first, Keeps-later,
}
use group.Core.Graph.Flat.Append.{allocate_each-items, allocate_each-mapping, placeholders}
use group.Core.Graph.Flat.Range.{IsTargetBelow, IsItemBelow, IsInRange, remap-some}

length-set : {A : Type 0} (xs : List A) (i : ℕ) (a : A) → length (set xs i a) ≡ length xs
length-set [] i a = refl
length-set (x ∷ xs) zero a = refl
length-set (x ∷ xs) (suc i) a = ap suc (length-set xs i a)

Outcome-cases :
    {A : Type 0} (r : Outcome A)
    → ((a : A) × (r ≡ returned a)) ⊎ (((e : GraphCompileError) × (r ≡ rejected e)) ⊎ (r ≡ panicked))
Outcome-cases (returned a) = inl (a, refl)
Outcome-cases (rejected e) = inr (inl (e, refl))
Outcome-cases panicked = inr (inr refl)

module _ {S E N : Type 0} where
  set_item-Keeps :
      (index : NodeIndex) (item : CompiledItem S E N) (b : FlatBuilder S E N)
      → index < length b.items
      → Keeps b [] (set_item index item b)
  unfolding set_item
  set_item-Keeps index item b h =
      rw (lt→ltb index (length b.items) h, set_item)
        (Keeps-same b (record b { items = set b.items index (some item) })
          (length-set b.items index (some item)) refl)

  insert_node-Keeps :
      (index : NodeIndex) (c : CompiledNode S E N) (b : FlatBuilder S E N)
      → index < length b.items
      → Keeps b (c.path ∷ []) (insert_node index c b)
  unfolding insert_node
  insert_node-Keeps index c b h = elim (Bool-cases (contains_key c.path b.node_paths)) [
    | inl e ↦
        rw (e, insert_node)
          (c.path, refl, record { before = []; after = []; place = refl; taken = inl e })
    | inr e ↦
        rw (e, insert_node, lt→ltb index (length b.items) h, set_item)
          (
            length-set b.items index (some (node c)),
            λ p. (
              λ k. elim (Bool-cases (c.path == p)) [
                | inl same ↦ inr (at_head c.path [] (sym ((==_iff c.path p).0 same)))
                | inr other ↦ inl (ground (arith, get-insert c.path p index b.node_paths))
              ],
              λ k. elim k [
                | inl old ↦ ground (arith, get-insert c.path p index b.node_paths)
                | inr m ↦
                    let same = (==_iff c.path p).1 (sym (single p m)) in
                    ground (arith, get-insert c.path p index b.node_paths)
              ],
            ),
            λ p k. absurd (alone p k e),
          )
  ]
    where
      single : (p : NodePath) → Among p (c.path ∷ []) → p ≡ c.path
      single p m = elim (Among-cases p c.path [] m) [ inl e ↦ e | inr n ↦ absurd (Among-nil p n) ]

      alone :
          (p : NodePath) → Clashes b (c.path ∷ []) p → contains_key c.path b.node_paths ≡ false → ⊥
      alone p k fresh = first k.before k.place k.taken
        where
          first :
              (before : List NodePath)
              → c.path ∷ [] ≡ before ++ p ∷ k.after
              → (contains_key p b.node_paths ≡ true) ⊎ Among p before
              → ⊥
          first [] h (inl old) = let same : p ≡ c.path = cc in cc
          first [] h (inr m) = Among-nil p m
          first (x ∷ []) h t = cc
          first (x ∷ y ∷ before) h t = cc

  module _ (n : ℕ) (mapping : List NodeIndex)
      (maps : (i : NodeIndex) → i < n → (j : NodeIndex) × (get_elem? mapping i ≡ some j))
      (prefix : GraphPath) where
    append_item-Keeps :
        (index : NodeIndex) (item : CompiledItem S E N) (b : FlatBuilder S E N)
        → index < length b.items
        → IsItemBelow n item
        → Keeps b (placed_path prefix item) (append_item mapping prefix index item b)
    unfolding append_item
    append_item-Keeps index (node c) b h below =
        let (t, e) = remap-some n mapping maps c.transition below in
        rw (e, append_item) (insert_node-Keeps index _ b h)
    append_item-Keeps index (enter_subgraph g c) b h below =
        let (t, e) = remap-some n mapping maps c below in
        rw (e, append_item) (set_item-Keeps index _ b h)
    append_item-Keeps index (exit_subgraph g m c) b h below =
        let (t, e) = remap-some n mapping maps c below in
        rw (e, append_item) (set_item-Keeps index _ b h)

    append_items-Keeps :
        (k : NodeIndex) (items : List (CompiledItem S E N)) (b : FlatBuilder S E N)
        → k + length items ≡ n
        → ((i j : NodeIndex) → get_elem? mapping i ≡ some j → j < length b.items)
        → All (IsItemBelow n) items
        → Keeps b (placed_paths prefix items) (append_items mapping prefix k items b)
    unfolding append_items
    append_items-Keeps k [] b l bound below = Keeps-same b b refl refl
    append_items-Keeps k (item ∷ items) b l bound below =
        let (index, found) = maps k (omega (arith, l)) in
        let step = append_item-Keeps index item b (bound k index found) (below.0) in
        elim (Outcome-cases (append_item mapping prefix index item b)) [
          | inr (inr e) ↦ absurd (rw e at step)
          | inr (inl (reason, e)) ↦
              let (p, why, c) = rw e at step in
              rw (found, append_items)
                (rw e (
                  p,
                  why,
                  Clashes-first b (placed_path prefix item) (placed_paths prefix items) p c,
                ))
          | inl (next, e) ↦
              let (same, grows, free) = rw e at step in
              let rest =
                append_items-Keeps (suc k) items next (omega (arith, l))
                  (λ i j f. rw same (bound i j f)) (below.1) in
              rw (found, append_items)
                (rw e (
                  Keeps-later b (placed_path prefix item) (placed_paths prefix items) next grows
                    (append_items mapping prefix (suc k) items next) same free rest))
        ]

    append_exits-Keeps :
        (exits : Map GraphPath NodeIndex) (b : FlatBuilder S E N)
        → All (λ x. x.1 < n) exits
        → Keeps b [] (append_exits mapping prefix exits b)
    unfolding append_exits
    append_exits-Keeps [] b h = Keeps-same b b refl refl
    append_exits-Keeps ((path, exit) ∷ exits) b h =
        let (index, found) = maps exit (h.0) in
        rw (found, append_exits)
          (let next = record b {
            scope_exits = insert (graph_prefixed path prefix) index b.scope_exits;
          } in
            let (same, grows, free) = Keeps-same b next refl refl in
            Keeps-later b [] [] next grows (append_exits mapping prefix exits next) same free
              (append_exits-Keeps exits next (h.1)))

  mapping-maps :
      (items : List (CompiledItem S E N)) (b : FlatBuilder S E N) (i : NodeIndex)
      → i < length items
      → (j : NodeIndex) × (get_elem? (allocate_each items b).0 i ≡ some j)
  mapping-maps items b i h = (length b.items + i, ground (arith, allocate_each-mapping items b i))

  length-placeholders :
      (items : List (CompiledItem S E N)) → length (placeholders items) ≡ length items
  length-placeholders [] = refl
  length-placeholders (item ∷ items) = ap suc (length-placeholders items)

  mapping-bound :
      (items : List (CompiledItem S E N)) (b : FlatBuilder S E N) (i j : NodeIndex)
      → get_elem? (allocate_each items b).0 i ≡ some j
      → j < length (allocate_each items b).1.items
  mapping-bound items b i j h = rw (allocate_each-items items b) (
      ground (
        arith,
        allocate_each-mapping items b i,
        length-append b.items (placeholders items),
        length-placeholders items,
      ))

  mapped_entry-some :
      (graph : CompiledGraph S E N) (b : FlatBuilder S E N) (entry : Option NodeIndex)
      → IsTargetBelow (length graph.items) entry
      → (e : Option NodeIndex) × (mapped_entry (allocate_each graph.items b).0 entry ≡ returned e)
  mapped_entry-some graph b none h = (none, refl)
  mapped_entry-some graph b (some i) h =
      let (j, e) = mapping-maps graph.items b i h in (some j, rw e refl)

  allocate_each-paths :
      (items : List (CompiledItem S E N)) (b : FlatBuilder S E N)
      → (allocate_each items b).1.node_paths ≡ b.node_paths
  unfolding allocate_each allocate
  allocate_each-paths [] b = refl
  allocate_each-paths (item ∷ items) b = allocate_each-paths items (allocate b).1

  -- On a child whose indices are those of its items, `append_graph` does not panic: it returns, and
  -- then no node of the child has a path, under the prefix, that the builder already has or that a
  -- node before it in the child has, or it is refused for such a path.
  pub append_graph_total :
      (graph : CompiledGraph S E N) (prefix : GraphPath) (b : FlatBuilder S E N)
      → IsInRange graph
      → ((entry : Option NodeIndex) × (after : FlatBuilder S E N) × (append_graph graph prefix b
            ≡ returned (entry, after))
          × ((p : NodePath) → ¬ Clashes b (placed_paths prefix graph.items) p))
        ⊎ ((p : NodePath) × Clashes b (placed_paths prefix graph.items) p
            × (append_graph graph prefix b ≡ rejected (duplicate_node_path p)))
  unfolding append_graph
  append_graph_total graph prefix b range =
      let n = length graph.items in
      let mapping = (allocate_each graph.items b).0 in
      let b₁ = (allocate_each graph.items b).1 in
      let paths = placed_paths prefix graph.items in
      let maps = mapping-maps graph.items b in
      let stored =
        append_items-Keeps n mapping maps prefix 0 graph.items b₁ (omega arith)
          (mapping-bound graph.items b) range.items in
      let (e, mapped) = mapped_entry-some graph b graph.entry_index range.entry in
      let known = allocate_each-paths graph.items b in
      elim (Outcome-cases (append_items mapping prefix 0 graph.items b₁)) [
        | inr (inr f) ↦ absurd (rw f at stored)
        | inr (inl (reason, f)) ↦
            let (p, why, c) = rw f at stored in
            inr (p, Clashes-known b₁ b paths p known c, rw (f, append_graph) (rw why refl))
        | inl (b₂, f) ↦
            let (same, grows, free) = rw f at stored in
            let left = append_exits-Keeps n mapping maps prefix graph.scope_exits b₂ range.exits in
            elim (Outcome-cases (append_exits mapping prefix graph.scope_exits b₂)) [
              | inr (inr g) ↦ absurd (rw g at left)
              | inr (inl (reason, g)) ↦
                  let (p, why, c) = rw g at left in absurd (nothing-Clashes b₂ p c)
              | inl (b₃, g) ↦ inl (
                e,
                b₃,
                rw (f, append_graph) (rw g (rw mapped refl)),
                λ p c. free p (Clashes-known b b₁ paths p (sym known) c),
              )
            ]
      ]
