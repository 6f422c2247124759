-- ===== src/Core/Graph/Flat/Append.antt =====
-- What `FlatBuilder::append_graph` of crates/group-agent-core/src/graph.rs appends.
use group.Prelude.{
  ltb, if◌then◌else◌, Option-cases, length, get_elem?, set, length-append, Map, insert, nat_eq,
  string_eq, bool_eq, option_eq, list_eq, zero, suc, ◌+◌, ◌≡◌, refl, sym, ap, ap₂, ◌∙◌, inl, inr,
  Option, none, some, List, [], ◌∷◌, ◌++◌, append-nil, append_assoc, arith,
}
use group.Core.Path.{GraphPath, graph_path_eq, node_path_eq, graph_prefixed, node_prefixed}
use group.Core.Transition.{NodeIndex, remap}
use group.Core.Transition.Mount.{moved, remap-moved}
use group.Core.Graph.{CompiledItem, node, enter_subgraph, exit_subgraph, CompiledGraph}
use group.Core.Transition.Remap.{shift}
use group.Core.Graph.Flat.{
  Outcome, returned, rejected, panicked, ◌>>=◌, FlatBuilder, allocate, set_item, insert_node,
  allocate_each, append_item, append_items, append_exits, append_graph, expect, mapped_entry,
}

-- An item of a child, moved by `base` and put under `prefix`.
abbrev pub moved_item :
    {S E N : Type 0} → NodeIndex → GraphPath → CompiledItem S E N → CompiledItem S E N
moved_item base prefix (node c) = node (record {
  path = node_prefixed c.path prefix;
  graph_path = graph_prefixed c.graph_path prefix;
  kind = c.kind;
  transition = moved base c.transition;
})
moved_item base prefix (enter_subgraph g t) =
    enter_subgraph (graph_prefixed g prefix) (moved base t)
moved_item base prefix (exit_subgraph g m t) =
    exit_subgraph (graph_prefixed g prefix) (node_prefixed m prefix) (moved base t)

-- Inversion of what returned.
pub >>=-eq-returned :
    {A B : Type 0} (r : Outcome A) (f : A → Outcome B) {b : B}
    → (r >>= f) ≡ returned b
    → (a : A) × (r ≡ returned a) × (f a ≡ returned b)
>>=-eq-returned (returned a) f h = (a, refl, h)
>>=-eq-returned (rejected e) f h = cc
>>=-eq-returned panicked f h = cc

pub expect-eq-returned : {A : Type 0} (o : Option A) (a : A) → expect o ≡ returned a → o ≡ some a
expect-eq-returned none a h = cc
expect-eq-returned (some x) a h = ground arith

mapped_entry-shift :
    (base : NodeIndex) (mapping : List NodeIndex) (e entry : Option NodeIndex)
    → ((i j : NodeIndex) → get_elem? mapping i ≡ some j → j ≡ base + i)
    → mapped_entry mapping e ≡ returned entry
    → entry ≡ shift base e
mapped_entry-shift base mapping none entry moves h = ground arith
mapped_entry-shift base mapping (some i) entry moves h = elim (Option-cases (get_elem? mapping i)) [
  | inl out ↦ absurd (ground arith)
  | inr (j, found) ↦ ground (arith, moves i j found)
]

module _ {S E N : Type 0} where
  abbrev pub placeholders : List (CompiledItem S E N) → List (Option (CompiledItem S E N))
  placeholders [] = []
  placeholders (item ∷ rest) = none ∷ placeholders rest

  abbrev pub filled :
      NodeIndex → GraphPath → List (CompiledItem S E N) → List (Option (CompiledItem S E N))
  filled base prefix [] = []
  filled base prefix (item ∷ rest) = some (moved_item base prefix item) ∷ filled base prefix rest

  pub allocate_each-items :
      (items : List (CompiledItem S E N)) (b : FlatBuilder S E N)
      → (allocate_each items b).1.items ≡ b.items ++ placeholders items
  unfolding allocate_each allocate
  allocate_each-items [] b = sym (append-nil b.items)
  allocate_each-items (item ∷ items) b =
      allocate_each-items items (record b { items = b.items ++ none ∷ [] })
      ∙ append_assoc b.items (none ∷ []) (placeholders items)

  -- The mapping adds the number of the items that were there.
  pub allocate_each-mapping :
      (items : List (CompiledItem S E N)) (b : FlatBuilder S E N) (i : NodeIndex)
      → get_elem? (allocate_each items b).0 i
        ≡ (if ltb i (length items) then some (length b.items + i) else none)
  unfolding allocate_each allocate
  allocate_each-mapping [] b i = ground arith
  allocate_each-mapping (item ∷ items) b zero = ground arith
  allocate_each-mapping (item ∷ items) b (suc i) =
      let next : FlatBuilder S E N = record b { items = b.items ++ none ∷ [] } in
      ground (arith, allocate_each-mapping items next i, length-append b.items (none ∷ []))

  set-append :
      (done rest : List (Option (CompiledItem S E N))) (slot new : Option (CompiledItem S E N))
      → set (done ++ slot ∷ rest) (length done) new ≡ done ++ new ∷ rest
  set-append [] rest slot new = refl
  set-append (x ∷ done) rest slot new = ap (λ l. x ∷ l) (set-append done rest slot new)

  module _ (base : NodeIndex) (mapping : List NodeIndex) (prefix : GraphPath)
      (moves : (i j : NodeIndex) → get_elem? mapping i ≡ some j → j ≡ base + i) where
    append_item-items :
        (index : NodeIndex) (item : CompiledItem S E N) (b after : FlatBuilder S E N)
        → append_item mapping prefix index item b ≡ returned after
        → after.items ≡ set b.items index (some (moved_item base prefix item))
    unfolding append_item insert_node set_item
    append_item-items index (node c) b after h = elim (Option-cases (remap mapping c.transition)) [
      | inl e ↦ absurd (ground arith)
      | inr (t, e) ↦ ground (arith, remap-moved base mapping moves c.transition t e)
    ]
    append_item-items index (enter_subgraph g c) b after h = elim (Option-cases (remap mapping c)) [
      | inl e ↦ absurd (ground arith)
      | inr (t, e) ↦ ground (arith, remap-moved base mapping moves c t e)
    ]
    append_item-items index (exit_subgraph g m c) b after h =
        elim (Option-cases (remap mapping c)) [
          | inl e ↦ absurd (ground arith)
          | inr (t, e) ↦ ground (arith, remap-moved base mapping moves c t e)
        ]

    append_items-items :
        (k : NodeIndex) (items : List (CompiledItem S E N))
        (done : List (Option (CompiledItem S E N))) (b after : FlatBuilder S E N)
        → length done ≡ base + k
        → b.items ≡ done ++ placeholders items
        → append_items mapping prefix k items b ≡ returned after
        → after.items ≡ done ++ filled base prefix items
    unfolding append_items
    append_items-items k [] done b after l e h = ground arith
    append_items-items k (item ∷ items) done b after l e h =
        let (index, found, h₁) =
          >>=-eq-returned (expect (get_elem? mapping k))
            (λ index.
              append_item mapping prefix index item b >>= append_items mapping prefix (suc k) items)
            h in
        let (next, step, h₂) =
          >>=-eq-returned (append_item mapping prefix index item b)
            (append_items mapping prefix (suc k) items) h₁ in
        let slot : Option (CompiledItem S E N) = some (moved_item base prefix item) in
        let place : index ≡ length done =
          moves k index (expect-eq-returned (get_elem? mapping k) index found) ∙ sym l in
        let now : next.items ≡ done ++ slot ∷ placeholders items =
          append_item-items index item b next step
          ∙ ap₂ (λ l i. set l i slot) e place
          ∙ set-append done (placeholders items) none slot in
        append_items-items (suc k) items (done ++ slot ∷ []) next after
          (omega (arith, length-append done (slot ∷ []), l))
          (now ∙ sym (append_assoc done (slot ∷ []) (placeholders items))) h₂
        ∙ append_assoc done (slot ∷ []) (filled base prefix items)

  append_exits-items :
      (mapping : List NodeIndex) (prefix : GraphPath) (exits : Map GraphPath NodeIndex)
      (b after : FlatBuilder S E N)
      → append_exits mapping prefix exits b ≡ returned after
      → after.items ≡ b.items
  unfolding append_exits
  append_exits-items mapping prefix [] b after h = ground arith
  append_exits-items mapping prefix ((path, exit) ∷ exits) b after h =
      let (index, found, h₁) =
        >>=-eq-returned (expect (get_elem? mapping exit))
          (λ index.
            append_exits mapping prefix exits
              (record b { scope_exits = insert (graph_prefixed path prefix) index b.scope_exits }))
          h in
      append_exits-items mapping prefix exits
        (record b { scope_exits = insert (graph_prefixed path prefix) index b.scope_exits }) after
        h₁

  mapping-moves :
      (items : List (CompiledItem S E N)) (b : FlatBuilder S E N) (i j : NodeIndex)
      → get_elem? (allocate_each items b).0 i ≡ some j
      → j ≡ length b.items + i
  mapping-moves items b i j h = ground (arith, allocate_each-mapping items b i)

  -- `append_graph`, when it returns, adds the items of the child in their order, with their paths
  -- under the prefix and their targets moved by the number of items that were there, and returns
  -- the child's entry, moved by as much.
  pub append_graph_items :
      (graph : CompiledGraph S E N) (prefix : GraphPath) (b after : FlatBuilder S E N)
      (entry : Option NodeIndex)
      → append_graph graph prefix b ≡ returned (entry, after)
      → (after.items ≡ b.items ++ filled (length b.items) prefix graph.items)
        × (entry ≡ shift (length b.items) graph.entry_index)
  unfolding append_graph
  append_graph_items graph prefix b after entry h =
      let base = length b.items in
      let mapping = (allocate_each graph.items b).0 in
      let moves = mapping-moves graph.items b in
      let finish : FlatBuilder S E N → Outcome (Option NodeIndex × FlatBuilder S E N) =
        λ b₃. mapped_entry mapping graph.entry_index >>= λ e. returned (e, b₃) in
      let (b₂, stored, h₁) =
        >>=-eq-returned (append_items mapping prefix 0 graph.items (allocate_each graph.items b).1)
          (λ b₂. append_exits mapping prefix graph.scope_exits b₂ >>= finish) h in
      let (b₃, left, h₂) =
        >>=-eq-returned (append_exits mapping prefix graph.scope_exits b₂) finish h₁ in
      let (e, mapped, h₃) =
        >>=-eq-returned (mapped_entry mapping graph.entry_index) (λ e. returned (e, b₃)) h₂ in
      let items =
        append_exits-items mapping prefix graph.scope_exits b₂ b₃ left
        ∙ append_items-items base mapping prefix moves 0 graph.items b.items
            (allocate_each graph.items b).1 b₂ (omega arith) (allocate_each-items graph.items b)
            stored in
      let entry' = mapped_entry-shift base mapping graph.entry_index e moves mapped in
      (ground (arith, items), ground (arith, entry'))
