-- ===== src/Core/Graph/Flat.antt =====
-- `FlatBuilder` of crates/group-agent-core/src/graph.rs: the compiled items in one vector, with a
-- placeholder, `none`, for each that is not yet there. An index out of range and a placeholder
-- that is left, where the source panics, give `panicked`.
pub mod Append
pub mod Range
pub mod Clash
pub mod Total
use group.Prelude.{
  ltb, if◌then◌else◌, length, get_elem?, set, Map, insert, contains_key, nat_eq, string_eq, bool_eq,
  option_eq, list_eq, Result, ok, err, suc, Option, none, some, List, [], ◌∷◌, ◌++◌,
}
use group.Core.Path.{
  GraphPath, NodePath, graph_prefixed, node_prefixed, graph_path_eq, node_path_eq,
}
use group.Core.Transition.{NodeIndex, remap}
use group.Core.Graph.{
  CompiledNode, CompiledItem, node, enter_subgraph, exit_subgraph, CompiledGraph, GraphCompileError,
  duplicate_node_path,
}

pub data Outcome (A : Type 0) : Type 0 where
  returned : A → Outcome A
  rejected : GraphCompileError → Outcome A
  panicked : Outcome A

infixl 5 ◌>>=◌
abbrev pub ◌>>=◌ : {A B : Type 0} → Outcome A → (A → Outcome B) → Outcome B
returned a >>= f = f a
rejected e >>= f = rejected e
panicked >>= f = panicked

-- `[]` and `expect`.
abbrev pub expect : {A : Type 0} → Option A → Outcome A
expect none = panicked
expect (some a) = returned a

-- `?`.
abbrev pub try : {A : Type 0} → Result A GraphCompileError → Outcome A
try (ok a) = returned a
try (err e) = rejected e

pub record FlatBuilder (S E N : Type 0) : Type 0 where
  pub items : List (Option (CompiledItem S E N))
  pub node_paths : Map NodePath NodeIndex
  pub scope_exits : Map GraphPath NodeIndex

-- `graph.entry_index.map(|index| mapping[index.index()])`.
abbrev pub mapped_entry : List NodeIndex → Option NodeIndex → Outcome (Option NodeIndex)
mapped_entry mapping none = returned none
mapped_entry mapping (some index) = expect (get_elem? mapping index) >>= λ i. returned (some i)

module _ {S E N : Type 0} where
  abbrev pub new : FlatBuilder S E N
  new = record { items = []; node_paths = []; scope_exits = [] }

  unfoldable pub allocate : FlatBuilder S E N → NodeIndex × FlatBuilder S E N
  allocate b = (length b.items, record b { items = b.items ++ none ∷ [] })

  unfoldable pub set_item :
      NodeIndex → CompiledItem S E N → FlatBuilder S E N → Outcome (FlatBuilder S E N)
  set_item index item b =
      if ltb index (length b.items)
      then returned (record b { items = set b.items index (some item) })
      else panicked

  unfoldable pub insert_node :
      NodeIndex → CompiledNode S E N → FlatBuilder S E N → Outcome (FlatBuilder S E N)
  unfolding set_item
  insert_node index compiled b =
      if contains_key compiled.path b.node_paths
      then rejected (duplicate_node_path compiled.path)
      else set_item index (node compiled)
          (record b { node_paths = insert compiled.path index b.node_paths })

  -- `graph.items.iter().map(|_| self.allocate())`.
  unfoldable pub allocate_each :
      List (CompiledItem S E N) → FlatBuilder S E N → List NodeIndex × FlatBuilder S E N
  unfolding allocate
  allocate_each [] b = ([], b)
  allocate_each (item ∷ rest) b =
      let (index, b') = allocate b in
      let (mapping, b'') = allocate_each rest b' in (index ∷ mapping, b'')

  -- The body of the loop over the child's items.
  unfoldable pub append_item :
      List NodeIndex
      → GraphPath
      → NodeIndex
      → CompiledItem S E N
      → FlatBuilder S E N
      → Outcome (FlatBuilder S E N)
  unfolding insert_node set_item
  append_item mapping prefix index (node child) b =
      expect (remap mapping child.transition) >>= λ transition.
      insert_node index
        (record {
          path = node_prefixed child.path prefix;
          graph_path = graph_prefixed child.graph_path prefix;
          kind = child.kind;
          transition = transition;
        })
        b
  append_item mapping prefix index (enter_subgraph graph_path child) b =
      expect (remap mapping child) >>= λ transition.
      set_item index (enter_subgraph (graph_prefixed graph_path prefix) transition) b
  append_item mapping prefix index (exit_subgraph graph_path mount_path child) b =
      expect (remap mapping child) >>= λ transition.
      set_item index
        (exit_subgraph (graph_prefixed graph_path prefix) (node_prefixed mount_path prefix)
          transition)
        b

  unfoldable pub append_items :
      List NodeIndex
      → GraphPath
      → NodeIndex
      → List (CompiledItem S E N)
      → FlatBuilder S E N
      → Outcome (FlatBuilder S E N)
  unfolding append_item
  append_items mapping prefix old_index [] b = returned b
  append_items mapping prefix old_index (item ∷ rest) b =
      expect (get_elem? mapping old_index) >>= λ index.
      append_item mapping prefix index item b >>= λ b'.
      append_items mapping prefix (suc old_index) rest b'

  unfoldable pub append_exits :
      List NodeIndex
      → GraphPath
      → Map GraphPath NodeIndex
      → FlatBuilder S E N
      → Outcome (FlatBuilder S E N)
  append_exits mapping prefix [] b = returned b
  append_exits mapping prefix ((path, exit) ∷ rest) b = expect (get_elem? mapping exit) >>= λ index.
      append_exits mapping prefix rest
        (record b { scope_exits = insert (graph_prefixed path prefix) index b.scope_exits })

  unfoldable pub append_graph :
      CompiledGraph S E N
      → GraphPath
      → FlatBuilder S E N
      → Outcome (Option NodeIndex × FlatBuilder S E N)
  unfolding allocate_each append_items append_exits
  append_graph graph prefix b =
      let (mapping, b₁) = allocate_each graph.items b in
      append_items mapping prefix 0 graph.items b₁ >>= λ b₂.
      append_exits mapping prefix graph.scope_exits b₂ >>= λ b₃.
      mapped_entry mapping graph.entry_index >>= λ entry. returned (entry, b₃)

  -- `finish`: every placeholder was filled.
  unfoldable pub finish_items :
      List (Option (CompiledItem S E N)) → Outcome (List (CompiledItem S E N))
  finish_items [] = returned []
  finish_items (slot ∷ rest) =
      expect slot >>= λ item. finish_items rest >>= λ items. returned (item ∷ items)
