-- ===== src/Core/Path/Tests.antt =====
-- Paths of crates/group-agent-core/src/path.rs at small inputs.
use group.Prelude.{nat_eq, string_eq, bool_eq, option_eq, list_eq, ◌≡◌, refl, ◌↔◌, some, [], ◌∷◌}
use group.Core.Path.{GraphPath, NodePath, new, leaf, graph_path, node_prefixed, graph_prefixed}
use group.Core.Path.Display.{
  display_node_path, write_segments, write_each, write_characters, escape, codes,
}
use group.Core.Path.Laws.{new_iff_parts, prefixed-new}

abbrev team : GraphPath
team = record { segments = "team" ∷ [] }

abbrev outer : GraphPath
outer = record { segments = "outer" ∷ [] }

abbrev worker : NodePath
worker = record { segments = "team" ∷ "worker" ∷ [] }

escaped :
    display_node_path (record { segments = "a/b" ∷ [] })
    ≡ b'/' ∷ b'a' ∷ b'%' ∷ b'2' ∷ b'F' ∷ b'b' ∷ []
unfolding display_node_path write_segments write_each write_characters escape codes
escaped = refl

new_iff_parts_example :
    (new team "worker" ≡ worker) ↔ ((graph_path worker ≡ some team) × (leaf worker ≡ some "worker"))
new_iff_parts_example = new_iff_parts worker team "worker"

prefixed-new_example :
    (node_prefixed (new team "worker") outer ≡ new (graph_prefixed team outer) "worker")
    × (graph_prefixed (graph_prefixed team outer) outer
        ≡ graph_prefixed team (graph_prefixed outer outer))
    × (node_prefixed (node_prefixed (new team "worker") outer) outer
        ≡ node_prefixed (new team "worker") (graph_prefixed outer outer))
prefixed-new_example = prefixed-new team outer outer "worker"
