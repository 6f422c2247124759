-- ===== src/Core/Path/Laws.antt =====
-- How the paths of crates/group-agent-core/src/path.rs are built and taken apart.
use group.Prelude.{
  last?-concat, init-concat, init-last, List-cases, ◌≡◌, refl, sym, ap, ◌↔◌, inl, inr, some, List,
  [], ◌∷◌, ◌++◌, append_assoc, arith,
}
use group.Core.Path.{
  NodeId, GraphPath, NodePath, graph_prefixed, new, leaf, graph_path, node_prefixed,
}

segments-path : {a b : NodePath} → a.segments ≡ b.segments → a ≡ b
segments-path h = ground arith

graph_path-new : (g : GraphPath) (n : NodeId) → graph_path (new g n) ≡ some g
unfolding new graph_path
graph_path-new g n = parent g.segments
  where
    parent :
        (s : List NodeId)
        → graph_path (record { segments = s ++ n ∷ [] }) ≡ some (record { segments = s })
    parent [] = refl
    parent (x ∷ s) = ap (λ l. some (record { segments = l })) (init-concat (x ∷ s) n)

leaf-new : (g : GraphPath) (n : NodeId) → leaf (new g n) ≡ some n
unfolding new leaf
leaf-new g n = last?-concat g.segments n

new-parts :
    (p : NodePath) (g : GraphPath) (n : NodeId)
    → graph_path p ≡ some g
    → leaf p ≡ some n
    → new g n ≡ p
unfolding new leaf graph_path
new-parts p g n h k = elim (List-cases p.segments) [
  | inl e ↦ ground arith
  | inr (x, rest, e) ↦ segments-path (ground (arith, init-last p.segments n))
]

-- A node path is its namespace with its leaf: `NodePath::new` gives the path `p` exactly when
-- `graph_path` and `leaf` give back its two arguments.
pub new_iff_parts :
    (p : NodePath) (g : GraphPath) (n : NodeId)
    → (new g n ≡ p) ↔ ((graph_path p ≡ some g) × (leaf p ≡ some n))
new_iff_parts p g n =
    (λ e. (rw (← e) (graph_path-new g n), rw (← e) (leaf-new g n)), λ (h, k). new-parts p g n h k)

-- Mounting under a prefix moves the namespace and keeps the leaf, and two mounts compose.
pub prefixed-new :
    (g p q : GraphPath) (n : NodeId)
    → (node_prefixed (new g n) p ≡ new (graph_prefixed g p) n)
      × (graph_prefixed (graph_prefixed g p) q ≡ graph_prefixed g (graph_prefixed p q))
      × (node_prefixed (node_prefixed (new g n) p) q ≡ node_prefixed (new g n) (graph_prefixed p q))
unfolding node_prefixed graph_prefixed new
prefixed-new g p q n = (
  ap (λ l. record { segments = l }) (sym (append_assoc p.segments g.segments (n ∷ []))),
  ap (λ l. record { segments = l }) (sym (append_assoc q.segments p.segments g.segments)),
  ap (λ l. record { segments = l })
      (sym (append_assoc q.segments p.segments (g.segments ++ n ∷ []))),
)
