-- ===== src/Core/Graph/Flat/Clash.antt =====
-- The node paths of a mounted graph that clash with those of `FlatBuilder` in
-- crates/group-agent-core/src/graph.rs.
use group.Prelude.{
  length, Among, Among-nil, Among-append, Among-split, contains_key, nat_eq, string_eq, bool_eq,
  option_eq, list_eq, ◌≡◌, refl, sym, ap, ap₂, ◌∙◌, subst, ◌↔◌, ◌⊎◌, inl, inr, true, List, [], ◌∷◌,
  ◌++◌, append_assoc,
}
use group.Core.Path.{NodePath, GraphPath, graph_path_eq, node_path_eq, node_prefixed}
use group.Core.Graph.{duplicate_node_path, CompiledItem, node, enter_subgraph, exit_subgraph}
use group.Core.Graph.Flat.{Outcome, returned, rejected, panicked, FlatBuilder}

-- The path of a node that is placed under a prefix.
abbrev pub placed_path : {S E N : Type 0} → GraphPath → CompiledItem S E N → List NodePath
placed_path prefix (node c) = node_prefixed c.path prefix ∷ []
placed_path prefix (enter_subgraph g t) = []
placed_path prefix (exit_subgraph g m t) = []

-- The paths of the nodes of a list of items, under a prefix.
abbrev pub placed_paths : {S E N : Type 0} → GraphPath → List (CompiledItem S E N) → List NodePath
placed_paths prefix [] = []
placed_paths prefix (item ∷ items) = placed_path prefix item ++ placed_paths prefix items

-- A path of a list that a builder has, or that stands in the list before.
pub record Clashes {S E N : Type 0} (b : FlatBuilder S E N) (paths : List NodePath) (p : NodePath)
    : Type 0 where
  pub before : List NodePath
  pub after : List NodePath
  pub place : paths ≡ before ++ p ∷ after
  pub taken : (contains_key p b.node_paths ≡ true) ⊎ Among p before

pub nothing-Clashes : {S E N : Type 0} (b : FlatBuilder S E N) (p : NodePath) → Clashes b [] p → ⊥
nothing-Clashes b p c = empty c.before c.place
  where
    empty : (before : List NodePath) → [] ≡ before ++ p ∷ c.after → ⊥
    empty [] h = cc
    empty (x ∷ before) h = cc

-- An element of two lists stands in the first or in the second.
split_at :
    (p : NodePath) (xs ys before after : List NodePath)
    → xs ++ ys ≡ before ++ p ∷ after
    → ((rest : List NodePath) × (xs ≡ before ++ p ∷ rest))
      ⊎ ((rest : List NodePath) × (before ≡ xs ++ rest) × (ys ≡ rest ++ p ∷ after))
split_at p [] ys before after h = inr (before, refl, h)
split_at p (x ∷ xs) ys [] after h = let e : x ≡ p = cc in inl (xs, ap (λ z. z ∷ xs) e)
split_at p (x ∷ xs) ys (y ∷ before) after h =
    let e : x ≡ y = cc in
    let t : xs ++ ys ≡ before ++ p ∷ after = cc in
    elim (split_at p xs ys before after t) [
      | inl (rest, f) ↦ inl (rest, ap₂ (λ z l. z ∷ l) e f)
      | inr (rest, f, g) ↦ inr (rest, ap₂ (λ z l. z ∷ l) (sym e) f, g)
    ]

pub Clashes-known :
    {S E N : Type 0} (b c : FlatBuilder S E N) (paths : List NodePath) (p : NodePath)
    → b.node_paths ≡ c.node_paths
    → Clashes b paths p
    → Clashes c paths p
Clashes-known b c paths p same h = record {
  before = h.before;
  after = h.after;
  place = h.place;
  taken = elim h.taken [
    | inl old ↦ inl (subst (λ known. contains_key p known ≡ true) same old)
    | inr m ↦ inr m
  ];
}

-- A step that does not panic, keeps the number of items and adds just these paths, none of which
-- clashes, or is refused for one of them that does.
abbrev pub Keeps :
    {S E N : Type 0} → FlatBuilder S E N → List NodePath → Outcome (FlatBuilder S E N) → Type 0
Keeps b paths (returned after) =
    (length after.items ≡ length b.items)
    × ((p : NodePath)
        → (contains_key p after.node_paths ≡ true)
          ↔ ((contains_key p b.node_paths ≡ true) ⊎ Among p paths))
    × ((p : NodePath) → ¬ Clashes b paths p)
Keeps b paths (rejected e) = (p : NodePath) × (e ≡ duplicate_node_path p) × Clashes b paths p
Keeps b paths panicked = ⊥

module _ {S E N : Type 0} (b : FlatBuilder S E N) (paths later : List NodePath) where
  pub Clashes-first : (p : NodePath) → Clashes b paths p → Clashes b (paths ++ later) p
  Clashes-first p c = record {
    before = c.before;
    after = c.after ++ later;
    place = ap (λ l. l ++ later) c.place ∙ append_assoc c.before (p ∷ c.after) later;
    taken = c.taken;
  }

  module _ (next : FlatBuilder S E N)
      (grows : (p : NodePath)
        → (contains_key p next.node_paths ≡ true)
          ↔ ((contains_key p b.node_paths ≡ true) ⊎ Among p paths)) where
    Clashes-later : (p : NodePath) → Clashes next later p → Clashes b (paths ++ later) p
    Clashes-later p c = record {
      before = paths ++ c.before;
      after = c.after;
      place = ap (λ l. paths ++ l) c.place ∙ sym (append_assoc paths c.before (p ∷ c.after));
      taken = elim c.taken [
        | inr m ↦ inr (Among-append p paths c.before (inr m))
        | inl h ↦ elim ((grows p).0 h) [
          | inl old ↦ inl old
          | inr m ↦ inr (Among-append p paths c.before (inl m))
        ]
      ];
    }

    -- A clash in both lists is one of the first, or of the second after it.
    Clashes-split :
        (p : NodePath) → Clashes b (paths ++ later) p → Clashes b paths p ⊎ Clashes next later p
    Clashes-split p c = elim (split_at p paths later c.before c.after c.place) [
      | inl (after, e) ↦
          inl (record { before = c.before; after = after; place = e; taken = c.taken })
      | inr (before, e, f) ↦ inr (record {
        before = before;
        after = c.after;
        place = f;
        taken = elim c.taken [
          | inl old ↦ inl ((grows p).1 (inl old))
          | inr m ↦ elim (Among-split p paths before (subst (Among p) e m)) [
            | inl l ↦ inl ((grows p).1 (inr l))
            | inr r ↦ inr r
          ]
        ];
      })
    ]

    pub Keeps-later :
        (r : Outcome (FlatBuilder S E N))
        → length next.items ≡ length b.items
        → ((p : NodePath) → ¬ Clashes b paths p)
        → Keeps next later r
        → Keeps b (paths ++ later) r
    Keeps-later (returned after) e free (same, h, free') = (
      same ∙ e,
      λ p. (
        λ k. elim ((h p).0 k) [
          | inr m ↦ inr (Among-append p paths later (inr m))
          | inl old ↦ elim ((grows p).0 old) [
            | inl older ↦ inl older
            | inr m ↦ inr (Among-append p paths later (inl m))
          ]
        ],
        λ k. elim k [
          | inl old ↦ (h p).1 (inl ((grows p).1 (inl old)))
          | inr m ↦ elim (Among-split p paths later m) [
            | inl l ↦ (h p).1 (inl ((grows p).1 (inr l)))
            | inr l ↦ (h p).1 (inr l)
          ]
        ],
      ),
      λ p c. elim (Clashes-split p c) [ inl l ↦ free p l | inr l ↦ free' p l ],
    )
    Keeps-later (rejected reason) e free (p, why, c) = (p, why, Clashes-later p c)
    Keeps-later panicked e free h = h

-- A step that adds no path.
pub Keeps-same :
    {S E N : Type 0} (b after : FlatBuilder S E N)
    → length after.items ≡ length b.items
    → after.node_paths ≡ b.node_paths
    → Keeps b [] (returned after)
Keeps-same b after e same = (
  e,
  λ p. (
    λ k. inl (subst (λ paths. contains_key p paths ≡ true) same k),
    λ k. elim k [
      | inl old ↦ subst (λ paths. contains_key p paths ≡ true) (sym same) old
      | inr m ↦ absurd (Among-nil p m)
    ],
  ),
  λ p c. nothing-Clashes b p c,
)
