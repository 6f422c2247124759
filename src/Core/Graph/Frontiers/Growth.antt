-- ===== src/Core/Graph/Frontiers/Growth.antt =====
-- What the enqueueing of `validate_subgraph_frontiers` in crates/group-agent-core/src/graph.rs
-- leaves behind in the worklist.
use group.Prelude.{
  All, All-map, Map, ==_refl, nat_eq, string_eq, bool_eq, option_eq, list_eq, contains, >>=-eq-ok,
  ok, ◌≡◌, ◌⊎◌, inl, inr, true, false, List, [], ◌∷◌, arith,
}
use group.Core.Path.{NodeId}
use group.Core.Graph.{DeclaredItem}
use group.Core.Graph.Frontiers.{
  Worklist, canonical_pair, pair_eq, enqueue_pair, enqueue_pairs, enqueue_frontier, enqueue_each,
  is_mount,
}
use group.Core.Graph.Frontiers.Measure.{Pair, pair_contains-append}
use group.Core.Graph.Frontiers.Reach.{parallel}

-- Nothing is dropped, and what is new is still to visit.
pub record Grew (list after : Worklist) : Type 0 where
  pub queued : (q : Pair) → contains q list.queued ≡ true → contains q after.queued ≡ true
  pub work : (q : Pair) → contains q list.work ≡ true → contains q after.work ≡ true
  pub new :
      (q : Pair)
      → contains q after.queued ≡ true
      → (contains q list.queued ≡ true) ⊎ (contains q after.work ≡ true)

Grew-refl : (list : Worklist) → Grew list list
Grew-refl list = record { queued = λ q h. h; work = λ q h. h; new = λ q h. inl h }

Grew-trans : (a b c : Worklist) → Grew a b → Grew b c → Grew a c
Grew-trans a b c g h = record {
  queued = λ q k. h.queued q (g.queued q k);
  work = λ q k. h.work q (g.work q k);
  new = λ q k. elim (h.new q k) [
    | inr w ↦ inr w
    | inl old ↦ elim (g.new q old) [ inl older ↦ inl older | inr w ↦ inr (h.work q w) ]
  ];
}

module _ {S E N : Type 0} (items : Map NodeId (DeclaredItem S E N)) where
  -- No mount is in the pair, and it was queued.
  pub record Fine (queued : List Pair) (p : Pair) : Type 0 where
    pub left : is_mount items p.0 ≡ false
    pub right : is_mount items p.1 ≡ false
    pub found : contains (canonical_pair p.0 p.1) queued ≡ true

  Fine-Grew : (a b : Worklist) (p : Pair) → Grew a b → Fine a.queued p → Fine b.queued p
  Fine-Grew a b p g f = record {
    left = f.left;
    right = f.right;
    found = g.queued (canonical_pair p.0 p.1) f.found;
  }

  abbrev pub Covered : List Pair → List (List NodeId) → Type 0
  Covered queued = All (λ f. All (Fine queued) (parallel f))

  pub Covered-Grew :
      (a b : Worklist) (fs : List (List NodeId))
      → Grew a b
      → Covered a.queued fs
      → Covered b.queued fs
  Covered-Grew a b fs g =
      All-map (λ f. All (Fine a.queued) (parallel f)) (λ f. All (Fine b.queued) (parallel f))
        (λ f. All-map (Fine a.queued) (Fine b.queued) (λ p. Fine-Grew a b p g) (parallel f)) fs

  enqueue_pair-Fine :
      (p : Pair) (list after : Worklist)
      → enqueue_pair items p list ≡ ok after
      → Fine after.queued p
  unfolding enqueue_pair contains
  enqueue_pair-Fine (l, r) list after h = record {
    left = ground arith;
    right = ground arith;
    found = ground (arith, ==_refl (canonical_pair l r));
  }

  enqueue_pair-Grew :
      (p : Pair) (list after : Worklist) → enqueue_pair items p list ≡ ok after → Grew list after
  unfolding enqueue_pair contains
  enqueue_pair-Grew (l, r) list after h = record {
    queued = λ q k. ground arith;
    work = λ q k. ground (arith, pair_contains-append q list.work (canonical_pair l r ∷ []));
    new = λ q k. ground (arith, pair_contains-append q list.work (canonical_pair l r ∷ []));
  }

  enqueue_pairs-Fine :
      (ps : List Pair) (list after : Worklist)
      → enqueue_pairs items ps list ≡ ok after
      → All (Fine after.queued) ps × Grew list after
  unfolding enqueue_pairs
  enqueue_pairs-Fine [] list after h = (tt, ground (arith, Grew-refl list))
  enqueue_pairs-Fine (p ∷ ps) list after h =
      let (mid, e, rest) = >>=-eq-ok (enqueue_pair items p list) (enqueue_pairs items ps) h in
      let (fine, grew) = enqueue_pairs-Fine ps mid after rest in
      (
        (Fine-Grew mid after p grew (enqueue_pair-Fine p list mid e), fine),
        Grew-trans list mid after (enqueue_pair-Grew p list mid e) grew,
      )

  pub enqueue_each-Covered :
      (fs : List (List NodeId)) (list after : Worklist)
      → enqueue_each items fs list ≡ ok after
      → Covered after.queued fs × Grew list after
  unfolding enqueue_each enqueue_frontier
  enqueue_each-Covered [] list after h = (tt, ground (arith, Grew-refl list))
  enqueue_each-Covered (f ∷ fs) list after h =
      let (mid, e, rest) = >>=-eq-ok (enqueue_frontier items f list) (enqueue_each items fs) h in
      let (here, g) = enqueue_pairs-Fine (parallel f) list mid e in
      let (there, g') = enqueue_each-Covered fs mid after rest in
      (
        (
          All-map (Fine mid.queued) (Fine after.queued) (λ p. Fine-Grew mid after p g') (parallel f)
              here,
          there,
        ),
        Grew-trans list mid after g g',
      )
