-- ===== src/Core/Graph/Frontiers/Refusal.antt =====
-- What a refusal by `validate_subgraph_frontiers` in crates/group-agent-core/src/graph.rs shows.
use group.Prelude.{
  List-cases, Among, at_head, in_tail, Map, ==_refl, nat_eq, string_eq, bool_eq, option_eq, list_eq,
  contains, Result-cases, >>=-eq-ok, ok, err, ℕ, zero, suc, ◌≡◌, refl, subst, ◌⊎◌, inl, inr, true,
  some, List, [], ◌∷◌, arith,
}
use group.Core.Path.{NodeId}
use group.Core.Graph.{StateGraph, DeclaredItem, GraphCompileError}
use group.Core.Graph.Edges.{EdgeAggregation}
use group.Core.Graph.Frontiers.{
  Worklist, canonical_pair, pair_eq, pair_beq_iff, enqueue_pair, enqueue_pairs, enqueue_frontier,
  enqueue_each, is_mount, next_frontiers, declared_frontiers, drain,
}
use group.Core.Graph.Frontiers.Measure.{Pair, pair_contains-append}
use group.Core.Graph.Frontiers.Reach.{parallel, Reached, declared, follows}

module _ {S E N : Type 0} (items : Map NodeId (DeclaredItem S E N)) where
  -- A mount is in the pair.
  abbrev pub HasMount : Pair → Type 0
  HasMount p = (is_mount items p.0 ≡ true) ⊎ (is_mount items p.1 ≡ true)

  enqueue_pair-HasMount :
      (p : Pair) (list : Worklist) (e : GraphCompileError)
      → enqueue_pair items p list ≡ err e
      → HasMount p
  unfolding enqueue_pair
  enqueue_pair-HasMount (l, r) list e h = ground arith

  enqueue_pair-work :
      (p : Pair) (list after : Worklist) (q : Pair)
      → enqueue_pair items p list ≡ ok after
      → contains q after.work ≡ true
      → (contains q list.work ≡ true) ⊎ (q ≡ canonical_pair p.0 p.1)
  unfolding enqueue_pair contains
  enqueue_pair-work (l, r) list after q h k = ground (
    arith,
    pair_contains-append q list.work (canonical_pair l r ∷ []),
    pair_beq_iff (canonical_pair l r) q,
  )

  enqueue_pairs-HasMount :
      (ps : List Pair) (list : Worklist) (e : GraphCompileError)
      → enqueue_pairs items ps list ≡ err e
      → (p : Pair) × Among p ps × HasMount p
  unfolding enqueue_pairs
  enqueue_pairs-HasMount [] list e h = cc
  enqueue_pairs-HasMount (p ∷ ps) list e h = elim (Result-cases (enqueue_pair items p list)) [
    | inr (reason, f) ↦ (p, at_head p ps refl, enqueue_pair-HasMount p list reason f)
    | inl (mid, f) ↦
        let (q, m, mount) = enqueue_pairs-HasMount ps mid e (rw (f, enqueue_pairs) at h) in
        (q, in_tail p ps m, mount)
  ]

  enqueue_pairs-work :
      (ps : List Pair) (list after : Worklist) (q : Pair)
      → enqueue_pairs items ps list ≡ ok after
      → contains q after.work ≡ true
      → (contains q list.work ≡ true) ⊎ ((p : Pair) × Among p ps × (q ≡ canonical_pair p.0 p.1))
  unfolding enqueue_pairs
  enqueue_pairs-work [] list after q h k = inl (ground arith)
  enqueue_pairs-work (p ∷ ps) list after q h k =
      let (mid, e, rest) = >>=-eq-ok (enqueue_pair items p list) (enqueue_pairs items ps) h in
      elim (enqueue_pairs-work ps mid after q rest k) [
        | inr (r, m, same) ↦ inr (r, in_tail p ps m, same)
        | inl w ↦ elim (enqueue_pair-work p list mid q e w) [
          | inl old ↦ inl old
          | inr same ↦ inr (p, at_head p ps refl, same)
        ]
      ]

  -- A pair of one of the frontiers.
  abbrev pub PairOf : List (List NodeId) → Pair → Type 0
  PairOf fs p = (f : List NodeId) × Among f fs × Among p (parallel f)

  enqueue_each-HasMount :
      (fs : List (List NodeId)) (list : Worklist) (e : GraphCompileError)
      → enqueue_each items fs list ≡ err e
      → (p : Pair) × PairOf fs p × HasMount p
  unfolding enqueue_each enqueue_frontier
  enqueue_each-HasMount [] list e h = cc
  enqueue_each-HasMount (f ∷ fs) list e h =
      elim (Result-cases (enqueue_pairs items (parallel f) list)) [
        | inr (reason, g) ↦
            let (p, m, mount) = enqueue_pairs-HasMount (parallel f) list reason g in
            (p, (f, at_head f fs refl, m), mount)
        | inl (mid, g) ↦
            let (p, (f', m, n), mount) =
              enqueue_each-HasMount fs mid e (rw (g, enqueue_each, enqueue_frontier) at h) in
            (p, (f', in_tail f fs m, n), mount)
      ]

  enqueue_each-work :
      (fs : List (List NodeId)) (list after : Worklist) (q : Pair)
      → enqueue_each items fs list ≡ ok after
      → contains q after.work ≡ true
      → (contains q list.work ≡ true) ⊎ ((p : Pair) × PairOf fs p × (q ≡ canonical_pair p.0 p.1))
  unfolding enqueue_each enqueue_frontier
  enqueue_each-work [] list after q h k = inl (ground arith)
  enqueue_each-work (f ∷ fs) list after q h k =
      let (mid, e, rest) = >>=-eq-ok (enqueue_frontier items f list) (enqueue_each items fs) h in
      elim (enqueue_each-work fs mid after q rest k) [
        | inr (p, (f', m, n), same) ↦ inr (p, (f', in_tail f fs m, n), same)
        | inl w ↦ elim (enqueue_pairs-work (parallel f) list mid q e w) [
          | inl old ↦ inl old
          | inr (p, m, same) ↦ inr (p, (f, at_head f fs refl, m), same)
        ]
      ]

module _ {S E N : Type 0} (graph : StateGraph S E N) (edges : EdgeAggregation S E) where
  -- The pairs to visit are reached, up to their order.
  abbrev pub IsTraced : Worklist → Type 0
  IsTraced list =
      (q : Pair)
      → contains q list.work ≡ true
      → (p : Pair) × Reached graph edges p × (q ≡ canonical_pair p.0 p.1)

  -- A reached pair with a mount.
  abbrev pub Conflict : Type 0
  Conflict = (p : Pair) × Reached graph edges p × HasMount graph.items p

  pub enqueue_declared-IsTraced :
      (list after : Worklist)
      → list.work ≡ []
      → enqueue_each graph.items (declared_frontiers graph edges) list ≡ ok after
      → IsTraced after
  unfolding contains
  enqueue_declared-IsTraced list after none_yet h q k =
      elim (enqueue_each-work graph.items (declared_frontiers graph edges) list after q h k) [
        | inl old ↦ absurd (ground arith)
        | inr (p, (f, m, n), same) ↦ (p, declared f p m n, same)
      ]

  pub enqueue_declared-Conflict :
      (list : Worklist) (e : GraphCompileError)
      → enqueue_each graph.items (declared_frontiers graph edges) list ≡ err e
      → Conflict
  enqueue_declared-Conflict list e h =
      let (p, (f, m, n), mount) =
        enqueue_each-HasMount graph.items (declared_frontiers graph edges) list e h in
      (p, declared f p m n, mount)

  PairOf-Reached :
      (q p : Pair)
      → ((r : Pair) × Reached graph edges r × (q ≡ canonical_pair r.0 r.1))
      → PairOf graph.items (next_frontiers graph edges q) p
      → Reached graph edges p
  PairOf-Reached q p (r, old, same) (f, m, n) =
      follows r f p old (subst (λ x. Among f (next_frontiers graph edges x)) same m) n

  IsTraced-step :
      (p : Pair) (rest : List Pair) (list after : Worklist)
      → list.work ≡ p ∷ rest
      → IsTraced list
      → enqueue_each graph.items (next_frontiers graph edges p) (record list { work = rest })
        ≡ ok after
      → IsTraced after
  unfolding contains
  IsTraced-step p rest list after e traced h q k =
      let popped : Worklist = record list { work = rest } in
      elim (enqueue_each-work graph.items (next_frontiers graph edges p) popped after q h k) [
        | inl old ↦ traced q (ground arith)
        | inr (r, from, same) ↦
            (r, PairOf-Reached p r (traced p (ground (arith, ==_refl p))) from, same)
      ]

  pub drain-Conflict :
      (fuel : ℕ) (list : Worklist) (reason : GraphCompileError)
      → IsTraced list
      → drain graph edges fuel list ≡ some (err reason)
      → Conflict
  unfolding drain contains
  drain-Conflict zero list reason traced h = elim (List-cases list.work) [
    | inl e ↦ absurd (ground arith)
    | inr (p, rest, e) ↦ absurd (ground arith)
  ]
  drain-Conflict (suc fuel) list reason traced h = elim (List-cases list.work) [
    | inl e ↦ absurd (ground arith)
    | inr (p, rest, e) ↦
        let popped : Worklist = record list { work = rest } in
        elim (Result-cases (enqueue_each graph.items (next_frontiers graph edges p) popped)) [
          | inr (why, f) ↦
              let (r, from, mount) =
                enqueue_each-HasMount graph.items (next_frontiers graph edges p) popped why f in
              (r, PairOf-Reached p r (traced p (ground (arith, ==_refl p))) from, mount)
          | inl (after, f) ↦
              drain-Conflict fuel after reason (IsTraced-step p rest list after e traced f)
                (rw (e, f, drain) at h)
        ]
  ]
