-- ===== src/Core/Runtime/Frame/Batch.antt =====
-- The batch of a parallel superstep has an update of each node, in the order of the frontier.
use group.Prelude.{
  get_elem?, set, nat_eq, string_eq, bool_eq, option_eq, list_eq, ok, ℕ, zero, suc, ◌≡◌, refl,
  subst, Bool, true, false, Option, none, some, List, [], ◌∷◌, map,
}
use group.Core.Path.{NodePath}
use group.Core.Checkpoint.{update}
use group.Core.Runtime.Session.{Environment, NodeContext, NodeUpdate}
use group.Core.Runtime.Node.{
  Placed, path_of, PendingNode, Phase, updated, interrupted, keep_first, add_update, take_at,
  batch_of, empty_slots,
}

kept_first :
    {A : Type 0} (x y p : A) (ys rest : List A)
    → ◌≡◌ {A = Option (A × List A)} (some (y, x ∷ ys)) (some (p, rest))
    → y ∷ x ∷ ys ≡ p ∷ rest
kept_first x y p ys rest h = cc

taken_first :
    {A : Type 0} (x p : A) (pending rest : List A)
    → ◌≡◌ {A = Option (A × List A)} (some (x, pending)) (some (p, rest))
    → x ∷ pending ≡ p ∷ rest
taken_first x p pending rest h = cc

module _ {W S E N U P C : Type 0} (env : Environment W S E N U P C) where
  -- An update that a node has returned, on the state before the superstep.
  abbrev pub Returned : S → Placed S E N → U → Type 0
  Returned state placed u =
      (context : NodeContext P) × (w : W) × ((env.run_node placed.compiled.kind state context w).0
        ≡ ok (update u))
      × (context.step ≡ placed.step)
      × (context.node_path ≡ path_of placed)

  -- A batch has an update of each node, in the order of the nodes.
  abbrev pub Batch : S → List (Placed S E N) → List (NodeUpdate U) → Type 0
  Batch state [] [] = Unit {0}
  Batch state (placed ∷ nodes) (u ∷ batch) =
      (u.node_path ≡ path_of placed) × Returned state placed u.update × Batch state nodes batch
  Batch state nodes batch = ◌≡◌ {A = Bool} true false

  -- The pending nodes are nodes of the frontier, started at their places.
  abbrev pub Pending : List (Placed S E N) → List (PendingNode S E N P) → Type 0
  Pending nodes [] = Unit {0}
  Pending nodes (p ∷ rest) =
      (get_elem? nodes p.offset ≡ some p.placed)
      × (p.context.step ≡ p.placed.step)
      × (p.context.node_path ≡ path_of p.placed)
      × Pending nodes rest

  -- Each filled slot has an update of the node at its place.
  abbrev pub Filled : S → List (Placed S E N) → List (Option U) → Type 0
  Filled state [] [] = Unit {0}
  Filled state (placed ∷ nodes) (none ∷ slots) = Filled state nodes slots
  Filled state (placed ∷ nodes) (some u ∷ slots) =
      Returned state placed u × Filled state nodes slots
  Filled state nodes slots = ◌≡◌ {A = Bool} true false

  pub empty-Filled :
      (state : S) (nodes : List (Placed S E N)) → Filled state nodes (empty_slots nodes)
  empty-Filled state [] = tt
  empty-Filled state (placed ∷ nodes) = empty-Filled state nodes

  pub set-Filled :
      (state : S) (nodes : List (Placed S E N)) (slots : List (Option U)) (i : ℕ)
      (placed : Placed S E N) (u : U)
      → Filled state nodes slots
      → get_elem? nodes i ≡ some placed
      → Returned state placed u
      → Filled state nodes (set slots i (some u))
  set-Filled state [] [] i placed u h at r = tt
  set-Filled state [] (slot ∷ slots) i placed u h at r = absurd (cc)
  set-Filled state (first ∷ nodes) [] i placed u h at r = absurd (cc)
  set-Filled state (first ∷ nodes) (none ∷ slots) zero placed u h at r =
      let same : placed ≡ first = cc in (subst (λ p. Returned state p u) same r, h)
  set-Filled state (first ∷ nodes) (some v ∷ slots) zero placed u (q, h) at r =
      let same : placed ≡ first = cc in (subst (λ p. Returned state p u) same r, h)
  set-Filled state (first ∷ nodes) (none ∷ slots) (suc i) placed u h at r =
      set-Filled state nodes slots i placed u h at r
  set-Filled state (first ∷ nodes) (some v ∷ slots) (suc i) placed u (q, h) at r =
      (q, set-Filled state nodes slots i placed u h at r)

  added_update :
      (path : NodePath) (u : U) (o : Option (List (NodeUpdate U))) (batch : List (NodeUpdate U))
      → add_update path u o ≡ some batch
      → (rest : List (NodeUpdate U)) × (o ≡ some rest)
        × (record { node_path = path; update = u } ∷ rest ≡ batch)
  added_update path u none batch h = absurd (cc)
  added_update path u (some rest) batch h = (rest, refl, (cc))

  pub batch_of-Batch :
      (state : S) (nodes : List (Placed S E N)) (slots : List (Option U))
      (batch : List (NodeUpdate U))
      → Filled state nodes slots
      → batch_of (map path_of nodes) slots ≡ some batch
      → Batch state nodes batch
  unfolding batch_of
  batch_of-Batch state [] [] [] h e = tt
  batch_of-Batch state [] [] (b ∷ batch) h e = absurd (cc)
  batch_of-Batch state [] (slot ∷ slots) batch h e = absurd (cc)
  batch_of-Batch state (placed ∷ nodes) [] batch h e = absurd (cc)
  batch_of-Batch state (placed ∷ nodes) (none ∷ slots) batch h e = absurd (cc)
  batch_of-Batch state (placed ∷ nodes) (some u ∷ slots) batch (r, h) e =
      let (rest, p, same) =
        added_update (path_of placed) u (batch_of (map path_of nodes) slots) batch e in
      subst (λ b. Batch state (placed ∷ nodes) b) same
        (refl, r, batch_of-Batch state nodes slots rest h p)

  keep_first-Pending :
      (nodes : List (Placed S E N)) (x p : PendingNode S E N P)
      (o : Option (PendingNode S E N P × List (PendingNode S E N P)))
      (rest : List (PendingNode S E N P))
      → keep_first x o ≡ some (p, rest)
      → Pending nodes (x ∷ [])
      → ((y : PendingNode S E N P) (ys : List (PendingNode S E N P))
          → o ≡ some (y, ys)
          → Pending nodes (y ∷ ys))
      → Pending nodes (p ∷ rest)
  keep_first-Pending nodes x p none rest e h k = absurd (cc)
  keep_first-Pending nodes x p (some (y, ys)) rest e (at, step, path, nothing) k =
      let (at', step', path', later) = k y ys refl in
      let same : y ∷ x ∷ ys ≡ p ∷ rest = kept_first x y p ys rest e in
      subst (λ l. Pending nodes l) same (at', step', path', (at, step, path, later))

  pub take_at-Pending :
      (nodes : List (Placed S E N)) (i : ℕ) (pending rest : List (PendingNode S E N P))
      (p : PendingNode S E N P)
      → take_at i pending ≡ some (p, rest)
      → Pending nodes pending
      → Pending nodes (p ∷ rest)
  unfolding take_at
  take_at-Pending nodes i [] rest p e h = absurd (cc)
  take_at-Pending nodes zero (x ∷ pending) rest p e h =
      let same : x ∷ pending ≡ p ∷ rest = taken_first x p pending rest e in
      subst (λ l. Pending nodes l) same h
  take_at-Pending nodes (suc i) (x ∷ pending) rest p e (at, step, path, later) =
      keep_first-Pending nodes x p (take_at i pending) rest e (at, step, path, tt)
        (λ y ys q. take_at-Pending nodes i pending ys y q later)

  -- The new state is that of a batch with an update of each node.
  abbrev pub Applied : S → List (Placed S E N) → Phase S P → Type 0
  Applied state nodes (updated next) =
      (batch : List (NodeUpdate U)) × Batch state nodes batch
      × (env.apply_batch batch state ≡ ok next.state)
  Applied state nodes (interrupted report) = ◌≡◌ {A = Bool} false true
