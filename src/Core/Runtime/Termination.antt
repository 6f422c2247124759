-- ===== src/Core/Runtime/Termination.antt =====
-- With fuel enough, a run of crates/group-agent-core/src/runtime.rs comes to an end of its own.
use group.Prelude.{
  get_elem?, nat_eq, string_eq, bool_eq, option_eq, list_eq, Result, ok, err, ℕ, zero, suc, ◌+◌,
  ◌≤◌, ◌<◌, ◌≡◌, refl, ap, ◌∙◌, ◌≢◌, inr, true, Option, none, some, List, [], ◌∷◌, ◌++◌, arith,
}
use group.Core.Transition.{NodeIndex}
use group.Core.Graph.{CompiledItem, CompiledGraph}
use group.Core.Runtime.Session.{Environment, Session, Stop, out_of_fuel, Action}
use group.Core.Runtime.Control.{ActiveControl}
use group.Core.Runtime.Route.{SubgraphBoundary, leave_item, normalize_frontier, after_item, item_at}
use group.Core.Runtime.Save.{RuntimeCheckpoint}
use group.Core.Runtime.Invoke.{invoke_internal}
use group.Core.Runtime.Bounds.{Free, free, free_run}
use group.Core.Runtime.Frame.{Frame, Keeps, Any, Post, bind-Keeps, pure-Keeps, expect-Keeps}
use group.Core.Runtime.Frame.Route.{LeaveKeeps, leave_item-Keeps}
use group.Core.Runtime.Frame.Invoke.{invoke_internal-Finishes}

-- Leaving a structural item comes, when it comes to one item alone, to one of a smaller rank.
abbrev pub Descends :
    (W C P : Type 0) → {S E N : Type 0} → CompiledGraph S E N → (NodeIndex → ℕ) → Type 0
Descends W C P {S} {E} {N} graph rank =
    (state : S) (step index next : ℕ) (item : CompiledItem S E N) (boundary : SubgraphBoundary)
    (targets : Action W C P E (List NodeIndex)) (s : Session W C P)
    → get_elem? graph.items index ≡ some item
    → leave_item graph state step item ≡ some (boundary, targets)
    → (targets s).0 ≡ ok (next ∷ [])
    → rank next < rank index

module _ {W S E N U P C : Type 0} (env : Environment W S E N U P C) (control : ActiveControl)
    (mode : RuntimeCheckpoint) where
  abbrev Ends : Stop E → Type 0
  Ends e = e ≢ out_of_fuel

  frame : Frame {W = W} {C = C} {P = P} {E = E} (Free env control mode) Ends (λ event. true)
  frame = free env control mode Ends (λ e h. h)

  -- What holds of the value of an action.
  attach :
      {A : Type 0} (Q : A → Type 0) (r : Result A (Stop E)) (s t : Session W C P)
      → ((a : A) → r ≡ ok a → Q a)
      → Post
          (λ e s t. Ends e × Free env control mode s t)
          (λ a s t. Free env control mode s t × Any a)
          r
          s
          t
      → Post
          (λ e s t. Ends e × Free env control mode s t)
          (λ a s t. Free env control mode s t × Q a)
          r
          s
          t
  attach Q (ok a) s t h (k, q) = (k, h a refl)
  attach Q (err e) s t h k = k

  attach-Keeps :
      {A : Type 0} {Q : A → Type 0} {action : Action W C P E A}
      → ((a : A) (s : Session W C P) → (action s).0 ≡ ok a → Q a)
      → Keeps (Free env control mode) Ends Any action
      → Keeps (Free env control mode) Ends Q action
  attach-Keeps {Q} {action} h k = record {
    ends = λ s. attach Q (action s).0 s (action s).1 (λ a. h a s) (k.ends s);
  }

  module _ (graph : CompiledGraph S E N) (rank : NodeIndex → ℕ)
      (descends : Descends W C P graph rank) where
    -- There is fuel for the items that are left from here on.
    abbrev Enough : ℕ → List NodeIndex → Type 0
    Enough fuel frontier = (1 ≤ fuel) × ((i : NodeIndex) → frontier ≡ i ∷ [] → rank i + 1 < fuel)

    leave_ranked :
        (next : List NodeIndex
          → List SubgraphBoundary
          → Action W C P E (List NodeIndex × List SubgraphBoundary))
        (state : S) (step fuel index : ℕ) (item : CompiledItem S E N)
        (boundaries : List SubgraphBoundary)
        (left : Option (SubgraphBoundary × Action W C P E (List NodeIndex)))
        → get_elem? graph.items index ≡ some item
        → leave_item graph state step item ≡ left
        → LeaveKeeps graph frame (λ event p. refl) left
        → rank index + 1 < suc fuel
        → ((frontier : List NodeIndex) (later : List SubgraphBoundary)
            → Enough fuel frontier
            → Keeps (Free env control mode) Ends Any (next frontier later))
        → Keeps (Free env control mode) Ends Any (after_item graph next index boundaries left)
    leave_ranked next state step fuel index item boundaries none p l h bound k =
        pure-Keeps frame _ tt
    leave_ranked next state step fuel index item boundaries (some (boundary, targets)) p l h bound
          k =
        bind-Keeps frame
          (attach-Keeps {Q = Enough fuel}
            (λ frontier s q. (
              omega arith,
              λ i single.
                  let smaller =
                    descends state step index i item boundary targets s p l (q ∙ ap ok single) in
                  omega arith,
            ))
            h)
          (λ frontier enough. k frontier (boundaries ++ boundary ∷ []) enough)

    normalize_ranked :
        (fuel : ℕ) (state : S) (step : ℕ) (frontier : List NodeIndex)
        (boundaries : List SubgraphBoundary)
        → Enough fuel frontier
        → Keeps
            (Free env control mode)
            Ends
            Any
            (normalize_frontier graph fuel state step frontier boundaries)
    unfolding normalize_frontier item_at
    normalize_ranked zero state step frontier boundaries (positive, h) = absurd (omega arith)
    normalize_ranked (suc fuel) state step [] boundaries h = pure-Keeps frame _ tt
    normalize_ranked (suc fuel) state step (i ∷ j ∷ rest) boundaries h = pure-Keeps frame _ tt
    normalize_ranked (suc fuel) state step (index ∷ []) boundaries (positive, h) =
        bind-Keeps frame
          (expect-Keeps frame {Q = λ item. get_elem? graph.items index ≡ some item}
            (get_elem? graph.items index) (λ item p. p))
          (λ item p.
            leave_ranked (normalize_frontier graph fuel state step) state step fuel index item
              boundaries (leave_item graph state step item) p refl
              (leave_item-Keeps graph frame (λ event p. refl) state step item) (h index refl)
              (normalize_ranked fuel state step))

    ended :
        {A : Type 0} (G : A → Session W C P → Session W C P → Type 0) (r : Result A (Stop E))
        (s t : Session W C P)
        → Post (λ e s t. Ends e × Free env control mode s t) G r s t
        → r ≢ err out_of_fuel
    ended G (ok a) s t h = cc
    ended G (err e) s t (f, r) = λ p. f (cc)

    below : (n fuel : ℕ) → n + 1 < fuel → 1 ≤ fuel
    below n fuel h = omega arith

    -- An invocation always comes to a result, an error or a panic of its own: it never runs out of
    -- the fuel of the model, whatever the environment and the mode of checkpoints are, when the
    -- loop over supersteps has more rounds than `max_steps`, and the loop over structural items has
    -- more than one round beyond the rank of each item, where the rank falls with each structural
    -- item that is left.
    pub invoke_internal_total :
        (rounds fuel max_steps : ℕ) (initial_state : S) (s : Session W C P)
        → max_steps < rounds
        → ((index : NodeIndex) → rank index + 1 < fuel)
        → (invoke_internal env graph rounds fuel max_steps mode initial_state control s).0
          ≢ err out_of_fuel
    invoke_internal_total rounds fuel max_steps initial_state s enough ranked =
        let run = invoke_internal env graph rounds fuel max_steps mode initial_state control s in
        ended _ run.0 s run.1 (
          (invoke_internal-Finishes env control mode (free_run env control mode Ends (λ e h. h))
              (λ event. refl) (λ s parent. tt) graph rounds fuel max_steps
              (λ state step frontier boundaries.
                normalize_ranked fuel state step frontier boundaries
                  (below (rank 0) fuel (ranked 0), (λ i p. ranked i)))
              initial_state (inr enough)).ends
            s)
