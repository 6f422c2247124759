-- ===== src/Core/Runtime/Endless.antt =====
-- A mounted graph without nodes that its parent visits again and again, in `normalize_frontier` of
-- crates/group-agent-core/src/runtime.rs.
use group.Prelude.{
  get_elem?, sort_by, nat_eq, string_eq, bool_eq, option_eq, list_eq, Result, ok, err, ℕ, zero, suc,
  ◌≡◌, refl, sym, ap, subst, true, false, Option, none, some, List, [], ◌∷◌, ◌++◌, arith,
}
use group.Core.Path.{GraphPath, NodePath, mount_path, graph_path}
use group.Core.Transition.{
  NodeIndex, CompiledTransition, fixed, RouteDecision, single, multiple, resolve_into,
}
use group.Core.Graph.{CompiledItem, CompiledGraph, enter_subgraph, exit_subgraph}
use group.Core.Runtime.Event.{GraphEvent}
use group.Core.Runtime.Session.{
  Environment, Session, Stop, out_of_fuel, Action, continue_with, ◌>>=◌, expect, emit, failing,
  fail_with, failed, panicked, failing,
}
use group.Core.Runtime.Control.{ActiveControl}
use group.Core.Runtime.Save.{RuntimeCheckpoint}
use group.Core.Runtime.Execute.{execute_internal}
use group.Core.Runtime.Invoke.{
  parent_of, initial_execution, entry_frontier, invoke_internal, prepare,
}
use group.Core.Runtime.Route.{
  SubgraphBoundary, path_at, canonical, dedup, scope_exit, emit_decision, route_result,
  resolve_transition, item_at, leave_item, after_item, normalize_frontier,
}

-- A mount whose entry leads to its exit, which selects the entry again in this state.
pub record Revisits {S E N : Type 0} (graph : CompiledGraph S E N) (state : S)
    (entry exit : NodeIndex) : Type 0 where
  pub inner : GraphPath
  pub mount : NodePath
  pub outer : GraphPath
  pub transition : CompiledTransition S E
  pub decision : Option RouteDecision
  pub entered : get_elem? graph.items entry ≡ some (enter_subgraph inner (fixed (some exit)))
  pub left : get_elem? graph.items exit ≡ some (exit_subgraph inner mount transition)
  pub mounted : mount_path inner ≡ some mount
  pub enclosed : graph_path mount ≡ some outer
  pub selected : resolve_into transition state outer [] (path_at graph) ≡ (ok decision, entry ∷ [])

-- Whatever the session is, an action comes to this result.
record Comes {W C P E A : Type 0} (r : Result A (Stop E)) (action : Action W C P E A) : Type 0 where
  comes : (s : Session W C P) → (action s).0 ≡ r

module _ {W C P E : Type 0} where
  continued :
      {A B : Type 0} (next : A → Action W C P E B) (a : A) (r : Result B (Stop E))
      (x : Result A (Stop E) × Session W C P)
      → x.0 ≡ ok a
      → Comes r (next a)
      → (continue_with next x).0 ≡ r
  continued next a r (ok b, t) p k =
      let q : b ≡ a = cc in subst (λ c. (next c t).0 ≡ r) (sym q) (k.comes t)
  continued next a r (err e, t) p k = absurd (cc)

  bind-Comes :
      {A B : Type 0} {first : Action W C P E A} (next : A → Action W C P E B) {a : A}
      {r : Result B (Stop E)}
      → Comes (ok a) first
      → Comes r (next a)
      → Comes r (first >>= next)
  bind-Comes {first} next {a} {r} f k = record {
    comes = λ s. continued next a r (first s) (f.comes s) k;
  }

  ended :
      {A B : Type 0} (next : A → Action W C P E B) (e : Stop E)
      (x : Result A (Stop E) × Session W C P)
      → x.0 ≡ err e
      → (continue_with next x).0 ≡ err e
  ended next e (ok a, t) p = absurd (cc)
  ended next e (err f, t) p = let q : f ≡ e = cc in ap err q

  end-Comes :
      {A B : Type 0} {first : Action W C P E A} (next : A → Action W C P E B) {e : Stop E}
      → Comes (err e) first
      → Comes (err e) (first >>= next)
  end-Comes {first} next {e} f = record { comes = λ s. ended next e (first s) (f.comes s) }

  unreported :
      {A : Type 0} (x : Result A (Stop E) × Session W C P)
      → x.0 ≡ err out_of_fuel
      → (fail_with x).0 ≡ err out_of_fuel
  unfolding fail_with
  unreported (ok a, t) p = absurd (cc)
  unreported (err (failed e), t) p = absurd (cc)
  unreported (err panicked, t) p = absurd (cc)
  unreported (err out_of_fuel, t) p = refl

  -- The fuel of the model is not an error of the source, and is not reported.
  failing-Comes :
      {A : Type 0} {action : Action W C P E A}
      → Comes (err out_of_fuel) action
      → Comes (err out_of_fuel) (failing action)
  unfolding failing
  failing-Comes {action} h = record { comes = λ s. unreported (action s) (h.comes s) }

  expect-Comes :
      {A : Type 0} (found : Option A) (a : A)
      → found ≡ some a
      → Comes (ok a) (expect {W = W} {C = C} {P = P} {E = E} found)
  expect-Comes (some b) a p = let q : b ≡ a = cc in record { comes = λ s. ap ok q }
  expect-Comes none a p = absurd (cc)

  emit-Comes : (event : GraphEvent) → Comes (ok tt) (emit {W = W} {C = C} {P = P} {E = E} event)
  unfolding emit
  emit-Comes event = record { comes = λ s. ground arith }

module _ {W C P S E N : Type 0} (graph : CompiledGraph S E N) where
  decided :
      (source : NodePath) (step : ℕ) (decision : Option RouteDecision)
      → Comes {W = W} {C = C} {P = P} (ok tt) (emit_decision graph source step decision)
  unfolding emit_decision
  decided source step none = record { comes = λ s. refl }
  decided source step (some (single target)) = record { comes = λ s. (emit-Comes _).comes s }
  decided source step (some (multiple targets)) = record { comes = λ s. (emit-Comes _).comes s }

  -- A transition that selects targets returns them, whatever it emits.
  resolved :
      (transition : CompiledTransition S E) (state : S) (outer : GraphPath) (source : NodePath)
      (step : ℕ) (decision : Option RouteDecision) (targets : List NodeIndex)
      → resolve_into transition state outer [] (path_at graph) ≡ (ok decision, targets)
      → Comes {W = W} {C = C} {P = P}
          (ok targets)
          (resolve_transition graph transition state outer source step [])
  unfolding resolve_transition route_result
  resolved transition state outer source step decision targets h =
      rw h (bind-Comes _ (decided source step decision) (record { comes = λ s. refl }))

  abbrev Leads : NodeIndex → Option (SubgraphBoundary × Action W C P E (List NodeIndex)) → Type 0
  Leads next none = true ≡ false
  Leads next (some (boundary, targets)) = Comes (ok (next ∷ [])) targets

  -- From an item on, the rounds end with the fuel.
  abbrev Endless : Session W C P → S → ℕ → ℕ → NodeIndex → Type 0
  Endless start state step fuel index =
      (boundaries : List SubgraphBoundary)
      → Comes {W = W} {C = C} {P = P} (err out_of_fuel)
          (normalize_frontier graph fuel state step (index ∷ []) boundaries)

  led :
      (next : List NodeIndex
        → List SubgraphBoundary
        → Action W C P E (List NodeIndex × List SubgraphBoundary))
      (index target : NodeIndex) (boundaries : List SubgraphBoundary)
      (left : Option (SubgraphBoundary × Action W C P E (List NodeIndex)))
      → Leads target left
      → ((later : List SubgraphBoundary) → Comes (err out_of_fuel) (next (target ∷ []) later))
      → Comes (err out_of_fuel) (after_item graph next index boundaries left)
  led next index target boundaries none h k = absurd (cc)
  led next index target boundaries (some (boundary, targets)) h k =
      bind-Comes _ h (k (boundaries ++ boundary ∷ []))

  -- One round at a structural item.
  round-Endless :
      (start : Session W C P) (state : S) (step fuel : ℕ) (index target : NodeIndex)
      (item : CompiledItem S E N)
      → get_elem? graph.items index ≡ some item
      → Leads target (leave_item graph state step item)
      → Endless start state step fuel target
      → Endless start state step (suc fuel) index
  unfolding normalize_frontier item_at
  round-Endless start state step fuel index target item found leads rest boundaries =
      bind-Comes _ (expect-Comes (get_elem? graph.items index) item found) (
        led (normalize_frontier graph fuel state step) index target boundaries
          (leave_item graph state step item) leads rest)

  module _ (state : S) (entry exit : NodeIndex) (revisits : Revisits graph state entry exit) where
    entry-Leads :
        (start : Session W C P) (step : ℕ)
        → Leads exit
            (leave_item graph state step (enter_subgraph revisits.inner (fixed (some exit))))
    unfolding leave_item resolve_into
    entry-Leads start step = bind-Comes _ (expect-Comes _ revisits.mount revisits.mounted) (
        bind-Comes _ (expect-Comes _ revisits.outer revisits.enclosed) (
          resolved (fixed (some exit)) state revisits.outer revisits.mount step none (exit ∷ [])
            refl))

    exit-Leads :
        (start : Session W C P) (step : ℕ)
        → Leads entry (
            leave_item graph state step
              (exit_subgraph revisits.inner revisits.mount revisits.transition))
    unfolding leave_item canonical dedup sort_by scope_exit
    exit-Leads start step = bind-Comes _ (expect-Comes _ revisits.outer revisits.enclosed) (
        bind-Comes _
          (resolved revisits.transition state revisits.outer revisits.mount step revisits.decision
            (entry ∷ []) revisits.selected)
          (record { comes = λ s. refl }))

    rounds-Endless :
        (start : Session W C P) (step fuel : ℕ)
        → Endless start state step fuel entry × Endless start state step fuel exit
    unfolding normalize_frontier
    rounds-Endless start step zero =
        ((λ boundaries. record { comes = λ s. refl }), (λ boundaries. record { comes = λ s. refl }))
    rounds-Endless start step (suc fuel) =
        let (from_entry, from_exit) = rounds-Endless start step fuel in
        (
          round-Endless start state step fuel entry exit _ revisits.entered (entry-Leads start step)
              from_exit,
          round-Endless start state step fuel exit entry _ revisits.left (exit-Leads start step)
              from_entry,
        )

module _ {W S E N U P C : Type 0} (env : Environment W S E N U P C) (mode : RuntimeCheckpoint)
    (graph : CompiledGraph S E N) (state : S) (entry exit : NodeIndex) where
  normalized :
      (start : Session W C P) (fuel : ℕ)
      → Revisits graph state entry exit
      → graph.entry_index ≡ some entry
      → Comes (err out_of_fuel) (
          normalize_frontier {W = W} {C = C} {P = P} graph fuel state 0
            (entry_frontier graph.entry_index)
            [])
  normalized start fuel revisits enters =
      subst
        (λ first.
          Comes (err out_of_fuel) (
            normalize_frontier {W = W} {C = C} {P = P} graph fuel state 0 (entry_frontier first)
              []))
        (sym enters) ((rounds-Endless graph state entry exit revisits start 0 fuel).0 [])

  prepare_endless :
      (rounds fuel max_steps : ℕ) (control : ActiveControl) (start : Session W C P)
      → Revisits graph state entry exit
      → graph.entry_index ≡ some entry
      → Comes (err out_of_fuel) (prepare env graph rounds fuel max_steps control state)
  unfolding prepare
  prepare_endless rounds fuel max_steps control start revisits enters = end-Comes _ (
      bind-Comes _ (record { comes = λ t. (emit-Comes _).comes t })
        (normalized start fuel revisits enters))

  invoke_endless :
      (rounds fuel max_steps : ℕ) (control : ActiveControl) (start : Session W C P)
      → Revisits graph state entry exit
      → graph.entry_index ≡ some entry
      → Comes (err out_of_fuel) (invoke_internal env graph rounds fuel max_steps mode state control)
  unfolding invoke_internal
  invoke_endless rounds fuel max_steps control start revisits enters =
      end-Comes
        (λ frontier.
          execute_internal env control mode graph fuel rounds max_steps true
            (initial_execution state frontier))
        (failing-Comes (
          bind-Comes {A = Unit {0}}
            {first = λ t. (ok tt, record t { expected_parent = parent_of mode })}
            (λ _. prepare env graph rounds fuel max_steps control state) {a = tt}
            (record { comes = λ t. refl })
            (prepare_endless rounds fuel max_steps control start revisits enters)))

-- A compiled mount without nodes whose exit selects its own entry, in the state of a run, is visited
-- without an end: with every fuel the loop over structural items of an invocation that starts there
-- runs out of it, whatever `max_steps`, the environment and the mode of checkpoints are.
pub invoke_internal_endless :
    {W S E N U P C : Type 0} (env : Environment W S E N U P C) (mode : RuntimeCheckpoint)
    (graph : CompiledGraph S E N) (state : S) (entry exit : NodeIndex)
    → Revisits graph state entry exit
    → graph.entry_index ≡ some entry
    → (rounds fuel max_steps : ℕ) (control : ActiveControl) (s : Session W C P)
    → (invoke_internal env graph rounds fuel max_steps mode state control s).0 ≡ err out_of_fuel
invoke_internal_endless env mode graph state entry exit revisits enters rounds fuel max_steps
      control s =
    (invoke_endless env mode graph state entry exit rounds fuel max_steps control s revisits
        enters).comes
      s
