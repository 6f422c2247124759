-- ===== src/Core/Runtime/Frame/Execute.antt =====
-- The loop over supersteps ends within the limit of steps, and with fuel enough it is not cut off.
use group.Prelude.{
  length, is_empty, nat_eq, string_eq, bool_eq, option_eq, list_eq, ℕ, zero, suc, ◌+◌, ◌-◌, ◌≤◌,
  ◌<◌, ◌≡◌, refl, sym, subst, ◌⊎◌, inl, inr, Bool, true, ◌&&◌, none, List, arith,
}
use group.Core.Transition.{NodeIndex}
use group.Core.Graph.{CompiledGraph}
use group.Core.Runtime.Event.{GraphEvent, run_completed}
use group.Core.Runtime.Session.{Environment, Session, Stop, out_of_fuel, Action, ◌>>◌, emit}
use group.Core.Runtime.Control.{ActiveControl}
use group.Core.Runtime.Route.{SubgraphBoundary, normalize_frontier}
use group.Core.Runtime.Save.{RuntimeCheckpoint, should_save}
use group.Core.Runtime.Node.{Execution, Phase, updated, interrupted, InterruptReport}
use group.Core.Runtime.Execute.{
  ExecutionOutcome, run_finished, run_suspended, saturating_add, complete_run, after_superstep,
  execute_loop, save_empty,
}
use group.Core.Runtime.Frame.{
  Keeps, Finishes, Follows, Any, Post, bind-Keeps, pure-Keeps, emit-Keeps, if-Keeps, bind-Finishes,
  follow-Finishes, emit-Finishes, if-Finishes, Post-after,
}
use group.Core.Runtime.Frame.Control.{check_run-Keeps, await_run_boundary-Keeps}
use group.Core.Runtime.Frame.Node.{RunFrame}
use group.Core.Runtime.Frame.Superstep.{
  Advances, StartsWithin, SuperstepEnds, run_superstep-Finishes,
}

-- The steps and the visited nodes of what a run comes to.
abbrev pub Visits : {S P : Type 0} → ℕ → Execution S P → ExecutionOutcome S P → Type 0
Visits limit ex (run_finished report) =
    (ex.steps ≤ limit → report.steps ≤ limit)
    × (report.steps + length ex.visited_nodes ≡ ex.steps + length report.visited_nodes)
Visits limit ex (run_suspended report) =
    (ex.steps ≤ limit → report.steps ≤ limit)
    × (report.steps + length ex.visited_nodes + 1 ≡ ex.steps + length report.visited_nodes)

Visits-after :
    {S P : Type 0} (limit : ℕ) (ex next : Execution S P) (outcome : ExecutionOutcome S P)
    → Advances limit ex (updated next)
    → Visits limit next outcome
    → Visits limit ex outcome
Visits-after limit ex next (run_finished report) (later, within, balance) (bound, visited) =
    ((λ h. bound within), omega arith)
Visits-after limit ex next (run_suspended report) (later, within, balance) (bound, visited) =
    ((λ h. bound within), omega arith)

module _ {W S E N U P C : Type 0} (env : Environment W S E N U P C) (control : ActiveControl)
    (mode : RuntimeCheckpoint) {R : Session W C P → Session W C P → Type 0}
    {I : InterruptReport S P → Session W C P → Session W C P → Type 0}
    {D : ℕ → Session W C P → Session W C P → Type 0} {F : Stop E → Type 0}
    {allowed : GraphEvent → Bool} (run : RunFrame env mode R I F allowed)
    (completes : (s : Session W C P) (steps : ℕ)
      → D steps s (emit {E = E} (run_completed s.run_id steps) s).1)
    (follows : (steps : ℕ) (s t u : Session W C P) → R s t → D steps t u → D steps s u)
    (graph : CompiledGraph S E N) (fuel : ℕ)
    (normalizes : (state : S) (step : ℕ) (frontier : List NodeIndex)
        (boundaries : List SubgraphBoundary)
      → Keeps R F Any (normalize_frontier graph fuel state step frontier boundaries)) where
  open run use {frame, inner, saves}

  -- How a run ends that ends with a result.
  abbrev pub RunEnds :
      ℕ → Execution S P → ExecutionOutcome S P → Session W C P → Session W C P → Type 0
  RunEnds limit ex (run_finished report) s t =
      D report.steps s t × Visits limit ex (run_finished report) × (report.events ≡ t.retained)
  RunEnds limit ex (run_suspended report) s t =
      I report s t × Visits limit ex (run_suspended report) × (report.events ≡ t.retained)

  pub RunEnds-follows : (limit : ℕ) (ex : Execution S P) → Follows frame (RunEnds limit ex)
  RunEnds-follows limit ex (run_finished report) s t u r (d, visits, e) =
      (follows report.steps s t u r d, visits, e)
  RunEnds-follows limit ex (run_suspended report) s t u r (i, visits, e) =
      (run.follows report s t u r i, visits, e)

  complete_run-Finishes :
      (limit : ℕ) (ex : Execution S P)
      → Finishes R F (RunEnds limit ex) (complete_run env control mode graph fuel ex)
  unfolding complete_run
  complete_run-Finishes limit ex =
      follow-Finishes frame _
        (bind-Finishes frame (λ done s t u. follows ex.steps s t u)
          (check_run-Keeps env control frame none ex.steps)
          (λ done q. emit-Finishes frame {G = D ex.steps} _ (λ s. completes s ex.steps)))
        (λ done s t d. (d, ((λ h. h), refl), refl))

  -- There is fuel for the supersteps that the limit leaves.
  abbrev pub Fuelled : ℕ → ℕ → Execution S P → Type 0
  Fuelled rounds limit ex = F out_of_fuel ⊎ (limit - ex.steps < rounds)

  RunEnds-after :
      (limit : ℕ) (ex next : Execution S P) (outcome : ExecutionOutcome S P) (s t u : Session W C P)
      → R s t
      → Advances limit ex (updated next)
      → RunEnds limit next outcome t u
      → RunEnds limit ex outcome s u
  RunEnds-after limit ex next (run_finished report) s t u r a (d, visits, e) =
      (follows report.steps s t u r d, Visits-after limit ex next (run_finished report) a visits, e)
  RunEnds-after limit ex next (run_suspended report) s t u r a (i, visits, e) =
      (run.follows report s t u r i, Visits-after limit ex next (run_suspended report) a visits, e)

  after_superstep-Finishes :
      (limit : ℕ) (ex : Execution S P)
      (loop : Execution S P → Action W C P E (ExecutionOutcome S P))
      → ((next : Execution S P)
          → Advances limit ex (updated next)
          → Finishes R F (RunEnds limit next) (loop next))
      → (phase : Phase S P) (s t : Session W C P)
      → SuperstepEnds env control mode run graph fuel normalizes limit ex phase s t
      → Post
          (λ e s t. F e × R s t)
          (RunEnds limit ex)
          (after_superstep env control mode graph fuel loop phase t).0
          s
          (after_superstep env control mode graph fuel loop phase t).1
  unfolding after_superstep
  after_superstep-Finishes limit ex loop h (interrupted report) s t (i, (steps, visited), e) =
      (i, ((λ h. subst (λ n. n ≤ limit) (sym steps) h), omega arith), e)
  after_superstep-Finishes limit ex loop h (updated next) s t (r, a) =
      Post-after frame (RunEnds limit next) (RunEnds limit ex) (loop next t).0 s t (loop next t).1 r
        (λ outcome. RunEnds-after limit ex next outcome s t _ r a) ((h next a).ends t)

  Fuelled-next :
      (rounds limit : ℕ) (ex next : Execution S P)
      → Advances limit ex (updated next)
      → Fuelled (suc rounds) limit ex
      → Fuelled rounds limit next
  Fuelled-next rounds limit ex next a (inl o) = inl o
  Fuelled-next rounds limit ex next (later, within, balance) (inr h) = inr (omega arith)

  pub execute_loop-Finishes :
      (rounds max_steps limit : ℕ) (ex : Execution S P)
      → Fuelled rounds limit ex
      → StartsWithin env control mode run graph fuel normalizes limit
      → Finishes R F
          (RunEnds limit ex)
          (execute_loop env control mode graph fuel rounds max_steps limit ex)
  unfolding execute_loop
  execute_loop-Finishes zero max_steps limit ex (inl o) starts = record {
    ends = λ s. (o, frame.keep_refl s);
  }
  execute_loop-Finishes zero max_steps limit ex (inr h) starts = elim h [ ]
  execute_loop-Finishes (suc rounds) max_steps limit ex fuelled starts =
      if-Finishes frame (is_empty ex.frontier) (complete_run-Finishes limit ex) (
        follow-Finishes frame _
          (run_superstep-Finishes env control mode run graph fuel normalizes max_steps limit ex
            starts)
          (after_superstep-Finishes limit ex
            (execute_loop env control mode graph fuel rounds max_steps limit)
            (λ next (later, bound, balance).
              execute_loop-Finishes rounds max_steps limit next
                (Fuelled-next rounds limit ex next (later, bound, balance) fuelled) starts)))

  save_empty-Keeps :
      (save_empty_checkpoint : Bool) (ex : Execution S P)
      → Keeps R F Any (save_empty env control mode graph fuel save_empty_checkpoint ex)
  unfolding save_empty
  save_empty-Keeps save_empty_checkpoint ex =
      if-Keeps frame (save_empty_checkpoint && is_empty ex.frontier && should_save mode true)
        (λ p.
          bind-Keeps frame (await_run_boundary-Keeps env control frame ex.steps (saves ex.state _))
            (λ saved q. emit-Keeps frame _ (λ s. inner _ refl)))
        (λ p. pure-Keeps frame tt tt)

  -- The body of `execute_internal`, without the event of its failure.
  pub execute_body-Finishes :
      (rounds max_steps : ℕ) (save_empty_checkpoint : Bool) (ex : Execution S P)
      → Fuelled rounds (saturating_add ex.steps max_steps) ex
      → StartsWithin env control mode run graph fuel normalizes (saturating_add ex.steps max_steps)
      → Finishes R F (RunEnds (saturating_add ex.steps max_steps) ex) (
          save_empty env control mode graph fuel save_empty_checkpoint ex
          >> execute_loop env control mode graph fuel rounds max_steps
              (saturating_add ex.steps max_steps)
              ex)
  execute_body-Finishes rounds max_steps save_empty_checkpoint ex fuelled starts =
      bind-Finishes frame (RunEnds-follows (saturating_add ex.steps max_steps) ex)
        (save_empty-Keeps save_empty_checkpoint ex)
        (λ done q.
          execute_loop-Finishes rounds max_steps (saturating_add ex.steps max_steps) ex fuelled
            starts)
