-- ===== src/Core/Runtime/Invocation.antt =====
-- An invocation of crates/group-agent-core/src/runtime.rs starts with one event and ends with one
-- that tells how it ended.
use group.Prelude.{
  nat_eq, string_eq, bool_eq, option_eq, list_eq, Result, ok, err, ℕ, refl, sym, subst, inl, Bool,
  true, Option, List, [], ◌∷◌,
}
use group.Core.Transition.{NodeIndex}
use group.Core.Graph.{CompiledGraph}
use group.Core.Runtime.Event.{failure_of, run_started, run_completed, run_failed, GraphEvent}
use group.Core.Runtime.Session.{
  Environment, Session, Stop, failed, panicked, out_of_fuel, Action, continue_with, ◌>>=◌, ◌>>◌,
  emit, fail_with, failing,
}
use group.Core.Runtime.Control.{ActiveControl}
use group.Core.Runtime.Route.{SubgraphBoundary, normalize_frontier}
use group.Core.Runtime.Save.{RuntimeCheckpoint}
use group.Core.Runtime.Node.{Execution}
use group.Core.Runtime.Execute.{
  ExecutionOutcome, run_finished, run_suspended, saturating_add, save_empty, execute_loop,
  execute_internal,
}
use group.Core.Record.{RunId, CheckpointId}
use group.Core.Runtime.Invoke.{
  initial_execution, entry_frontier, prepare, invoke_internal, parent_of,
}
use group.Core.Runtime.Frame.{
  is_inner, is_plain-is_inner, emit-ok, Frame, Keeps, Any, Post, bind-Keeps, then-Keeps, pure-Keeps,
}
use group.Core.Runtime.Frame.Control.{check_run-Keeps}
use group.Core.Runtime.Frame.Route.{normalize_frontier-Keeps, emit_boundaries-Keeps}
use group.Core.Runtime.Frame.Execute.{RunEnds, execute_body-Finishes}
use group.Core.Runtime.Frame.Invoke.{first_path-Keeps}
use group.Core.Runtime.Protocol.{
  EmitsThen, nothing, EmitsThen-trans, emit_events, emit_then, Inner, Never, Inner-frame, Inner-run,
  Concludes, Concludes-after,
}

module _ {W S E N U P C : Type 0} (env : Environment W S E N U P C) (control : ActiveControl)
    (mode : RuntimeCheckpoint) (graph : CompiledGraph S E N) (rounds fuel max_steps : ℕ) where
  abbrev Kept : Session W C P → Session W C P → Type 0
  Kept = Inner env control mode

  abbrev frame : Frame {E = E} Kept (Never env control mode) is_inner
  frame = Inner-frame env control mode

  normalizes :
      (state : S) (step : ℕ) (frontier : List NodeIndex) (boundaries : List SubgraphBoundary)
      → Keeps Kept
          (Never env control mode)
          Any
          (normalize_frontier graph fuel state step frontier boundaries)
  normalizes = normalize_frontier-Keeps graph frame is_plain-is_inner tt fuel

  abbrev Ended : ℕ → Execution S P → ExecutionOutcome S P → Session W C P → Session W C P → Type 0
  Ended =
      RunEnds env control mode
        {D = λ steps s t. EmitsThen [] (λ run_id. run_completed run_id steps ∷ []) s t}
        (Inner-run env control mode)
        (λ s steps. emit_then E (λ run_id. run_completed run_id steps) s)
        (λ steps s t u. EmitsThen-trans [] (λ run_id. run_completed run_id steps ∷ []) s t u) graph
        fuel normalizes

  conclude :
      (limit : ℕ) (ex : Execution S P) (p : Result (ExecutionOutcome S P) (Stop E) × Session W C P)
      (s : Session W C P)
      → Post (λ e s t. Unit {0} × Kept s t) (Ended limit ex) p.0 s p.1
      → Concludes env control mode [] (fail_with p).0 s (fail_with p).1
  unfolding fail_with
  conclude limit ex (ok (run_finished report), t) s (d, visits, e) = (d, e)
  conclude limit ex (ok (run_suspended report), t) s (i, visits, e) = (i, e)
  conclude limit ex (err (failed e), t) s (f, r) =
      EmitsThen-trans [] (λ run_id. run_failed run_id (failure_of e) ∷ []) s t _ r
        (emit_then E (λ run_id. run_failed run_id (failure_of e)) t)
  conclude limit ex (err panicked, t) s (f, r) = r
  conclude limit ex (err out_of_fuel, t) s (f, r) = r

  execute_internal-Concludes :
      (save_empty_checkpoint : Bool) (ex : Execution S P) (s : Session W C P)
      → Concludes env control mode []
          (execute_internal env control mode graph fuel rounds max_steps save_empty_checkpoint ex
            s).0
          s
          (execute_internal env control mode graph fuel rounds max_steps save_empty_checkpoint ex
            s).1
  unfolding execute_internal failing
  execute_internal-Concludes save_empty_checkpoint ex s =
      let limit = saturating_add ex.steps max_steps in
      let body =
        save_empty env control mode graph fuel save_empty_checkpoint ex
        >> execute_loop env control mode graph fuel rounds max_steps limit ex in
      conclude limit ex (body s) s (
        (execute_body-Finishes env control mode
            {D = λ steps s t. EmitsThen [] (λ run_id. run_completed run_id steps ∷ []) s t}
            (Inner-run env control mode)
            (λ s steps. emit_then E (λ run_id. run_completed run_id steps) s)
            (λ steps s t u. EmitsThen-trans [] (λ run_id. run_completed run_id steps ∷ []) s t u)
            graph fuel normalizes rounds max_steps save_empty_checkpoint ex (inl tt)
            (λ id path step h. refl)).ends
          s)

  -- From the event of the start on.
  abbrev Started : Session W C P → Session W C P → Type 0
  Started s t = EmitsThen (run_started s.run_id max_steps ∷ []) nothing s t

  before :
      {A : Type 0} (Q : A → Type 0) (s t u : Session W C P) (r : Result A (Stop E))
      → Started s t
      → Post (λ e s t. Unit {0} × Kept s t) (λ a s t. Kept s t × Q a) r t u
      → Post (λ e s t. Unit {0} × Started s t) (λ a s t. Started s t × Q a) r s u
  before Q s t u (ok a) h (k, q) = (EmitsThen-trans _ nothing s t u h k, q)
  before Q s t u (err e) h (f, k) = (f, EmitsThen-trans _ nothing s t u h k)

  continue-Started :
      {A B : Type 0} (Q : A → Type 0) (Q' : B → Type 0) (next : A → Action W C P E B)
      (s : Session W C P) (p : Result A (Stop E) × Session W C P)
      → Post (λ e s t. Unit {0} × Started s t) (λ a s t. Started s t × Q a) p.0 s p.1
      → ((a : A) → Q a → Keeps Kept (Never env control mode) Q' (next a))
      → Post
          (λ e s t. Unit {0} × Started s t)
          (λ a s t. Started s t × Q' a)
          (continue_with next p).0
          s
          (continue_with next p).1
  continue-Started Q Q' next s (ok a, t) (r, q) h =
      before Q' s t (next a t).1 (next a t).0 r ((h a q).ends t)
  continue-Started Q Q' next s (err e, t) h k = h

  bind-Started :
      {A B : Type 0} {Q : A → Type 0} {Q' : B → Type 0} {action : Action W C P E A}
      {next : A → Action W C P E B}
      → Keeps Started (Never env control mode) Q action
      → ((a : A) → Q a → Keeps Kept (Never env control mode) Q' (next a))
      → Keeps Started (Never env control mode) Q' (action >>= next)
  bind-Started {Q} {Q'} {action} {next} h k = record {
    ends = λ s. continue-Started Q Q' next s (action s) (h.ends s) k;
  }

  starts :
      Keeps {A = Unit {0}} Started
        (Never env control mode)
        Any
        (λ s. emit (run_started s.run_id max_steps) s)
  starts = record {
    ends = λ s.
        subst
          (λ r.
            Post (λ e s t. Unit {0} × Started s t) (λ a s t. Started s t × Any a) r s
              (emit {E = E} (run_started s.run_id max_steps) s).1)
          (sym (emit-ok frame (run_started s.run_id max_steps) s))
          (record { inner_events = []; all_inner = refl; emitted = emit_events E _ s }, tt);
  }

  prepare-Started :
      (initial_state : S)
      → Keeps Started
          (Never env control mode)
          Any
          (prepare env graph rounds fuel max_steps control initial_state)
  unfolding prepare
  prepare-Started initial_state =
      bind-Started
        (bind-Started starts
          (λ done q. normalizes initial_state 0 (entry_frontier graph.entry_index) []))
        (λ (frontier, boundaries) q.
          bind-Keeps frame
            (then-Keeps frame (emit_boundaries-Keeps graph frame is_plain-is_inner boundaries)
              (first_path-Keeps env graph rounds fuel max_steps frame is_plain-is_inner frontier))
            (λ initial_node q.
              then-Keeps frame (check_run-Keeps env control frame initial_node _)
                (pure-Keeps frame frontier tt)))

  -- The loop, once there is a frontier.
  abbrev executed : S → List NodeIndex → Action W C P E (ExecutionOutcome S P)
  executed initial_state frontier =
      execute_internal env control mode graph fuel rounds max_steps true
        (initial_execution initial_state frontier)

  prepared-Concludes :
      (initial_state : S) (s : Session W C P) (p : Result (List NodeIndex) (Stop E) × Session W C P)
      → Post (λ e s t. Unit {0} × Started s t) (λ a s t. Started s t × Any a) p.0 s p.1
      → Concludes env control mode
          (run_started s.run_id max_steps ∷ [])
          (continue_with (executed initial_state) (fail_with p)).0
          s
          (continue_with (executed initial_state) (fail_with p)).1
  unfolding fail_with
  prepared-Concludes initial_state s (ok frontier, t) (r, q) =
      Concludes-after env control mode _ (executed initial_state frontier t).0 s t
        (executed initial_state frontier t).1 r
        (execute_internal-Concludes true (initial_execution initial_state frontier) t)
  prepared-Concludes initial_state s (err (failed e), t) (f, r) =
      EmitsThen-trans _ (λ run_id. run_failed run_id (failure_of e) ∷ []) s t _ r
        (emit_then E (λ run_id. run_failed run_id (failure_of e)) t)
  prepared-Concludes initial_state s (err panicked, t) (f, r) = r
  prepared-Concludes initial_state s (err out_of_fuel, t) (f, r) = r

  -- The parent that a save expects is no matter to the events.
  same_events :
      (first : List GraphEvent) (last : RunId → List GraphEvent) (parent : Option CheckpointId)
      (s t : Session W C P)
      → EmitsThen first last (record s { expected_parent = parent }) t
      → EmitsThen first last s t
  same_events first last parent s t h = record {
    inner_events = h.inner_events;
    all_inner = h.all_inner;
    emitted = record {
      same_run = h.emitted.same_run;
      same_config = h.emitted.same_config;
      retained = h.emitted.retained;
      delivered = h.emitted.delivered;
    };
  }

  same_conclusion :
      (first : List GraphEvent) (r : Result (ExecutionOutcome S P) (Stop E))
      (parent : Option CheckpointId) (s t : Session W C P)
      → Concludes env control mode first r (record s { expected_parent = parent }) t
      → Concludes env control mode first r s t
  same_conclusion first (ok (run_finished report)) parent s t (h, e) =
      (same_events first (λ run_id. run_completed run_id report.steps ∷ []) parent s t h, e)
  same_conclusion first (ok (run_suspended report)) parent s t (h, e) =
      (record { node_id = h.node_id; emits = same_events first _ parent s t h.emits }, e)
  same_conclusion first (err (failed e)) parent s t h =
      same_events first (λ run_id. run_failed run_id (failure_of e) ∷ []) parent s t h
  same_conclusion first (err panicked) parent s t h = same_events first nothing parent s t h
  same_conclusion first (err out_of_fuel) parent s t h = same_events first nothing parent s t h

  -- An invocation emits `RunStarted` first, then events of nodes, routes, subgraphs, supersteps and
  -- checkpoints only, and last the one event that tells its end: `RunCompleted` with the steps of
  -- the report, `RunInterrupted` with the identifiers, the superstep and the steps of the report, or
  -- `RunFailed` with the failure that the error maps to; after a panic, or when the fuel of the
  -- model has run out, none. The sink and the retained events each get these as they are configured,
  -- and a report holds the retained events. This holds in each mode of checkpoints.
  pub invoke_internal-Concludes :
      (initial_state : S) (s : Session W C P)
      → Concludes env control mode
          (run_started s.run_id max_steps ∷ [])
          (invoke_internal env graph rounds fuel max_steps mode initial_state control s).0
          s
          (invoke_internal env graph rounds fuel max_steps mode initial_state control s).1
  unfolding invoke_internal failing
  invoke_internal-Concludes initial_state s =
      let opened = record s { expected_parent = parent_of mode } in
      let p = prepare env graph rounds fuel max_steps control initial_state opened in
      let last = continue_with (executed initial_state) (fail_with p) in
      same_conclusion (run_started s.run_id max_steps ∷ []) last.0 (parent_of mode) s last.1
        (prepared-Concludes initial_state opened p ((prepare-Started initial_state).ends opened))
