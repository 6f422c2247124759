-- ===== src/Core/Runtime/Protocol.antt =====
-- The events of an invocation of crates/group-agent-core/src/runtime.rs, in their order.
use group.Prelude.{
  nat_eq, string_eq, bool_eq, option_eq, list_eq, Result, ok, err, ◌≡◌, refl, sym, ap, ◌∙◌, subst,
  Bool, true, false, ◌&&◌, Option, List, [], ◌∷◌, ◌++◌, append-nil, append_assoc, arith,
}
use group.Core.Path.{NodePath}
use group.Core.Record.{RunId, CheckpointId}
use group.Core.Runtime.Event.{GraphEvent, failure_of, run_completed, run_interrupted, run_failed}
use group.Core.Runtime.Session.{
  CheckpointWrite, Environment, retains, Session, Stop, failed, panicked, out_of_fuel, emit,
}
use group.Core.Runtime.Control.{ActiveControl}
use group.Core.Runtime.Save.{RuntimeCheckpoint}
use group.Core.Runtime.Node.{InterruptReport}
use group.Core.Runtime.Execute.{ExecutionOutcome, run_finished, run_suspended}
use group.Core.Runtime.Frame.{Frame, is_inner, is_plain-is_inner}
use group.Core.Runtime.Frame.Node.{RunFrame}
use group.Core.Runtime.Frame.Save.{save_checkpoint-Keeps}

-- What a sink or a report gets of some events more.
abbrev pub keep_events : Bool → List GraphEvent → List GraphEvent → List GraphEvent
keep_events true events more = events ++ more
keep_events false events more = events

-- A session that has emitted some events more, in the same run and under the same configuration.
pub record Emits {W C P : Type 0} (events : List GraphEvent) (s t : Session W C P) : Type 0 where
  pub same_run : t.run_id ≡ s.run_id
  pub same_config : t.config ≡ s.config
  pub retained : t.retained ≡ keep_events (retains s.config.retention) s.retained events
  pub delivered : t.delivered ≡ keep_events s.config.has_sink s.delivered events

abbrev pub are_inner : List GraphEvent → Bool
are_inner [] = true
are_inner (event ∷ rest) = is_inner event && are_inner rest

-- Some events first, then inner ones, then the last ones, which name the run.
pub record EmitsThen {W C P : Type 0} (first : List GraphEvent) (last : RunId → List GraphEvent)
    (s t : Session W C P) : Type 0 where
  pub inner_events : List GraphEvent
  pub all_inner : are_inner inner_events ≡ true
  pub emitted : Emits (first ++ inner_events ++ last s.run_id) s t

abbrev pub nothing : RunId → List GraphEvent
nothing run_id = []

-- The end of an interrupted run: the event has what the report has, and the path of a node.
pub record Interrupts {W S C P : Type 0} (first : List GraphEvent) (report : InterruptReport S P)
    (s t : Session W C P) : Type 0 where
  pub node_id : NodePath
  pub emits :
      EmitsThen first
        (λ run_id.
          run_interrupted run_id report.interrupt.id report.checkpoint_id report.thread_id node_id
            report.superstep report.steps
          ∷ [])
        s
        t

keep_events-nil : (keep : Bool) (events : List GraphEvent) → events ≡ keep_events keep events []
keep_events-nil true events = sym (append-nil events)
keep_events-nil false events = refl

keep_events-append :
    (keep : Bool) (events more later : List GraphEvent)
    → keep_events keep (keep_events keep events more) later
      ≡ keep_events keep events (more ++ later)
keep_events-append true events more later = append_assoc events more later
keep_events-append false events more later = refl

are_inner-append :
    (events more : List GraphEvent)
    → are_inner events ≡ true
    → are_inner more ≡ true
    → are_inner (events ++ more) ≡ true
are_inner-append [] more h k = k
are_inner-append (event ∷ rest) more h k = ground (arith, are_inner-append rest more)

append_between :
    (first events more last : List GraphEvent)
    → first ++ events ++ [] ++ (more ++ last) ≡ first ++ (events ++ more) ++ last
append_between first events more last =
    ap (λ xs. xs ++ (more ++ last)) (append-nil (first ++ events))
    ∙ sym (append_assoc (first ++ events) more last)
    ∙ ap (λ xs. xs ++ last) (append_assoc first events more)

module _ {W C P : Type 0} where
  pub Emits-trans :
      (events more : List GraphEvent) (s t u : Session W C P)
      → Emits events s t
      → Emits more t u
      → Emits (events ++ more) s u
  Emits-trans events more s t u h k = record {
    same_run = k.same_run ∙ h.same_run;
    same_config = k.same_config ∙ h.same_config;
    retained =
        k.retained
        ∙ (λ i. keep_events (retains (h.same_config i).retention) (h.retained i) more)
        ∙ keep_events-append (retains s.config.retention) s.retained events more;
    delivered =
        k.delivered
        ∙ (λ i. keep_events (h.same_config i).has_sink (h.delivered i) more)
        ∙ keep_events-append s.config.has_sink s.delivered events more;
  }

  pub EmitsThen-trans :
      (first : List GraphEvent) (last : RunId → List GraphEvent) (s t u : Session W C P)
      → EmitsThen first nothing s t
      → EmitsThen [] last t u
      → EmitsThen first last s u
  EmitsThen-trans first last s t u h k = record {
    inner_events = h.inner_events ++ k.inner_events;
    all_inner = are_inner-append h.inner_events k.inner_events h.all_inner k.all_inner;
    emitted =
        subst (λ events. Emits events s u)
          (ap (λ id. first ++ h.inner_events ++ [] ++ (k.inner_events ++ last id))
              h.emitted.same_run
            ∙ append_between first h.inner_events k.inner_events (last s.run_id))
          (Emits-trans (first ++ h.inner_events ++ []) (k.inner_events ++ last t.run_id) s t u
            h.emitted k.emitted);
  }

  pub emit_events :
      (E : Type 0) (event : GraphEvent) (s : Session W C P)
      → Emits (event ∷ []) s (emit {E = E} event s).1
  unfolding emit
  emit_events E event s = record {
    same_run = ground arith;
    same_config = ground arith;
    retained = ground arith;
    delivered = ground arith;
  }

  -- One event, at the end of those that a session has emitted.
  pub emit_then :
      (E : Type 0) (event : RunId → GraphEvent) (s : Session W C P)
      → EmitsThen [] (λ run_id. event run_id ∷ []) s (emit {E = E} (event s.run_id) s).1
  emit_then E event s = record {
    inner_events = [];
    all_inner = refl;
    emitted = emit_events E (event s.run_id) s;
  }

module _ {W S E N U P C : Type 0} (env : Environment W S E N U P C) (control : ActiveControl)
    (mode : RuntimeCheckpoint) where
  abbrev pub Inner : Session W C P → Session W C P → Type 0
  Inner s t = EmitsThen [] nothing s t

  abbrev pub Never : Stop E → Type 0
  Never e = Unit {0}

  same : (s t : Session W C P) → Emits [] s t → Inner s t
  same s t h = record { inner_events = []; all_inner = refl; emitted = h }

  pub unchanged :
      (s : Session W C P) (w : W) (parent : Option CheckpointId)
      (writes : List (CheckpointWrite C P))
      → Emits [] s (record s { world = w; expected_parent = parent; writes = writes })
  unchanged s w parent writes = record {
    same_run = refl;
    same_config = refl;
    retained = keep_events-nil (retains s.config.retention) s.retained;
    delivered = keep_events-nil s.config.has_sink s.delivered;
  }

  pub Inner-frame : Frame {E = E} Inner Never is_inner
  Inner-frame = record {
    keep_refl = λ s. same s s (unchanged s s.world s.expected_parent s.writes);
    keep_trans = λ s t u p q. EmitsThen-trans [] nothing s t u p q;
    keep_world = λ s w. same s _ (unchanged s w s.expected_parent s.writes);
    keep_event = λ event s p. record {
      inner_events = event ∷ [];
      all_inner = ground arith;
      emitted = emit_events E event s;
    };
    may_fail = λ e. tt;
    may_panic = tt;
  }

  pub Inner-run : RunFrame env mode Inner (λ report. Interrupts [] report) Never is_inner
  Inner-run = record {
    frame = Inner-frame;
    inner = is_plain-is_inner;
    saves =
        save_checkpoint-Keeps env Inner-frame
          (λ s w entry. same s _ (unchanged s w s.expected_parent (s.writes ++ entry ∷ [])))
          (λ s parent. same s _ (unchanged s s.world parent s.writes)) mode;
    ends_interrupted = λ report node_id s. record {
      node_id = node_id;
      emits =
          emit_then E
            (λ run_id.
              run_interrupted run_id report.interrupt.id report.checkpoint_id report.thread_id
                node_id report.superstep report.steps)
            s;
    };
    follows = λ report s t u p q. record {
      node_id = q.node_id;
      emits = EmitsThen-trans [] _ s t u p q.emits;
    };
  }

  -- The events of a result: those of the start, inner ones, and the one that tells the end. A report
  -- holds the events that were retained.
  abbrev pub Concludes :
      List GraphEvent
      → Result (ExecutionOutcome S P) (Stop E)
      → Session W C P
      → Session W C P
      → Type 0
  Concludes first (ok (run_finished report)) s t =
      EmitsThen first (λ run_id. run_completed run_id report.steps ∷ []) s t
      × (report.events ≡ t.retained)
  Concludes first (ok (run_suspended report)) s t =
      Interrupts first report s t × (report.events ≡ t.retained)
  Concludes first (err (failed e)) s t =
      EmitsThen first (λ run_id. run_failed run_id (failure_of e) ∷ []) s t
  Concludes first (err panicked) s t = EmitsThen first nothing s t
  Concludes first (err out_of_fuel) s t = EmitsThen first nothing s t

  pub Concludes-after :
      (first : List GraphEvent) (r : Result (ExecutionOutcome S P) (Stop E)) (s t u : Session W C P)
      → EmitsThen first nothing s t
      → Concludes [] r t u
      → Concludes first r s u
  Concludes-after first (ok (run_finished report)) s t u h (k, e) =
      (EmitsThen-trans first (λ run_id. run_completed run_id report.steps ∷ []) s t u h k, e)
  Concludes-after first (ok (run_suspended report)) s t u h (k, e) =
      (record { node_id = k.node_id; emits = EmitsThen-trans first _ s t u h k.emits }, e)
  Concludes-after first (err (failed e)) s t u h k =
      EmitsThen-trans first (λ run_id. run_failed run_id (failure_of e) ∷ []) s t u h k
  Concludes-after first (err panicked) s t u h k = EmitsThen-trans first nothing s t u h k
  Concludes-after first (err out_of_fuel) s t u h k = EmitsThen-trans first nothing s t u h k
