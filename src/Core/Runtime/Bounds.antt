-- ===== src/Core/Runtime/Bounds.antt =====
-- The steps of a run of crates/group-agent-core/src/runtime.rs, and its end.
use group.Prelude.{
  leb, le→leb, length, nat_eq, string_eq, bool_eq, option_eq, list_eq, Result, ok, err, ℕ, ◌+◌, ◌≤◌,
  ◌≡◌, refl, ◌≢◌, inl, Bool, true, ◌&&◌, List, [], ◌∷◌, ◌++◌, arith,
}
use group.Core.Transition.{NodeIndex}
use group.Core.Graph.{CompiledGraph}
use group.Core.Runtime.Event.{GraphEvent, node_started, run_completed}
use group.Core.Runtime.Session.{
  Environment, Session, Stop, failed, panicked, out_of_fuel, emit, fail_with, failing, ◌>>◌,
}
use group.Core.Runtime.Control.{ActiveControl}
use group.Core.Runtime.Route.{SubgraphBoundary, normalize_frontier}
use group.Core.Runtime.Save.{RuntimeCheckpoint}
use group.Core.Runtime.Node.{Execution}
use group.Core.Runtime.Execute.{
  ExecutionOutcome, run_finished, run_suspended, usize_max, saturating_add, execute_internal,
  execute_loop, save_empty,
}
use group.Core.Runtime.Frame.{Frame, Keeps, Any, Post, is_plain}
use group.Core.Runtime.Frame.Route.{normalize_frontier-Keeps}
use group.Core.Runtime.Frame.Node.{RunFrame}
use group.Core.Runtime.Frame.Save.{save_checkpoint-Keeps}
use group.Core.Runtime.Frame.Execute.{RunEnds, execute_body-Finishes}
use group.Core.Runtime.Protocol.{Emits, Emits-trans, emit_events, unchanged}

-- A result that is within a limit of steps, and has visited a node for each step; an interrupted run
-- has visited the node that asked besides.
abbrev pub Within :
    {S P E : Type 0} → ℕ → Execution S P → Result (ExecutionOutcome S P) (Stop E) → Type 0
Within limit ex (ok (run_finished report)) =
    (report.steps ≤ limit)
    × (report.steps + length ex.visited_nodes ≡ ex.steps + length report.visited_nodes)
Within limit ex (ok (run_suspended report)) =
    (report.steps ≤ limit)
    × (report.steps + length ex.visited_nodes + 1 ≡ ex.steps + length report.visited_nodes)
Within limit ex (err e) = Unit {0}

-- An event that starts no node beyond a step.
abbrev pub is_within : ℕ → GraphEvent → Bool
is_within limit (node_started run_id path step) = leb step limit
is_within limit _ = true

abbrev pub are_within : ℕ → List GraphEvent → Bool
are_within limit [] = true
are_within limit (event ∷ rest) = is_within limit event && are_within limit rest

-- A session that has emitted some events more, which start no node beyond a step.
pub record StartsUpTo {W C P : Type 0} (limit : ℕ) (s t : Session W C P) : Type 0 where
  pub events : List GraphEvent
  pub all_within : are_within limit events ≡ true
  pub emitted : Emits events s t

are_within-append :
    (limit : ℕ) (events more : List GraphEvent)
    → are_within limit events ≡ true
    → are_within limit more ≡ true
    → are_within limit (events ++ more) ≡ true
are_within-append limit [] more h k = k
are_within-append limit (event ∷ rest) more h k = ground (arith, are_within-append limit rest more)

plain_within :
    (limit : ℕ) (event : GraphEvent) → is_plain event ≡ true → is_within limit event ≡ true
plain_within limit event h = ground arith

module _ {W S E N U P C : Type 0} (env : Environment W S E N U P C) (control : ActiveControl)
    (mode : RuntimeCheckpoint) where
  abbrev pub Free : Session W C P → Session W C P → Type 0
  Free s t = Unit {0}

  pub free :
      (F : Stop E → Type 0)
      → ((e : Stop E) → e ≢ out_of_fuel → F e)
      → Frame {E = E} Free F (λ event. true)
  free F h = record {
    keep_refl = λ s. tt;
    keep_trans = λ s t u p q. tt;
    keep_world = λ s w. tt;
    keep_event = λ event s p. tt;
    may_fail = λ e. h (failed e) cc;
    may_panic = h panicked cc;
  }

  pub free_run :
      (F : Stop E → Type 0) (h : (e : Stop E) → e ≢ out_of_fuel → F e)
      → RunFrame env mode Free (λ report. Free) F (λ event. true)
  free_run F h = record {
    frame = free F h;
    inner = λ event p. refl;
    saves = save_checkpoint-Keeps env (free F h) (λ s w entry. tt) (λ s parent. tt) mode;
    ends_interrupted = λ report node_id s. tt;
    follows = λ report s t u p q. tt;
  }

  -- The relation of a run under a limit.
  module _ (limit : ℕ) where
    abbrev Kept : Session W C P → Session W C P → Type 0
    Kept = StartsUpTo limit

    Never : Stop E → Type 0
    Never e = Unit {0}

    same : (s t : Session W C P) → Emits [] s t → Kept s t
    same s t h = record { events = []; all_within = refl; emitted = h }

    Kept-trans : (s t u : Session W C P) → Kept s t → Kept t u → Kept s u
    Kept-trans s t u h k = record {
      events = h.events ++ k.events;
      all_within = are_within-append limit h.events k.events h.all_within k.all_within;
      emitted = Emits-trans h.events k.events s t u h.emitted k.emitted;
    }

    emit_within :
        (event : GraphEvent) (s : Session W C P)
        → is_within limit event ≡ true
        → Kept s (emit {E = E} event s).1
    emit_within event s p = record {
      events = event ∷ [];
      all_within = ground arith;
      emitted = emit_events E event s;
    }

    frame : Frame {E = E} Kept Never (is_within limit)
    unfolding Never
    frame = record {
      keep_refl = λ s. same s s (unchanged env control mode s s.world s.expected_parent s.writes);
      keep_trans = Kept-trans;
      keep_world = λ s w. same s _ (unchanged env control mode s w s.expected_parent s.writes);
      keep_event = emit_within;
      may_fail = λ e. tt;
      may_panic = tt;
    }

    run : RunFrame env mode Kept (λ report. Kept) Never (is_within limit)
    unfolding Never
    run = record {
      frame = frame;
      inner = plain_within limit;
      saves =
          save_checkpoint-Keeps env frame
            (λ s w entry.
              same s _ (unchanged env control mode s w s.expected_parent (s.writes ++ entry ∷ [])))
            (λ s parent. same s _ (unchanged env control mode s s.world parent s.writes)) mode;
      ends_interrupted = λ report node_id s. emit_within _ s refl;
      follows = λ report. Kept-trans;
    }

    module _ (graph : CompiledGraph S E N) (rounds fuel max_steps : ℕ) where
      normalizes :
          (state : S) (step : ℕ) (frontier : List NodeIndex) (boundaries : List SubgraphBoundary)
          → Keeps Kept Never Any (normalize_frontier graph fuel state step frontier boundaries)
      unfolding Never frame
      normalizes = normalize_frontier-Keeps graph frame (plain_within limit) tt fuel

      abbrev Ended : Execution S P → ExecutionOutcome S P → Session W C P → Session W C P → Type 0
      Ended =
          RunEnds env control mode {D = λ steps. Kept} run
            (λ s steps. emit_within (run_completed s.run_id steps) s refl) (λ steps. Kept-trans)
            graph fuel normalizes limit

      bounded :
          (ex : Execution S P) (p : Result (ExecutionOutcome S P) (Stop E) × Session W C P)
          (s : Session W C P)
          → ex.steps ≤ limit
          → Post (λ e s t. Never e × Kept s t) (Ended ex) p.0 s p.1
          → Within limit ex (fail_with p).0 × Kept s (fail_with p).1
      unfolding fail_with
      bounded ex (ok (run_finished report), t) s h (k, (bound, visited), e) =
          ((bound h, visited), k)
      bounded ex (ok (run_suspended report), t) s h (k, (bound, visited), e) =
          ((bound h, visited), k)
      bounded ex (err (failed e), t) s h (f, k) = (tt, Kept-trans s t _ k (emit_within _ t refl))
      bounded ex (err panicked, t) s h (f, k) = (tt, k)
      bounded ex (err out_of_fuel, t) s h (f, k) = (tt, k)

  module _ (graph : CompiledGraph S E N) (rounds fuel max_steps : ℕ) where
    -- A run takes its steps within the limit, which is `max_steps` steps from where it starts and at
    -- most the largest `usize`, and visits a node for each step; a run that is interrupted visits
    -- the node that asked for the interrupt besides. However a run ends, with an error or a panic
    -- also, each node that it starts, by the events that it emits, has its step within the limit.
    -- This holds in each mode of checkpoints, for each graph and environment, when the run starts
    -- at a step that is a `usize`.
    pub execute_internal-Within :
        (save_empty_checkpoint : Bool) (ex : Execution S P) (s : Session W C P)
        → ex.steps ≤ usize_max
        → Within
            (saturating_add ex.steps max_steps)
            ex
            (execute_internal env control mode graph fuel rounds max_steps save_empty_checkpoint ex
              s).0
          × StartsUpTo
              (saturating_add ex.steps max_steps)
              s
              (execute_internal env control mode graph fuel rounds max_steps save_empty_checkpoint
                ex s).1
    unfolding execute_internal failing Never
    execute_internal-Within save_empty_checkpoint ex s h =
        let limit = saturating_add ex.steps max_steps in
        let body =
          save_empty env control mode graph fuel save_empty_checkpoint ex
          >> execute_loop env control mode graph fuel rounds max_steps limit ex in
        bounded limit graph rounds fuel max_steps ex (body s) s (omega arith) (
          (execute_body-Finishes env control mode {D = λ steps. Kept limit} (run limit)
              (λ s steps. emit_within limit (run_completed s.run_id steps) s refl)
              (λ steps. Kept-trans limit) graph fuel (normalizes limit graph rounds fuel max_steps)
              rounds max_steps save_empty_checkpoint ex (inl tt)
              (λ id path step within. le→leb step limit within)).ends
            s)
