-- ===== src/Core/Runtime/Writes.antt =====
-- Which runs of crates/group-agent-core/src/runtime.rs write to the checkpointer.
use group.Prelude.{
  nat_eq, string_eq, bool_eq, option_eq, list_eq, ℕ, ◌≡◌, refl, ◌∙◌, ◌≢◌, true, Option, [], arith,
}
use group.Core.Record.{CheckpointId, ThreadId, GraphVersion}
use group.Core.Graph.{CompiledGraph}
use group.Core.Checkpoint.{CheckpointConfig}
use group.Core.Runtime.Event.{GraphEvent}
use group.Core.Runtime.Session.{Environment, EventConfig, Session, Stop, emit}
use group.Core.Runtime.Control.{activate, RunControl}
use group.Core.Runtime.Save.{RuntimeCheckpoint, read_only_replay, enabled_checkpoint}
use group.Core.Runtime.Invoke.{first_session}
use group.Core.Runtime.Recover.{replay}
use group.Core.Runtime.Frame.{Frame, Keeps-relation}
use group.Core.Runtime.Frame.Route.{normalize_frontier-Keeps}
use group.Core.Runtime.Frame.Node.{RunFrame}
use group.Core.Runtime.Frame.Save.{read_only-saves}
use group.Core.Runtime.Frame.Recover.{replay_action-Keeps}

module _ {W S E N U P C : Type 0} (env : Environment W S E N U P C) where
  -- The session has made no further writing call.
  abbrev Quiet : Session W C P → Session W C P → Type 0
  Quiet s t = t.writes ≡ s.writes

  abbrev Never : Stop E → Type 0
  Never e = Unit {0}

  emit_writes :
      (event : GraphEvent) (s : Session W C P) → (emit {E = E} event s).1.writes ≡ s.writes
  unfolding emit
  emit_writes event s = ground arith

  quiet : Frame {E = E} Quiet Never (λ event. true)
  quiet = record {
    keep_refl = λ s. refl;
    keep_trans = λ s t u p q. q ∙ p;
    keep_world = λ s w. refl;
    keep_event = λ event s p. emit_writes event s;
    may_fail = λ e. tt;
    may_panic = tt;
  }

  Quiet-run :
      (mode : RuntimeCheckpoint)
      → ((config : CheckpointConfig) (version : Option GraphVersion)
          → mode ≢ enabled_checkpoint config version)
      → RunFrame env mode Quiet (λ report. Quiet) Never (λ event. true)
  Quiet-run mode h = record {
    frame = quiet;
    inner = λ event p. refl;
    saves = read_only-saves env quiet mode h;
    ends_interrupted = λ report node_id s. emit_writes _ s;
    follows = λ report s t u p q. q ∙ p;
  }

  module _ (graph : CompiledGraph S E N) (rounds fuel max_steps : ℕ) where
    -- A replay makes no writing call of the checkpointer, whatever the graph, the environment and
    -- the fuel are, and however it ends.
    pub writes-replay :
        (thread_id : ThreadId) (checkpoint_id : CheckpointId) (value : Option P)
        (event_config : EventConfig) (run_control : RunControl) (w : W)
        → (replay env graph rounds fuel max_steps thread_id checkpoint_id value event_config
            run_control w).1.writes
          ≡ []
    unfolding replay
    writes-replay thread_id checkpoint_id value event_config run_control w =
        Keeps-relation quiet
          (replay_action-Keeps env (activate run_control (env.now w).0) thread_id checkpoint_id
            (Quiet-run (read_only_replay thread_id checkpoint_id) (λ config version. cc))
            (λ event. refl) (λ s parent. refl) graph rounds fuel max_steps
            (normalize_frontier-Keeps graph quiet (λ event p. refl) tt fuel) tt value)
          (first_session env graph rounds fuel max_steps event_config w)
