-- ===== src/Core/Runtime/Frame/Load.antt =====
-- The load and the restore of a checkpoint keep a session's relation.
use group.Prelude.{
  ◌==◌, nat_eq, string_eq, bool_eq, option_eq, list_eq, Result, ok, err, ℕ, ◌≡◌, refl, Bool, true,
  Option, none, some, List, [], ◌∷◌,
}
use group.Core.Path.{GraphPath, prefixes}
use group.Core.Record.{CheckpointId, RunId, BranchId, ThreadId}
use group.Core.Store.{CheckpointerError}
use group.Core.Transition.{NodeIndex}
use group.Core.Graph.{CompiledGraph}
use group.Core.Checkpoint.{CheckpointInterrupt, Checkpoint, ResumeTarget, latest, exact}
use group.Core.Runtime.Error.{checkpoint_not_found, CheckpointIncompatibility, GraphRunError}
use group.Core.Runtime.Event.{GraphEvent}
use group.Core.Runtime.Session.{Environment, Session, Stop, ◌>>=◌}
use group.Core.Runtime.Control.{ActiveControl}
use group.Core.Runtime.Resume.{Validated, validate_and_resolve_checkpoint_frontier}
use group.Core.Runtime.Load.{
  ResumeConfig, found, load_exact, load_head, missing_head, load_target, incompatible, check_id,
  check_thread, resolved_frontier, match_resume, restored_state, restore_checkpoint, emit_prefixes,
  emit_enclosing,
}
use group.Core.Runtime.Frame.{
  Frame, Keeps, Any, is_plain, bind-Keeps, then-Keeps, pure-Keeps, panic-Keeps, raise-Keeps,
  call-Keeps, emit-Keeps, if-Keeps,
}
use group.Core.Runtime.Frame.Control.{check_run-Keeps}
use group.Core.Runtime.Frame.Route.{node_at-Keeps}

module _ {W S E N U P C : Type 0} (env : Environment W S E N U P C) (control : ActiveControl)
    (graph : CompiledGraph S E N) {R : Session W C P → Session W C P → Type 0} {F : Stop E → Type 0}
    {allowed : GraphEvent → Bool} (frame : Frame R F allowed)
    (inner : (event : GraphEvent) → is_plain event ≡ true → allowed event ≡ true) where
  found-Keeps :
      (thread_id : ThreadId) (requested : Option CheckpointId) (missing : RunId → GraphRunError E)
      (result : Result (Option (Checkpoint C P)) CheckpointerError)
      → Keeps R F Any (found env graph thread_id requested missing result)
  found-Keeps thread_id requested missing (err source) = raise-Keeps frame _
  found-Keeps thread_id requested missing (ok none) = raise-Keeps frame _
  found-Keeps thread_id requested missing (ok (some checkpoint)) = pure-Keeps frame checkpoint tt

  pub load_exact-Keeps :
      (thread_id : ThreadId) (checkpoint_id : CheckpointId)
      → Keeps R F Any (load_exact env graph thread_id checkpoint_id)
  unfolding load_exact
  load_exact-Keeps thread_id checkpoint_id =
      bind-Keeps frame (call-Keeps frame (env.get_checkpoint thread_id checkpoint_id)) (λ result q.
        found-Keeps thread_id (some checkpoint_id)
          (λ run_id. checkpoint_not_found run_id thread_id (some checkpoint_id)) result)

  load_head-Keeps :
      (thread_id : ThreadId) (branch_id : Option BranchId)
      → Keeps R F Any (load_head env graph thread_id branch_id)
  load_head-Keeps thread_id none = call-Keeps frame (env.latest thread_id)
  load_head-Keeps thread_id (some branch_id) =
      call-Keeps frame (env.branch_head thread_id branch_id)

  pub load_target-Keeps : (config : ResumeConfig P) → Keeps R F Any (load_target env graph config)
  unfolding load_target
  load_target-Keeps config = by_target config.target
    where
      by_target :
          (target : ResumeTarget)
          → Keeps R F Any (elim target [
            | latest ↦
                load_head env graph config.thread_id config.branch_id
                >>= found env graph config.thread_id none
                    (missing_head env graph config.thread_id config.branch_id)
            | exact checkpoint_id ↦ load_exact env graph config.thread_id checkpoint_id
          ])
      by_target latest =
          bind-Keeps frame (load_head-Keeps config.thread_id config.branch_id) (λ result q.
            found-Keeps config.thread_id none
              (missing_head env graph config.thread_id config.branch_id) result)
      by_target (exact checkpoint_id) = load_exact-Keeps config.thread_id checkpoint_id

  incompatible-Keeps :
      {A : Type 0} {Q : A → Type 0} (thread_id : ThreadId) (checkpoint_id : CheckpointId) (step : ℕ)
      (reason : CheckpointIncompatibility)
      → Keeps R F Q (incompatible env graph {A = A} thread_id checkpoint_id step reason)
  incompatible-Keeps thread_id checkpoint_id step reason = raise-Keeps frame _

  pub check_id-Keeps :
      (thread_id : ThreadId) (requested : Option CheckpointId) (checkpoint : Checkpoint C P)
      → Keeps R F Any (check_id env graph thread_id requested checkpoint)
  check_id-Keeps thread_id none checkpoint = pure-Keeps frame tt tt
  check_id-Keeps thread_id (some requested) checkpoint =
      if-Keeps frame (checkpoint.id == requested) (λ p. pure-Keeps frame tt tt)
        (λ p. incompatible-Keeps thread_id requested checkpoint.step _)

  pub check_thread-Keeps :
      (thread_id : ThreadId) (checkpoint : Checkpoint C P)
      → Keeps R F Any (check_thread env graph thread_id checkpoint)
  check_thread-Keeps thread_id checkpoint =
      if-Keeps frame (checkpoint.thread_id == thread_id) (λ p. pure-Keeps frame tt tt)
        (λ p. incompatible-Keeps thread_id checkpoint.id checkpoint.step _)

  resolved_frontier-Keeps :
      (thread_id : ThreadId) (checkpoint : Checkpoint C P)
      (result : Option (Validated (List NodeIndex)))
      → Keeps R F Any (resolved_frontier env graph thread_id checkpoint result)
  resolved_frontier-Keeps thread_id checkpoint none = panic-Keeps frame
  resolved_frontier-Keeps thread_id checkpoint (some (err reason)) =
      incompatible-Keeps thread_id checkpoint.id checkpoint.step reason
  resolved_frontier-Keeps thread_id checkpoint (some (ok frontier)) = pure-Keeps frame frontier tt

  match_resume-Keeps :
      (thread_id : ThreadId) (checkpoint : Checkpoint C P) (frontier : List NodeIndex)
      (waiting : Option (CheckpointInterrupt P)) (value : Option P)
      → Keeps R F Any (match_resume env graph thread_id checkpoint frontier waiting value)
  match_resume-Keeps thread_id checkpoint frontier (some waiting) (some value) =
      pure-Keeps frame _ tt
  match_resume-Keeps thread_id checkpoint frontier (some waiting) none = raise-Keeps frame _
  match_resume-Keeps thread_id checkpoint frontier none (some value) = raise-Keeps frame _
  match_resume-Keeps thread_id checkpoint frontier none none = pure-Keeps frame _ tt

  pub restored_state-Keeps :
      (thread_id : ThreadId) (checkpoint : Checkpoint C P) (result : Result S E)
      → Keeps R F Any (restored_state env graph thread_id checkpoint result)
  restored_state-Keeps thread_id checkpoint (ok state) = pure-Keeps frame state tt
  restored_state-Keeps thread_id checkpoint (err source) = raise-Keeps frame _

  pub restore_checkpoint-Keeps :
      (thread_id : ThreadId) (value : Option P) (checkpoint : Checkpoint C P)
      → Keeps R F Any (restore_checkpoint env graph control thread_id value checkpoint)
  unfolding restore_checkpoint
  restore_checkpoint-Keeps thread_id value checkpoint =
      bind-Keeps frame
        (resolved_frontier-Keeps thread_id checkpoint
          (validate_and_resolve_checkpoint_frontier graph checkpoint))
        (λ frontier q.
          bind-Keeps frame
            (match_resume-Keeps thread_id checkpoint frontier checkpoint.interrupt value)
            (λ (resume_node, resumed) q.
              bind-Keeps frame
                (then-Keeps frame (check_run-Keeps env control frame none checkpoint.step)
                  (restored_state-Keeps thread_id checkpoint (env.restore checkpoint.snapshot)))
                (λ state q.
                  then-Keeps frame (check_run-Keeps env control frame none checkpoint.step)
                    (pure-Keeps frame _ tt))))

  emit_prefixes-Keeps : (paths : List GraphPath) → Keeps R F Any (emit_prefixes env graph paths)
  unfolding emit_prefixes
  emit_prefixes-Keeps [] = pure-Keeps frame tt tt
  emit_prefixes-Keeps (path ∷ rest) =
      then-Keeps frame (emit-Keeps frame _ (λ s. inner _ refl)) (emit_prefixes-Keeps rest)

  pub emit_enclosing-Keeps :
      (frontier : List NodeIndex) → Keeps R F Any (emit_enclosing env graph frontier)
  unfolding emit_enclosing
  emit_enclosing-Keeps [] = pure-Keeps frame tt tt
  emit_enclosing-Keeps (index ∷ rest) =
      bind-Keeps frame (node_at-Keeps graph frame inner index)
        (λ compiled q. emit_prefixes-Keeps (prefixes compiled.graph_path))
