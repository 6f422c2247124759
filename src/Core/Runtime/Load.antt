-- ===== src/Core/Runtime/Load.antt =====
-- How `resume`, `replay` and `fork` of crates/group-agent-core/src/runtime.rs load a checkpoint, test
-- it and restore its state.
use group.Prelude.{
  if◌then◌else◌, head?, is_some, ◌==◌, nat_eq, string_eq, bool_eq, option_eq, list_eq, Result, ok,
  err, ℕ, Option, none, some, List, [], ◌∷◌,
}
use group.Core.Path.{GraphPath, prefixes}
use group.Core.Record.{CheckpointId, RunId, BranchId, ThreadId}
use group.Core.Store.{CheckpointerError}
use group.Core.Transition.{NodeIndex}
use group.Core.Graph.{CompiledGraph}
use group.Core.Checkpoint.{
  CheckpointInterrupt, CheckpointPolicy, Checkpoint, ResumeTarget, latest, exact,
}
use group.Core.Runtime.Error.{
  CheckpointIncompatibility, checkpoint_id_mismatch, thread_mismatch, GraphRunError,
  checkpoint_load_failed, checkpoint_not_found, resume_conflict, branch_not_found,
  checkpoint_incompatible, restore_failed, missing_resume_value, unexpected_resume_value,
}
use group.Core.Runtime.Event.{subgraph_started}
use group.Core.Runtime.Session.{
  Environment, panicked, Action, pure, stop, raise, ◌>>=◌, ◌>>◌, call, emit,
}
use group.Core.Runtime.Control.{ActiveControl, check, check_run, await_run_boundary}
use group.Core.Runtime.Route.{node_at}
use group.Core.Runtime.Resume.{Validated, validate_and_resolve_checkpoint_frontier}

pub record ResumeConfig (P : Type 0) : Type 0 where
  pub thread_id : ThreadId
  pub target : ResumeTarget
  pub policy : CheckpointPolicy
  pub resume_value : Option P
  pub branch_id : Option BranchId

-- What a checkpoint that was loaded and checked gives a run.
pub record Restored (S C P : Type 0) : Type 0 where
  pub checkpoint : Checkpoint C P
  pub frontier : List NodeIndex
  pub state : S
  pub resume_node : Option NodeIndex
  pub resume_value : Option P

abbrev pub requested_id : ResumeTarget → Option CheckpointId
requested_id latest = none
requested_id (exact checkpoint_id) = some checkpoint_id

module _ {W S E N U P C : Type 0} (env : Environment W S E N U P C)
    (graph : CompiledGraph S E N) where
  -- The answer of a load.
  abbrev pub found :
      ThreadId
      → Option CheckpointId
      → (RunId → GraphRunError E)
      → Result (Option (Checkpoint C P)) CheckpointerError
      → Action W C P E (Checkpoint C P)
  found thread_id requested missing (err source) s =
      raise (checkpoint_load_failed s.run_id thread_id requested source) s
  found thread_id requested missing (ok none) s = raise (missing s.run_id) s
  found thread_id requested missing (ok (some checkpoint)) s = pure checkpoint s

  unfoldable pub load_exact : ThreadId → CheckpointId → Action W C P E (Checkpoint C P)
  load_exact thread_id checkpoint_id =
      call (env.get_checkpoint thread_id checkpoint_id)
      >>= found thread_id (some checkpoint_id)
          (λ run_id. checkpoint_not_found run_id thread_id (some checkpoint_id))

  -- The head that a resumed run follows: of its branch, or of its thread.
  abbrev pub load_head :
      ThreadId
      → Option BranchId
      → Action W C P E (Result (Option (Checkpoint C P)) CheckpointerError)
  load_head thread_id none = call (env.latest thread_id)
  load_head thread_id (some branch_id) = call (env.branch_head thread_id branch_id)

  abbrev pub missing_head : ThreadId → Option BranchId → RunId → GraphRunError E
  missing_head thread_id none run_id = checkpoint_not_found run_id thread_id none
  missing_head thread_id (some branch_id) run_id = branch_not_found run_id thread_id branch_id 0

  unfoldable pub load_target : ResumeConfig P → Action W C P E (Checkpoint C P)
  unfolding load_exact
  load_target config = elim config.target [
    | latest ↦
        load_head config.thread_id config.branch_id
        >>= found config.thread_id none (missing_head config.thread_id config.branch_id)
    | exact checkpoint_id ↦ load_exact config.thread_id checkpoint_id
  ]

  abbrev pub incompatible :
      {A : Type 0} → ThreadId → CheckpointId → ℕ → CheckpointIncompatibility → Action W C P E A
  incompatible thread_id checkpoint_id step reason s =
      raise (checkpoint_incompatible s.run_id thread_id checkpoint_id step reason) s

  -- The tests that the loaded checkpoint is the one that was asked for.
  abbrev pub check_id : ThreadId → Option CheckpointId → Checkpoint C P → Action W C P E (Unit {0})
  check_id thread_id none checkpoint = pure tt
  check_id thread_id (some requested) checkpoint =
      if checkpoint.id == requested
      then pure tt
      else incompatible thread_id requested checkpoint.step
          (checkpoint_id_mismatch requested checkpoint.id)

  abbrev pub check_thread : ThreadId → Checkpoint C P → Action W C P E (Unit {0})
  check_thread thread_id checkpoint =
      if checkpoint.thread_id == thread_id
      then pure tt
      else incompatible thread_id checkpoint.id checkpoint.step
          (thread_mismatch checkpoint.thread_id)

  abbrev pub head_id : Option (Checkpoint C P) → Option CheckpointId
  head_id none = none
  head_id (some checkpoint) = some checkpoint.id

  abbrev pub loaded_head :
      ResumeConfig P
      → Checkpoint C P
      → Result (Option (Checkpoint C P)) CheckpointerError
      → Action W C P E (Option (Checkpoint C P))
  loaded_head config checkpoint (err source) s =
      raise (checkpoint_load_failed s.run_id config.thread_id (some checkpoint.id) source) s
  loaded_head config checkpoint (ok head) s = pure head s

  abbrev pub check_branch : ThreadId → Option BranchId → Checkpoint C P → Action W C P E (Unit {0})
  check_branch thread_id none checkpoint s = pure tt s
  check_branch thread_id (some branch_id) checkpoint s =
      raise (branch_not_found s.run_id thread_id branch_id checkpoint.step) s

  -- An exact checkpoint is resumed while it is the head.
  abbrev pub check_head :
      ResumeConfig P → Checkpoint C P → Option (Checkpoint C P) → Action W C P E (Unit {0})
  check_head config checkpoint head =
      (if is_some head then pure tt else check_branch config.thread_id config.branch_id checkpoint)
      >> (if head_id head == some checkpoint.id then pure tt else λ s.
          raise
            (resume_conflict s.run_id config.thread_id checkpoint.id (head_id head) checkpoint.step)
            s)

  unfoldable pub check_latest :
      ActiveControl → ResumeConfig P → Checkpoint C P → Action W C P E (Unit {0})
  unfolding await_run_boundary
  check_latest control config checkpoint = elim config.target [
    | latest ↦ pure tt
    | exact checkpoint_id ↦
        await_run_boundary env control checkpoint.step
          (load_head config.thread_id config.branch_id >>= loaded_head config checkpoint)
        >>= check_head config checkpoint
  ]

  abbrev pub resolved_frontier :
      ThreadId
      → Checkpoint C P
      → Option (Validated (List NodeIndex))
      → Action W C P E (List NodeIndex)
  resolved_frontier thread_id checkpoint none = stop panicked
  resolved_frontier thread_id checkpoint (some (err reason)) =
      incompatible thread_id checkpoint.id checkpoint.step reason
  resolved_frontier thread_id checkpoint (some (ok frontier)) = pure frontier

  -- The resume value and the node that takes it.
  abbrev pub match_resume :
      ThreadId
      → Checkpoint C P
      → List NodeIndex
      → Option (CheckpointInterrupt P)
      → Option P
      → Action W C P E (Option NodeIndex × Option P)
  match_resume thread_id checkpoint frontier (some waiting) (some value) s =
      pure (head? frontier, some value) s
  match_resume thread_id checkpoint frontier (some waiting) none s =
      raise
        (missing_resume_value s.run_id thread_id checkpoint.id waiting.id waiting.node_path
          checkpoint.step)
        s
  match_resume thread_id checkpoint frontier none (some value) s =
      raise (unexpected_resume_value s.run_id thread_id checkpoint.id checkpoint.step) s
  match_resume thread_id checkpoint frontier none none s = pure (none, none) s

  abbrev pub restored_state : ThreadId → Checkpoint C P → Result S E → Action W C P E S
  restored_state thread_id checkpoint (ok state) s = pure state s
  restored_state thread_id checkpoint (err source) s =
      raise
        (restore_failed s.run_id thread_id checkpoint.id checkpoint.superstep checkpoint.step
          source)
        s

  -- From the validation of a frontier to the check after the restore.
  unfoldable pub restore_checkpoint :
      ActiveControl → ThreadId → Option P → Checkpoint C P → Action W C P E (Restored S C P)
  unfolding validate_and_resolve_checkpoint_frontier check
  restore_checkpoint control thread_id resume_value checkpoint =
      resolved_frontier thread_id checkpoint
        (validate_and_resolve_checkpoint_frontier graph checkpoint)
      >>= λ frontier.
          match_resume thread_id checkpoint frontier checkpoint.interrupt resume_value
          >>= λ (resume_node, value).
              check_run env control none checkpoint.step
              >> restored_state thread_id checkpoint (env.restore checkpoint.snapshot)
              >>= λ state.
                  check_run env control none checkpoint.step
                  >> pure (record {
                    checkpoint = checkpoint;
                    frontier = frontier;
                    state = state;
                    resume_node = resume_node;
                    resume_value = value;
                  })

  unfoldable pub emit_prefixes : List GraphPath → Action W C P E (Unit {0})
  unfolding emit
  emit_prefixes [] = pure tt
  emit_prefixes (path ∷ rest) = (λ s. emit (subgraph_started s.run_id path) s) >> emit_prefixes rest

  -- `SubgraphStarted` for each graph round the frontier.
  unfoldable pub emit_enclosing : List NodeIndex → Action W C P E (Unit {0})
  unfolding node_at emit_prefixes prefixes
  emit_enclosing [] = pure tt
  emit_enclosing (index ∷ rest) =
      node_at graph index >>= λ compiled. emit_prefixes (prefixes compiled.graph_path)
