-- ===== src/Core/Runtime/Updates.antt =====
-- The updates of a parallel superstep in crates/group-agent-core/src/runtime.rs.
use group.Prelude.{
  All-every, length, nat_eq, string_eq, bool_eq, option_eq, list_eq, Result, ok, err, refl, List,
}
use group.Core.Runtime.Session.{Environment, Session, Stop}
use group.Core.Runtime.Control.{ActiveControl}
use group.Core.Runtime.Save.{RuntimeCheckpoint}
use group.Core.Runtime.Node.{Execution, Placed, Phase, run_parallel}
use group.Core.Runtime.Frame.{Post}
use group.Core.Runtime.Frame.Parallel.{Updates, run_parallel-Keeps}
use group.Core.Runtime.Frame.Batch.{Applied}
use group.Core.Runtime.Bounds.{Free, free}

module _ {W S E N U P C : Type 0} (env : Environment W S E N U P C) (control : ActiveControl)
    (mode : RuntimeCheckpoint) where
  abbrev Never : Stop E → Type 0
  Never e = Unit {0}

  -- What holds of the nodes' results where the superstep is completed.
  abbrev pub AppliesAll : S → List (Placed S E N) → Result (Phase S P) (Stop E) → Type 0
  AppliesAll state nodes (ok phase) = Applied env state nodes phase
  AppliesAll state nodes (err e) = Unit {0}

  applied :
      (ex : Execution S P) (nodes : List (Placed S E N)) (r : Result (Phase S P) (Stop E))
      (s t : Session W C P)
      → Post
          (λ e s t. Never e × Free env control mode s t)
          (λ phase s t.
            Free env control mode s t
            × (Updates ex (length nodes) phase × Applied env ex.state nodes phase))
          r
          s
          t
      → AppliesAll ex.state nodes r
  applied ex nodes (ok phase) s t (r, (u, a)) = a
  applied ex nodes (err e) s t h = tt

  -- A parallel superstep that is completed has applied one batch to the state, with one update for
  -- each node, in the order of the frontier and not of completion: each has the path of its node,
  -- and was returned by that node, in some world, on the state before the superstep and in a
  -- context with its step and its path. It is never interrupted.
  pub run_parallel-AppliesAll :
      (ex : Execution S P) (first : Placed S E N) (nodes : List (Placed S E N)) (s : Session W C P)
      → AppliesAll ex.state nodes (run_parallel env control mode ex first nodes s).0
  run_parallel-AppliesAll ex first nodes s =
      let run = run_parallel env control mode ex first nodes s in
      applied ex nodes run.0 s run.1 (
        (run_parallel-Keeps env control mode (free env control mode Never (λ e p. tt))
            (λ event p. refl) ex first nodes (All-every (λ placed id. refl) nodes)).ends
          s)
