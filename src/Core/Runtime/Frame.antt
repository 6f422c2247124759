-- ===== src/Core/Runtime/Frame.antt =====
-- How the actions of crates/group-agent-core/src/runtime.rs change a session, by a relation that
-- each call of the environment and each allowed event keeps, and what they return.
pub mod Control
pub mod Route
pub mod Batch
pub mod Parallel
pub mod Node
pub mod Superstep
pub mod Execute
pub mod Save
pub mod Invoke
pub mod Load
pub mod Recover
use group.Prelude.{
  if◌then◌else◌, nat_eq, string_eq, bool_eq, option_eq, list_eq, Result, ok, err, ◌≡◌, refl, sym,
  subst, Bool, true, false, not, Option, none, some, arith,
}
use group.Core.Runtime.Error.{GraphRunError}
use group.Core.Runtime.Event.{
  GraphEvent, node_started, failure_of, run_started, run_interrupted, run_completed, run_failed,
}
use group.Core.Runtime.Session.{
  Session, Stop, failed, panicked, out_of_fuel, Action, fail_with, failing, pure, stop, raise,
  continue_with, ◌>>=◌, ◌>>◌, expect, raise_if_some, call, emit,
}

-- What holds of a result and the sessions around it: of its value, or of how it stopped.
abbrev pub Post :
    {A E T : Type 0}
    → (Stop E → T → T → Type 0)
    → (A → T → T → Type 0)
    → Result A (Stop E)
    → T
    → T
    → Type 0
Post stopped returned (ok a) s t = returned a s t
Post stopped returned (err e) s t = stopped e s t

-- From every session, an action ends as the two relations say.
abbrev pub Ends :
    {A W C P E : Type 0}
    → (Stop E → Session W C P → Session W C P → Type 0)
    → (A → Session W C P → Session W C P → Type 0)
    → Action W C P E A
    → Type 0
Ends {A} {W} {C} {P} stopped returned action =
    (s : Session W C P) → Post stopped returned (action s).0 s (action s).1

-- A relation that the calls of the environment and the allowed events keep, and the ways to stop
-- that are allowed.
pub record Frame {W C P E : Type 0} (R : Session W C P → Session W C P → Type 0)
    (F : Stop E → Type 0) (allowed : GraphEvent → Bool) : Type 0 where
  pub keep_refl : (s : Session W C P) → R s s
  pub keep_trans : (s t u : Session W C P) → R s t → R t u → R s u
  pub keep_world : (s : Session W C P) (w : W) → R s (record s { world = w })
  pub keep_event :
      (event : GraphEvent) (s : Session W C P) → allowed event ≡ true → R s (emit {E = E} event s).1
  pub may_fail : (e : GraphRunError E) → F (failed e)
  pub may_panic : F panicked

abbrev pub Any : {A : Type 0} → A → Type 0
Any a = Unit {0}

-- An action that keeps the relation, whose value has a property.
pub record Keeps {A W C P E : Type 0} (R : Session W C P → Session W C P → Type 0)
    (F : Stop E → Type 0) (Q : A → Type 0) (action : Action W C P E A) : Type 0 where
  pub ends : Ends (λ e s t. F e × R s t) (λ a s t. R s t × Q a) action

-- An action that keeps the relation where it stops, and ends as another relation says.
pub record Finishes {A W C P E : Type 0} (R : Session W C P → Session W C P → Type 0)
    (F : Stop E → Type 0) (G : A → Session W C P → Session W C P → Type 0)
    (action : Action W C P E A) : Type 0 where
  pub ends : Ends (λ e s t. F e × R s t) G action

-- The events of a run after its start and before its end.
abbrev pub is_inner : GraphEvent → Bool
is_inner (run_started run_id max_steps) = false
is_inner (run_interrupted run_id interrupt_id checkpoint_id thread_id node_id superstep step) =
    false
is_inner (run_completed run_id steps) = false
is_inner (run_failed run_id failure) = false
is_inner _ = true

-- Those that do not start a node.
abbrev pub is_plain : GraphEvent → Bool
is_plain (node_started run_id path step) = false
is_plain event = is_inner event

pub is_plain-is_inner : (event : GraphEvent) → is_plain event ≡ true → is_inner event ≡ true
is_plain-is_inner event h = ground arith

module _ {W C P E : Type 0} {R : Session W C P → Session W C P → Type 0} {F : Stop E → Type 0}
    {allowed : GraphEvent → Bool} (frame : Frame R F allowed) where
  before :
      {B : Type 0} (Q : B → Type 0) (s t u : Session W C P) (r : Result B (Stop E))
      → R s t
      → Post (λ e s t. F e × R s t) (λ a s t. R s t × Q a) r t u
      → Post (λ e s t. F e × R s t) (λ a s t. R s t × Q a) r s u
  before Q s t u (ok a) k (r, q) = (frame.keep_trans s t u k r, q)
  before Q s t u (err e) k (f, r) = (f, frame.keep_trans s t u k r)

  continue-Keeps :
      {A B : Type 0} (Q : A → Type 0) (Q' : B → Type 0) (next : A → Action W C P E B)
      (s : Session W C P) (p : Result A (Stop E) × Session W C P)
      → Post (λ e s t. F e × R s t) (λ a s t. R s t × Q a) p.0 s p.1
      → ((a : A) → Q a → Keeps R F Q' (next a))
      → Post
          (λ e s t. F e × R s t)
          (λ a s t. R s t × Q' a)
          (continue_with next p).0
          s
          (continue_with next p).1
  continue-Keeps Q Q' next s (ok a, t) (r, q) h =
      before Q' s t (next a t).1 (next a t).0 r ((h a q).ends t)
  continue-Keeps Q Q' next s (err e, t) h k = h

  pub bind-Keeps :
      {A B : Type 0} {Q : A → Type 0} {Q' : B → Type 0} {action : Action W C P E A}
      {next : A → Action W C P E B}
      → Keeps R F Q action
      → ((a : A) → Q a → Keeps R F Q' (next a))
      → Keeps R F Q' (action >>= next)
  bind-Keeps {Q} {Q'} {action} {next} h k = record {
    ends = λ s. continue-Keeps Q Q' next s (action s) (h.ends s) k;
  }

  pub then-Keeps :
      {A B : Type 0} {Q : A → Type 0} {Q' : B → Type 0} {action : Action W C P E A}
      {next : Action W C P E B}
      → Keeps R F Q action
      → Keeps R F Q' next
      → Keeps R F Q' (action >> next)
  then-Keeps h k = bind-Keeps h (λ a q. k)

  pub pure-Keeps : {A : Type 0} {Q : A → Type 0} (a : A) → Q a → Keeps R F Q (pure a)
  pure-Keeps a q = record { ends = λ s. (frame.keep_refl s, q) }

  pub stop-Keeps : {A : Type 0} {Q : A → Type 0} (e : Stop E) → F e → Keeps R F Q (stop e)
  stop-Keeps e f = record { ends = λ s. (f, frame.keep_refl s) }

  pub panic-Keeps : {A : Type 0} {Q : A → Type 0} → Keeps R F Q (stop {A = A} panicked)
  panic-Keeps = stop-Keeps panicked frame.may_panic

  -- An error that names the run.
  pub raise-Keeps :
      {A : Type 0} {Q : A → Type 0} (e : Session W C P → GraphRunError E)
      → Keeps {A = A} R F Q (λ s. raise (e s) s)
  raise-Keeps e = record { ends = λ s. (frame.may_fail (e s), frame.keep_refl s) }

  pub expect-Keeps :
      {A : Type 0} {Q : A → Type 0} (o : Option A)
      → ((a : A) → o ≡ some a → Q a)
      → Keeps R F Q (expect o)
  expect-Keeps none h = panic-Keeps
  expect-Keeps (some a) h = pure-Keeps a (h a refl)

  pub call-Keeps : {A : Type 0} (f : W → A × W) → Keeps R F Any (call f)
  call-Keeps f = record { ends = λ s. (frame.keep_world s _, tt) }

  -- A call, with the world that it was made in.
  pub call-result : {A : Type 0} (f : W → A × W) → Keeps R F (λ a. (w : W) × ((f w).0 ≡ a)) (call f)
  call-result f = record { ends = λ s. (frame.keep_world s _, (s.world, refl)) }

  pub emit-ok : (event : GraphEvent) (s : Session W C P) → (emit {E = E} event s).0 ≡ ok tt
  unfolding emit
  emit-ok event s = ground arith

  pub emit-Keeps :
      (event : Session W C P → GraphEvent)
      → ((s : Session W C P) → allowed (event s) ≡ true)
      → Keeps R F Any (λ s. emit (event s) s)
  emit-Keeps event h = record {
    ends = λ s.
        subst
          (λ r.
            Post (λ e s t. F e × R s t) (λ a s t. R s t × Any a) r s (emit {E = E} (event s) s).1)
          (sym (emit-ok (event s) s)) (frame.keep_event (event s) s (h s), tt);
  }

  pub if-Keeps :
      {A : Type 0} {Q : A → Type 0} {yes no : Action W C P E A} (test : Bool)
      → (test ≡ true → Keeps R F Q yes)
      → (test ≡ false → Keeps R F Q no)
      → Keeps R F Q (if test then yes else no)
  if-Keeps true h k = h refl
  if-Keeps false h k = k refl

  -- A weaker property of the value.
  pub weaken-Keeps :
      {A : Type 0} {Q Q' : A → Type 0} {action : Action W C P E A}
      → ((a : A) → Q a → Q' a)
      → Keeps R F Q action
      → Keeps R F Q' action
  weaken-Keeps {Q} {Q'} {action} weaker h = record {
    ends = λ s. weaken (action s).0 s (action s).1 (h.ends s);
  }
    where
      weaken :
          (r : Result _ (Stop E)) (s t : Session W C P)
          → Post (λ e s t. F e × R s t) (λ a s t. R s t × Q a) r s t
          → Post (λ e s t. F e × R s t) (λ a s t. R s t × Q' a) r s t
      weaken (ok a) s t (r, q) = (r, weaker a q)
      weaken (err e) s t h = h

  -- A relation that may follow the kept one.
  abbrev pub Follows : {A : Type 0} → (A → Session W C P → Session W C P → Type 0) → Type 0
  Follows {A} G = (a : A) (s t u : Session W C P) → R s t → G a t u → G a s u

  before_end :
      {B : Type 0} (G : B → Session W C P → Session W C P → Type 0) (s t u : Session W C P)
      (r : Result B (Stop E))
      → Follows G
      → R s t
      → Post (λ e s t. F e × R s t) G r t u
      → Post (λ e s t. F e × R s t) G r s u
  before_end G s t u (ok a) follows k g = follows a s t u k g
  before_end G s t u (err e) follows k (f, r) = (f, frame.keep_trans s t u k r)

  continue-Finishes :
      {A B : Type 0} (Q : A → Type 0) (G : B → Session W C P → Session W C P → Type 0)
      (next : A → Action W C P E B) (s : Session W C P) (p : Result A (Stop E) × Session W C P)
      → Follows G
      → Post (λ e s t. F e × R s t) (λ a s t. R s t × Q a) p.0 s p.1
      → ((a : A) → Q a → Finishes R F G (next a))
      → Post (λ e s t. F e × R s t) G (continue_with next p).0 s (continue_with next p).1
  continue-Finishes Q G next s (ok a, t) follows (r, q) h =
      before_end G s t (next a t).1 (next a t).0 follows r ((h a q).ends t)
  continue-Finishes Q G next s (err e, t) follows h k = h

  pub bind-Finishes :
      {A B : Type 0} {Q : A → Type 0} {G : B → Session W C P → Session W C P → Type 0}
      {action : Action W C P E A} {next : A → Action W C P E B}
      → Follows G
      → Keeps R F Q action
      → ((a : A) → Q a → Finishes R F G (next a))
      → Finishes R F G (action >>= next)
  bind-Finishes {Q} {G} {action} {next} follows h k = record {
    ends = λ s. continue-Finishes Q G next s (action s) follows (h.ends s) k;
  }

  chain-Finishes :
      {A B : Type 0} (G : A → Session W C P → Session W C P → Type 0)
      (G' : B → Session W C P → Session W C P → Type 0) (next : A → Action W C P E B)
      (s : Session W C P) (p : Result A (Stop E) × Session W C P)
      → Post (λ e s t. F e × R s t) G p.0 s p.1
      → ((a : A) (t : Session W C P)
          → G a s t
          → Post (λ e s t. F e × R s t) G' (next a t).0 s (next a t).1)
      → Post (λ e s t. F e × R s t) G' (continue_with next p).0 s (continue_with next p).1
  chain-Finishes G G' next s (ok a, t) g h = h a t g
  chain-Finishes G G' next s (err e, t) h k = h

  -- The first action has ended, and the second goes on from there.
  pub follow-Finishes :
      {A B : Type 0} {G : A → Session W C P → Session W C P → Type 0}
      {G' : B → Session W C P → Session W C P → Type 0} {action : Action W C P E A}
      (next : A → Action W C P E B)
      → Finishes R F G action
      → ((a : A) (s t : Session W C P)
          → G a s t
          → Post (λ e s t. F e × R s t) G' (next a t).0 s (next a t).1)
      → Finishes R F G' (action >>= next)
  follow-Finishes {G} {G'} {action} next h k = record {
    ends = λ s. chain-Finishes G G' next s (action s) (h.ends s) (λ a t. k a s t);
  }

  end-Finishes :
      {A : Type 0} (Q : A → Type 0) (G : A → Session W C P → Session W C P → Type 0)
      (r : Result A (Stop E)) (s t : Session W C P)
      → ((a : A) (s t : Session W C P) → R s t → Q a → G a s t)
      → Post (λ e s t. F e × R s t) (λ a s t. R s t × Q a) r s t
      → Post (λ e s t. F e × R s t) G r s t
  end-Finishes Q G (ok a) s t h (r, q) = h a s t r q
  end-Finishes Q G (err e) s t h k = k

  pub Keeps-Finishes :
      {A : Type 0} {Q : A → Type 0} {G : A → Session W C P → Session W C P → Type 0}
      {action : Action W C P E A}
      → ((a : A) (s t : Session W C P) → R s t → Q a → G a s t)
      → Keeps R F Q action
      → Finishes R F G action
  Keeps-Finishes {Q} {G} {action} h k = record {
    ends = λ s. end-Finishes Q G (action s).0 s (action s).1 h (k.ends s);
  }

  pub Finishes-after :
      {A : Type 0} (G : A → Session W C P → Session W C P → Type 0) (action : Action W C P E A)
      (s t : Session W C P)
      → Follows G
      → R s t
      → Finishes R F G action
      → Post (λ e s t. F e × R s t) G (action t).0 s (action t).1
  Finishes-after G action s t follows r h =
      before_end G s t (action t).1 (action t).0 follows r (h.ends t)

  pub emit-Finishes :
      {G : Session W C P → Session W C P → Type 0} (event : Session W C P → GraphEvent)
      → ((s : Session W C P) → G s (emit {E = E} (event s) s).1)
      → Finishes R F (λ a. G) (λ s. emit (event s) s)
  emit-Finishes {G} event h = record {
    ends = λ s.
        subst (λ r. Post (λ e s t. F e × R s t) (λ a. G) r s (emit {E = E} (event s) s).1)
          (sym (emit-ok (event s) s)) (h s);
  }

  pub if-Finishes :
      {A : Type 0} {G : A → Session W C P → Session W C P → Type 0} {yes no : Action W C P E A}
      (test : Bool)
      → Finishes R F G yes
      → Finishes R F G no
      → Finishes R F G (if test then yes else no)
  if-Finishes true h k = h
  if-Finishes false h k = k

  pub Post-after :
      {A : Type 0} (G G' : A → Session W C P → Session W C P → Type 0) (r : Result A (Stop E))
      (s t u : Session W C P)
      → R s t
      → ((a : A) → G a t u → G' a s u)
      → Post (λ e s t. F e × R s t) G r t u
      → Post (λ e s t. F e × R s t) G' r s u
  Post-after G G' (ok a) s t u r h g = h a g
  Post-after G G' (err e) s t u r h (f, k) = (f, frame.keep_trans s t u r k)

  -- The event of a failure, where it is allowed.
  fail_with-ends :
      {A : Type 0} (G : A → Session W C P → Session W C P → Type 0)
      (p : Result A (Stop E) × Session W C P) (s : Session W C P)
      → ((event : GraphEvent) → allowed event ≡ true)
      → Post (λ e s t. F e × R s t) G p.0 s p.1
      → Post (λ e s t. F e × R s t) G (fail_with p).0 s (fail_with p).1
  unfolding fail_with
  fail_with-ends G (ok a, t) s all g = g
  fail_with-ends G (err (failed e), t) s all (f, r) = (
    f,
    frame.keep_trans s t _ r (frame.keep_event (run_failed t.run_id (failure_of e)) t (all _)),
  )
  fail_with-ends G (err panicked, t) s all k = k
  fail_with-ends G (err out_of_fuel, t) s all k = k

  pub failing-Keeps :
      {A : Type 0} {Q : A → Type 0} {action : Action W C P E A}
      → ((event : GraphEvent) → allowed event ≡ true)
      → Keeps R F Q action
      → Keeps R F Q (failing action)
  unfolding failing
  failing-Keeps {Q} {action} all h = record {
    ends = λ s. fail_with-ends (λ a s t. R s t × Q a) (action s) s all (h.ends s);
  }

  pub failing-Finishes :
      {A : Type 0} {G : A → Session W C P → Session W C P → Type 0} {action : Action W C P E A}
      → ((event : GraphEvent) → allowed event ≡ true)
      → Finishes R F G action
      → Finishes R F G (failing action)
  unfolding failing
  failing-Finishes {G} {action} all h = record {
    ends = λ s. fail_with-ends G (action s) s all (h.ends s);
  }

  relation_of :
      {A : Type 0} (Q : A → Type 0) (r : Result A (Stop E)) (s t : Session W C P)
      → Post (λ e s t. F e × R s t) (λ a s t. R s t × Q a) r s t
      → R s t
  relation_of Q (ok a) s t (r, q) = r
  relation_of Q (err e) s t (f, r) = r

  pub Keeps-relation :
      {A : Type 0} {Q : A → Type 0} {action : Action W C P E A}
      → Keeps R F Q action
      → (s : Session W C P) → R s (action s).1
  Keeps-relation {Q} {action} h s = relation_of Q (action s).0 s (action s).1 (h.ends s)
