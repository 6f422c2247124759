-- ===== src/Core/Store/Validity.antt =====
-- Every method of crates/group-agent-core/src/checkpoint_store.rs keeps the lineages valid.
use group.Prelude.{
  Bool-cases, Option-cases, All, All-append, get, insert, contains_key, get-insert_self,
  get-insert_cases, ◌==◌, ==_iff, nat_eq, string_eq, bool_eq, option_eq, list_eq, ◌≡◌, refl, ◌∙◌,
  inl, inr, Option, none, some, List, [], ◌∷◌, ◌++◌, arith,
}
use group.Core.Record.{CheckpointId, BranchId, ThreadId, CheckpointRecord, record_eq}
use group.Core.Store.{
  InMemoryRecordState, InMemoryBranch, insert_new, insert_record, append_branch, insert_branch,
  make_branch, in_thread, last_id, or_default,
}
use group.Core.Store.Lineage.{
  IsChain, IsLine, Belongs, IsValid, IsChain-push, IsLine-push, Extends-insert, All-Belongs,
  keyed-insert,
}

last_id-or_default :
    (h : Option (List CheckpointRecord)) → last_id (some (or_default h)) ≡ last_id h
last_id-or_default none = refl
last_id-or_default (some h) = refl

module _ (s : InMemoryRecordState) (r : CheckpointRecord) (v : IsValid s) where
  -- The history that a new record joins.
  old-IsChain :
      IsChain none (or_default (get r.thread_id s.histories))
      × All (Belongs s r.thread_id) (or_default (get r.thread_id s.histories))
  old-IsChain = elim (Option-cases (get r.thread_id s.histories)) [
    | inl e ↦ rw e (tt, tt)
    | inr (h, e) ↦ rw e (v.chains r.thread_id h e)
  ]

  module _ (s' : InMemoryRecordState) (fresh : get r.checkpoint_id s.by_id ≡ none)
      (ids : s'.by_id ≡ insert r.checkpoint_id r s.by_id) where
    new-Belongs : Belongs s' r.thread_id r
    new-Belongs = (rw (ids, get-insert_self), refl)

    push-Belongs :
        (t : ThreadId) (h : List CheckpointRecord)
        → t ≡ r.thread_id
        → All (Belongs s t) h
        → All (Belongs s' t) (h ++ r ∷ [])
    push-Belongs t h e own =
        All-append (Belongs s' t) h (r ∷ [])
          (All-Belongs s s' t h (Extends-insert s s' r fresh ids) own) (rw e (new-Belongs, tt))

    pushed-IsChain :
        last_id (get r.thread_id s.histories) ≡ r.parent_id
        → (t : ThreadId) (h : List CheckpointRecord)
        → get t
            (insert r.thread_id (or_default (get r.thread_id s.histories) ++ r ∷ []) s.histories)
          ≡ some h
        → IsChain none h × All (Belongs s' t) h
    pushed-IsChain parent t h found = elim (get-insert_cases r.thread_id t _ h s.histories found) [
      | inl (same, e) ↦
          rw (e, ← same)
            (
              IsChain-push _ r old-IsChain.0
                  (last_id-or_default (get r.thread_id s.histories) ∙ parent),
              push-Belongs r.thread_id _ refl old-IsChain.1,
            )
      | inr (other, e) ↦
          let (chain, own) = v.chains t h e in
          (chain, All-Belongs s s' t h (Extends-insert s s' r fresh ids) own)
    ]

    pushed-IsValid :
        s'.histories
          ≡ insert r.thread_id (or_default (get r.thread_id s.histories) ++ r ∷ []) s.histories
        → s'.branches ≡ s.branches
        → last_id (get r.thread_id s.histories) ≡ r.parent_id
        → IsValid s'
    pushed-IsValid eh eb parent = record {
      keyed = λ k x h. keyed-insert s r x k v (rw ids at h);
      chains = λ t h found. pushed-IsChain parent t h (rw eh at found);
      lines = λ b branch found.
          let (line, own) = v.lines b branch (rw eb at found) in
          (
            line,
            All-Belongs s s' branch.thread_id branch.history (Extends-insert s s' r fresh ids) own,
          );
    }

    branch_line :
        (branch_id : BranchId) (branch : InMemoryBranch)
        → get branch_id s.branches ≡ some branch
        → branch.thread_id ≡ r.thread_id
        → last_id (some branch.history) ≡ r.parent_id
        → (b : BranchId) (x : InMemoryBranch)
        → get b (insert branch_id (record branch { history = branch.history ++ r ∷ [] }) s.branches)
          ≡ some x
        → IsLine x.history × All (Belongs s' x.thread_id) x.history
    branch_line branch_id branch there own parent b x found =
        elim (get-insert_cases branch_id b _ x s.branches found) [
          | inl (same, e) ↦
              let (line, mine) = v.lines branch_id branch there in
              rw e (
                IsLine-push branch.history r line parent,
                push-Belongs branch.thread_id branch.history own mine,
              )
          | inr (other, e) ↦
              let (line, mine) = v.lines b x e in
              (line, All-Belongs s s' x.thread_id x.history (Extends-insert s s' r fresh ids) mine)
        ]

    grown-IsValid :
        (branch_id : BranchId) (branch : InMemoryBranch)
        → get branch_id s.branches ≡ some branch
        → branch.thread_id ≡ r.thread_id
        → last_id (some branch.history) ≡ r.parent_id
        → s'.histories ≡ s.histories
        → s'.branches
          ≡ insert branch_id (record branch { history = branch.history ++ r ∷ [] }) s.branches
        → IsValid s'
    grown-IsValid branch_id branch there own parent eh eb = record {
      keyed = λ k x h. keyed-insert s r x k v (rw ids at h);
      chains = λ t h found.
          let (chain, mine) = v.chains t h (rw eh at found) in
          (chain, All-Belongs s s' t h (Extends-insert s s' r fresh ids) mine);
      lines = λ b x found. branch_line branch_id branch there own parent b x (rw eb at found);
    }

  insert_new-IsValid : get r.checkpoint_id s.by_id ≡ none → IsValid (insert_new r s).1
  insert_new-IsValid fresh =
      elim (Bool-cases (last_id (get r.thread_id s.histories) == r.parent_id)) [
        | inl same ↦
            unfold insert_new in
            rw same (pushed-IsValid _ fresh refl refl refl ((==_iff _ r.parent_id).0 same))
        | inr other ↦ unfold insert_new in rw other v
      ]

  pub insert_record-IsValid : IsValid (insert_record r s).1
  unfolding insert_record
  insert_record-IsValid = elim (Option-cases (get r.checkpoint_id s.by_id)) [
    | inl fresh ↦ rw (fresh, insert_record) (insert_new-IsValid fresh)
    | inr (x, e) ↦ rw (e, insert_record) v
  ]

  append_branch-IsValid :
      (branch_id : BranchId) (branch : InMemoryBranch)
      → get r.checkpoint_id s.by_id ≡ none
      → get branch_id s.branches ≡ some branch
      → IsValid (append_branch branch_id branch r s).1
  unfolding append_branch
  append_branch-IsValid branch_id branch fresh there =
      elim (Bool-cases (branch.thread_id == r.thread_id)) [
        | inl own ↦ elim (Bool-cases (last_id (some branch.history) == r.parent_id)) [
          | inl same ↦
              rw (own, same)
                (grown-IsValid _ fresh refl branch_id branch there ((==_iff _ r.thread_id).0 own)
                  ((==_iff _ r.parent_id).0 same) refl refl)
          | inr other ↦ rw (own, other) v
        ]
        | inr foreign ↦ rw foreign v
      ]

  pub insert_branch-IsValid : (branch_id : BranchId) → IsValid (insert_branch branch_id r s).1
  unfolding insert_branch
  insert_branch-IsValid branch_id = elim (Option-cases (get r.checkpoint_id s.by_id)) [
    | inl fresh ↦ elim (Option-cases (get branch_id s.branches)) [
      | inl missing ↦ rw (fresh, missing, insert_branch) v
      | inr (branch, there) ↦
          rw (fresh, there, insert_branch) (append_branch-IsValid branch_id branch fresh there)
    ]
    | inr (x, e) ↦ rw (e, insert_branch) v
  ]

module _ (s : InMemoryRecordState) (v : IsValid s) where
  branched-IsValid :
      (t : ThreadId) (branch_id : BranchId) (source : CheckpointRecord)
      → Belongs s t source
      → IsValid (record s {
        branches = insert branch_id (record { thread_id = t; history = source ∷ [] }) s.branches;
      })
  branched-IsValid t branch_id source own = record {
    keyed = v.keyed;
    chains = v.chains;
    lines = λ b x found. elim (get-insert_cases branch_id b _ x s.branches found) [
      | inl (same, e) ↦ rw e (tt, (own, tt))
      | inr (other, e) ↦ v.lines b x e
    ];
  }

  in_thread-Belongs :
      (t : ThreadId) (k : CheckpointId) (x : CheckpointRecord)
      → in_thread t (get k s.by_id) ≡ some x
      → Belongs s t x
  in_thread-Belongs t k x h = elim (Option-cases (get k s.by_id)) [
    | inl e ↦ cc (rw e at h)
    | inr (y, e) ↦ ground (arith, v.keyed k y, ==_iff y.thread_id t)
  ]

  pub make_branch-IsValid :
      (t : ThreadId) (branch_id : BranchId) (source_id : CheckpointId)
      → IsValid (make_branch t branch_id source_id s).1
  unfolding make_branch
  make_branch-IsValid t branch_id source_id =
      elim (Bool-cases (contains_key branch_id s.branches)) [
        | inl old ↦ rw old v
        | inr new ↦ elim (Option-cases (in_thread t (get source_id s.by_id))) [
          | inl missing ↦ rw (new, missing) v
          | inr (source, e) ↦
              rw (new, e)
                (branched-IsValid t branch_id source (in_thread-Belongs t source_id source e))
        ]
      ]
