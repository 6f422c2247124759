-- ===== src/Model/Usage/Snapshot.antt =====
-- `merge_snapshot` of crates/group-agent-model/src/response.rs.
use group.Prelude.{
  or_else, Eq, nat_eq, string_eq, bool_eq, option_eq, list_eq, Result-cases, ok, err, ℕ, ◌≤◌,
  String, ◌≡◌, refl, ◌⊎◌, inl, inr, true, Option, none, some, [], arith,
}
use group.Model.Extensions.{
  Extensions, lookup, commit_idempotent_merge, validate_idempotent_merge, validate_entries,
}
use group.Model.Extensions.Merge.{is_valid, commit_entries-lookup}
use group.Model.Usage.{
  TokenUsage, TokenUsageError, validate, merge_counter, check_snapshot, merge_snapshot,
}
use group.Model.Usage.Merge.{IsConsistent, validate_iff}

-- A counter that was known is known, and did not decrease.
abbrev pub Grows : Option ℕ → Option ℕ → Type 0
Grows before after = (a : ℕ) → before ≡ some a → (b : ℕ) × (after ≡ some b) × (a ≤ b)

-- A merge that succeeded: the snapshot's counters, where it has them, and the old ones elsewhere;
-- none of them decreased, and all are consistent; and each extension is the old one, or the
-- snapshot's where there was none.
pub record Merged {V : Type 0} (snapshot usage after : TokenUsage V) : Type 0 where
  pub input : after.input_tokens ≡ or_else snapshot.input_tokens usage.input_tokens
  pub output : after.output_tokens ≡ or_else snapshot.output_tokens usage.output_tokens
  pub total : after.total_tokens ≡ or_else snapshot.total_tokens usage.total_tokens
  pub input_grows : Grows usage.input_tokens after.input_tokens
  pub output_grows : Grows usage.output_tokens after.output_tokens
  pub total_grows : Grows usage.total_tokens after.total_tokens
  pub consistent : IsConsistent after
  pub extended :
      (key : String)
      → lookup key after.extensions
        ≡ or_else (lookup key usage.extensions) (lookup key snapshot.extensions)

pub merge_counter-ok :
    (field : String) (previous current merged : Option ℕ)
    → merge_counter field previous current ≡ ok merged
    → (merged ≡ or_else current previous) × Grows previous merged
unfolding merge_counter
merge_counter-ok field none none merged h = (ground arith, λ a e. cc)
merge_counter-ok field none (some c) merged h = (ground arith, λ a e. cc)
merge_counter-ok field (some p) none merged h =
    (ground arith, λ a e. (p, ground arith, ground arith))
merge_counter-ok field (some p) (some c) merged h =
    (ground arith, λ a e. (c, ground arith, ground arith))

module _ {V : Type 0} ⦃e : Eq V⦄ where
  -- What the checks of a merge found.
  pub record Found (snapshot usage merged : TokenUsage V) : Type 0 where
    pub input :
        merge_counter "input_tokens" usage.input_tokens snapshot.input_tokens
        ≡ ok merged.input_tokens
    pub output :
        merge_counter "output_tokens" usage.output_tokens snapshot.output_tokens
        ≡ ok merged.output_tokens
    pub total :
        merge_counter "total_tokens" usage.total_tokens snapshot.total_tokens
        ≡ ok merged.total_tokens
    pub valid : validate merged ≡ ok tt
    pub agreed : is_valid (validate_entries snapshot.extensions.entries usage.extensions) ≡ true
    pub bare : merged.extensions.entries ≡ []

  pub check_snapshot-Found :
      (snapshot usage merged : TokenUsage V)
      → check_snapshot snapshot usage ≡ ok merged
      → Found snapshot usage merged
  unfolding check_snapshot validate_idempotent_merge
  check_snapshot-Found snapshot usage merged h = record {
    input = ground arith;
    output = ground arith;
    total = ground arith;
    valid = ground arith;
    agreed = ground arith;
    bare = ground arith;
  }

  -- The counters alone decide what is consistent.
  IsConsistent-extensions :
      (usage : TokenUsage V) (ext : Extensions V)
      → IsConsistent usage
      → IsConsistent (record usage { extensions = ext })
  IsConsistent-extensions usage ext c = record {
    sum = c.sum;
    whole = c.whole;
    input = c.input;
    output = c.output;
  }

  -- A merge of a cumulative snapshot either fails and leaves the usage as it was, or succeeds: then
  -- each counter is the snapshot's, or the old one where the snapshot has none; no counter
  -- decreased; the counters are consistent; and each extension is the old one, or the snapshot's
  -- where there was none.
  pub merge_snapshot_atomic :
      (snapshot usage : TokenUsage V)
      → ((reason : TokenUsageError) × (merge_snapshot snapshot usage ≡ (err reason, usage)))
        ⊎ (((merge_snapshot snapshot usage).0 ≡ ok tt)
            × Merged snapshot usage (merge_snapshot snapshot usage).1)
  unfolding merge_snapshot
  merge_snapshot_atomic snapshot usage = elim (Result-cases (check_snapshot snapshot usage)) [
    | inr (reason, f) ↦ inl (reason, rw (f, merge_snapshot) refl)
    | inl (merged, f) ↦
        let found = check_snapshot-Found snapshot usage merged f in
        let (i, gi) = merge_counter-ok _ usage.input_tokens snapshot.input_tokens _ found.input in
        let (o, go) =
          merge_counter-ok _ usage.output_tokens snapshot.output_tokens _ found.output in
        let (t, gt) = merge_counter-ok _ usage.total_tokens snapshot.total_tokens _ found.total in
        let ext = commit_idempotent_merge snapshot.extensions usage.extensions in
        let after : TokenUsage V = record merged { extensions = ext } in
        let done : Merged snapshot usage after = record {
          input = i;
          output = o;
          total = t;
          input_grows = gi;
          output_grows = go;
          total_grows = gt;
          consistent = IsConsistent-extensions merged ext ((validate_iff merged).0 found.valid);
          extended = λ key. commit_entries-lookup key snapshot.extensions.entries usage.extensions;
        } in
        inr (rw (f, merge_snapshot) refl, rw (f, merge_snapshot) done)
  ]
