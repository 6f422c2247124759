-- ===== src/Model/Usage.antt =====
-- `TokenUsage` of crates/group-agent-model/src/response.rs. A counter is a `u64`; a sum of two is
-- checked against the largest.
pub mod Merge
pub mod Snapshot
pub mod Repeat
use group.Prelude.{
  ltb, leb, if◌then◌else◌, or_else, Eq, nat_eq, string_eq, bool_eq, option_eq, list_eq, Result,
  ◌>>=◌, ok, err, ℕ, ◌+◌, ◌<◌, String, Bool, false, not, ◌||◌, Option, none, some, [],
}
use group.Model.Extensions.{
  Extensions, ExtensionMergeError, validate_idempotent_merge, commit_idempotent_merge,
}

abbrev pub u64_max : ℕ
u64_max = 18446744073709551615

pub record TokenUsage (V : Type 0) : Type 0 where
  pub input_tokens : Option ℕ
  pub output_tokens : Option ℕ
  pub total_tokens : Option ℕ
  pub extensions : Extensions V

pub data TokenUsageError : Type 0 where
  total_overflow : ℕ → ℕ → TokenUsageError
  inconsistent_total : Option ℕ → Option ℕ → ℕ → TokenUsageError
  counter_decreased : String → ℕ → ℕ → TokenUsageError
  extension_conflict : ExtensionMergeError → TokenUsageError

-- `u64::checked_add`.
abbrev pub checked_add : ℕ → ℕ → Option ℕ
checked_add a b = if leb (a + b) u64_max then some (a + b) else none

-- The sum of two counters.
abbrev pub checked_sum : Option ℕ → Option ℕ → Result (Option ℕ) TokenUsageError
checked_sum (some input) (some output) = elim (checked_add input output) [
  | some total ↦ ok (some total)
  | none ↦ err (total_overflow input output)
]
checked_sum _ _ = ok none

-- `unwrap_or(0)`.
abbrev pub or_zero : Option ℕ → ℕ
or_zero none = 0
or_zero (some n) = n

-- `is_some_and(|n| total < n)`.
abbrev pub exceeds : ℕ → Option ℕ → Bool
exceeds total none = false
exceeds total (some n) = ltb total n

module _ {V : Type 0} where
  unfoldable pub checked_computed_total : TokenUsage V → Result (Option ℕ) TokenUsageError
  checked_computed_total usage = checked_sum usage.input_tokens usage.output_tokens

  unfoldable pub effective_total : TokenUsage V → Result (Option ℕ) TokenUsageError
  unfolding checked_computed_total
  effective_total usage = elim usage.total_tokens [
    | some total ↦ ok (some total)
    | none ↦ checked_computed_total usage
  ]

  -- The test of an explicit total.
  unfoldable pub check_total : TokenUsage V → Option ℕ → Result (Unit {0}) TokenUsageError
  check_total usage computed = elim usage.total_tokens [
    | none ↦ ok tt
    | some total ↦
        if ltb total (or_zero (or_else (or_else computed usage.input_tokens) usage.output_tokens))
        then err (inconsistent_total usage.input_tokens usage.output_tokens total)
        else if exceeds total usage.input_tokens || exceeds total usage.output_tokens
        then err (inconsistent_total usage.input_tokens usage.output_tokens total)
        else ok tt
  ]

  unfoldable pub validate : TokenUsage V → Result (Unit {0}) TokenUsageError
  unfolding checked_computed_total check_total
  validate usage = checked_computed_total usage >>= check_total usage

module _ {V : Type 0} where
  unfoldable pub from_parts : Option ℕ → Option ℕ → Option ℕ → Result (TokenUsage V) TokenUsageError
  unfolding validate
  from_parts input_tokens output_tokens total_tokens =
      let usage : TokenUsage V = record {
        input_tokens = input_tokens;
        output_tokens = output_tokens;
        total_tokens = total_tokens;
        extensions = record { entries = [] };
      } in
      validate usage >>= λ _. ok usage

-- A cumulative counter.
unfoldable pub merge_counter : String → Option ℕ → Option ℕ → Result (Option ℕ) TokenUsageError
merge_counter field (some previous) (some current) =
    if ltb current previous
    then err (counter_decreased field previous current)
    else ok (some current)
merge_counter field none (some current) = ok (some current)
merge_counter field previous none = ok previous

abbrev pub map_conflict : Result ℕ ExtensionMergeError → Result ℕ TokenUsageError
map_conflict (ok n) = ok n
map_conflict (err conflict) = err (extension_conflict conflict)

module _ {V : Type 0} ⦃e : Eq V⦄ where
  -- The counters of the merge, once all that can fail has not.
  unfoldable pub check_snapshot :
      TokenUsage V → TokenUsage V → Result (TokenUsage V) TokenUsageError
  unfolding merge_counter validate validate_idempotent_merge
  check_snapshot snapshot usage =
      merge_counter "input_tokens" usage.input_tokens snapshot.input_tokens >>= λ input.
      merge_counter "output_tokens" usage.output_tokens snapshot.output_tokens >>= λ output.
      merge_counter "total_tokens" usage.total_tokens snapshot.total_tokens >>= λ total.
      let merged : TokenUsage V = record {
        input_tokens = input;
        output_tokens = output;
        total_tokens = total;
        extensions = record { entries = [] };
      } in
      validate merged >>= λ _.
      map_conflict (validate_idempotent_merge snapshot.extensions usage.extensions) >>= λ _.
      ok merged

  unfoldable pub merge_snapshot :
      TokenUsage V → TokenUsage V → Result (Unit {0}) TokenUsageError × TokenUsage V
  unfolding check_snapshot commit_idempotent_merge
  merge_snapshot snapshot usage = elim (check_snapshot snapshot usage) [
    | err reason ↦ (err reason, usage)
    | ok merged ↦ (
      ok tt,
      record merged { extensions = commit_idempotent_merge snapshot.extensions usage.extensions },
    )
  ]
