-- ===== src/Model/Usage/Merge.antt =====
-- The accounting of crates/group-agent-model/src/response.rs: what is consistent, and what a merge
-- of a cumulative snapshot does.
use group.Prelude.{
  Option-cases, nat_eq, string_eq, bool_eq, option_eq, list_eq, ok, ℕ, ◌+◌, ◌≤◌, ◌≡◌, ◌↔◌, inl, inr,
  some, arith,
}
use group.Model.Usage.{TokenUsage, u64_max, checked_computed_total, check_total, validate}

-- The sum of the two parts is a `u64`, and an explicit total is at least what is known of it.
pub record IsConsistent {V : Type 0} (usage : TokenUsage V) : Type 0 where
  pub sum : (i o : ℕ) → usage.input_tokens ≡ some i → usage.output_tokens ≡ some o → i + o ≤ u64_max
  pub whole :
      (i o t : ℕ)
      → usage.input_tokens ≡ some i
      → usage.output_tokens ≡ some o
      → usage.total_tokens ≡ some t
      → i + o ≤ t
  pub input : (i t : ℕ) → usage.input_tokens ≡ some i → usage.total_tokens ≡ some t → i ≤ t
  pub output : (o t : ℕ) → usage.output_tokens ≡ some o → usage.total_tokens ≡ some t → o ≤ t

module _ {V : Type 0} where
  validate-IsConsistent : (usage : TokenUsage V) → validate usage ≡ ok tt → IsConsistent usage
  unfolding validate checked_computed_total check_total
  validate-IsConsistent usage h = record {
    sum = λ i o p q. ground arith;
    whole = λ i o t p q r. ground arith;
    input = λ i t p r. ground arith;
    output = λ o t p r. ground arith;
  }

  IsConsistent-validate : (usage : TokenUsage V) → IsConsistent usage → validate usage ≡ ok tt
  unfolding validate checked_computed_total check_total
  IsConsistent-validate usage c = elim (Option-cases usage.input_tokens) [
    | inl p ↦ elim (Option-cases usage.output_tokens) [
      | inl q ↦ ground arith
      | inr (o, q) ↦ elim (Option-cases usage.total_tokens) [
        | inl r ↦ ground arith
        | inr (t, r) ↦ ground (arith, c.output o t q r)
      ]
    ]
    | inr (i, p) ↦ elim (Option-cases usage.output_tokens) [
      | inl q ↦ elim (Option-cases usage.total_tokens) [
        | inl r ↦ ground arith
        | inr (t, r) ↦ ground (arith, c.input i t p r)
      ]
      | inr (o, q) ↦ elim (Option-cases usage.total_tokens) [
        | inl r ↦ ground (arith, c.sum i o p q)
        | inr (t, r) ↦
            ground (arith, c.sum i o p q, c.whole i o t p q r, c.input i t p r, c.output o t q r)
      ]
    ]
  ]

  -- The validation accepts exactly the consistent usages: the input and the output, where both are
  -- known, have a sum that fits 64 bits, and an explicit total is at least that sum and at least each
  -- of the two that is known.
  pub validate_iff : (usage : TokenUsage V) → (validate usage ≡ ok tt) ↔ IsConsistent usage
  validate_iff usage = (validate-IsConsistent usage, IsConsistent-validate usage)
