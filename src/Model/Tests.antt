-- ===== src/Model/Tests.antt =====
-- Token accounting of crates/group-agent-model/src/response.rs at small inputs. A JSON value is a
-- number.
use group.Prelude.{
  Distinct, get, ==_iff, nat_eq, string_eq, bool_eq, option_eq, list_eq, ok, err, ℕ, String, ◌≡◌,
  refl, ap, ◌↔◌, ◌⊎◌, none, some, [], ◌∷◌,
}
use group.Model.Extensions.{
  insert_sorted, commit_entries, commit_idempotent_merge, validate_entries,
  validate_idempotent_merge,
}
use group.Model.Extensions.Insert.{
  duplicate_key, is_whitespace, trim_start, trim_end, trim, place, insert_extension, try_from_iter,
  Inserts, insert_extension-Inserts,
}
use group.Model.Usage.{
  TokenUsage, TokenUsageError, counter_decreased, total_overflow, u64_max, checked_computed_total,
  check_total, validate, from_parts, merge_counter, check_snapshot, merge_snapshot,
}
use group.Model.Usage.Merge.{IsConsistent, validate_iff}
use group.Model.Usage.Snapshot.{Merged, merge_snapshot_atomic}
use group.Model.Usage.Repeat.{merge_snapshot_again}

abbrev old : TokenUsage ℕ
old = record {
  input_tokens = some 10;
  output_tokens = none;
  total_tokens = none;
  extensions = record { entries = ("cached", 4) ∷ [] };
}

abbrev snapshot : TokenUsage ℕ
snapshot = record {
  input_tokens = some 12;
  output_tokens = some 3;
  total_tokens = some 20;
  extensions = record { entries = ("cached", 4) ∷ ("audio", 1) ∷ [] };
}

abbrev merged : TokenUsage ℕ
merged = record {
  input_tokens = some 12;
  output_tokens = some 3;
  total_tokens = some 20;
  extensions = record { entries = ("audio", 1) ∷ ("cached", 4) ∷ [] };
}

snapshot_merged : merge_snapshot snapshot old ≡ (ok tt, merged)
unfolding merge_snapshot check_snapshot merge_counter validate checked_computed_total check_total
    validate_idempotent_merge validate_entries commit_idempotent_merge commit_entries insert_sorted
    get
snapshot_merged = refl

decrease_refused :
    merge_snapshot old snapshot ≡ (err (counter_decreased "input_tokens" 12 10), snapshot)
unfolding merge_snapshot check_snapshot merge_counter
decrease_refused = refl

overflow_refused : from_parts {V = ℕ} (some u64_max) (some 1) none ≡ err (total_overflow u64_max 1)
unfolding from_parts validate checked_computed_total
overflow_refused = refl

validate_iff_example : (validate snapshot ≡ ok tt) ↔ IsConsistent snapshot
validate_iff_example = validate_iff snapshot

merge_snapshot_atomic_example :
    ((reason : TokenUsageError) × (merge_snapshot snapshot old ≡ (err reason, old)))
    ⊎ (((merge_snapshot snapshot old).0 ≡ ok tt)
        × Merged snapshot old (merge_snapshot snapshot old).1)
merge_snapshot_atomic_example = merge_snapshot_atomic snapshot old

cached-Distinct : Distinct {A = String} ("cached" ∷ "audio" ∷ [])
cached-Distinct =
    (((λ e. let h = (==_iff {A = String} "cached" "audio").1 e in cc h), tt), (tt, tt))

merge_snapshot_again_example :
    merge_snapshot snapshot (merge_snapshot snapshot old).1
    ≡ (ok tt, (merge_snapshot snapshot old).1)
merge_snapshot_again_example =
    merge_snapshot_again snapshot old cached-Distinct (ap (λ x. x.0) snapshot_merged)

-- Keys are trimmed, so that these two are the same.
repeated_key :
    try_from_iter {V = ℕ} (("  mode ", 1) ∷ ("other", 2) ∷ ("mode", 3) ∷ [])
    ≡ err (duplicate_key "mode")
unfolding is_whitespace trim_start trim_end trim place insert_extension try_from_iter insert_sorted
    get
repeated_key = refl

insert_extension-Inserts_example :
    Inserts {V = ℕ} " mode" "mode " 5
      (record { entries = ("other", 2) ∷ [] })
      (insert_extension " mode" 5 (record { entries = ("other", 2) ∷ [] }))
insert_extension-Inserts_example =
    insert_extension-Inserts " mode" "mode " 5 (record { entries = ("other", 2) ∷ [] })
