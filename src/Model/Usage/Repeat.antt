-- ===== src/Model/Usage/Repeat.antt =====
-- `merge_snapshot` of crates/group-agent-model/src/response.rs, with a snapshot that was merged.
use group.Prelude.{
  All, All-map, Distinct, Map, get, contains_key, Eq, ==_iff, ==_refl, nat_eq, string_eq, bool_eq,
  option_eq, list_eq, Result-cases, ok, ℕ, String, ◌≡◌, refl, sym, ap, ◌∙◌, subst, ◌≢◌, inl, inr,
  true, Option, none, some, [], ◌∷◌, map, arith,
}
use group.Model.Extensions.{
  Extensions, lookup, commit_idempotent_merge, validate_idempotent_merge, commit_entries,
  validate_entries,
}
use group.Model.Extensions.Merge.{
  Agrees, is_valid, validate_entries_iff, commit_entries-lookup, commit_entries-present,
}
use group.Model.Usage.{TokenUsage, merge_counter, check_snapshot, merge_snapshot}
use group.Model.Usage.Snapshot.{Found, check_snapshot-Found}

merge_counter-again :
    (field : String) (previous current merged : Option ℕ)
    → merge_counter field previous current ≡ ok merged
    → merge_counter field merged current ≡ ok merged
unfolding merge_counter
merge_counter-again field none none merged h = ground arith
merge_counter-again field none (some c) merged h = ground arith
merge_counter-again field (some p) none merged h = ground arith
merge_counter-again field (some p) (some c) merged h = ground arith

module _ {V : Type 0} where
  get-Distinct :
      (m : Map String V) → Distinct (map (λ x. x.0) m) → All (λ x. get x.0 m ≡ some x.1) m
  unfolding get
  get-Distinct [] d = tt
  get-Distinct ((k, v) ∷ m) d = (ground (arith, ==_refl k), keep m d.0 (get-Distinct m d.1))
    where
      keep :
          (l : Map String V)
          → All (λ j. k ≢ j) (map (λ x. x.0) l)
          → All (λ x. get x.0 m ≡ some x.1) l
          → All (λ x. get x.0 ((k, v) ∷ m) ≡ some x.1) l
      keep [] a b = tt
      keep ((j, w) ∷ l) a b = (ground (arith, ==_iff k j, a.0, b.0), keep l a.1 b.1)

module _ {V : Type 0} ⦃e : Eq V⦄ where
  -- After the commit, each of the entries is there with its value.
  present-entries :
      (all entries : Map String V) (ext : Extensions V)
      → All (λ x. get x.0 all ≡ some x.1) entries
      → All (Agrees ext) entries
      → All (λ x. lookup x.0 (commit_entries all ext) ≡ some x.1) entries
  present-entries all [] ext g a = tt
  present-entries all ((k, v) ∷ entries) ext g a = (
    ground (arith, commit_entries-lookup k all ext, g.0, a.0),
    present-entries all entries ext g.1 a.1,
  )

  merge_snapshot-checked :
      (snapshot usage merged : TokenUsage V)
      → check_snapshot snapshot usage ≡ ok merged
      → merge_snapshot snapshot usage ≡ (
        ok tt,
        record merged { extensions = commit_idempotent_merge snapshot.extensions usage.extensions },
      )
  unfolding merge_snapshot
  merge_snapshot-checked snapshot usage merged f = rw (f, merge_snapshot) refl

  merge_snapshot-ok :
      (snapshot usage : TokenUsage V)
      → (merge_snapshot snapshot usage).0 ≡ ok tt
      → (merged : TokenUsage V) × (check_snapshot snapshot usage ≡ ok merged)
  unfolding merge_snapshot
  merge_snapshot-ok snapshot usage h = elim (Result-cases (check_snapshot snapshot usage)) [
    | inr (reason, f) ↦ absurd (ground arith)
    | inl (merged, f) ↦ (merged, f)
  ]

  -- The checks pass again, on counters that were merged and extensions that agree.
  check_snapshot-again :
      (snapshot usage merged : TokenUsage V) (ext : Extensions V)
      → Found snapshot usage merged
      → is_valid (validate_entries snapshot.extensions.entries ext) ≡ true
      → check_snapshot snapshot (record merged { extensions = ext }) ≡ ok merged
  unfolding check_snapshot validate_idempotent_merge
  check_snapshot-again snapshot usage merged ext found agreed =
      let i = merge_counter-again _ usage.input_tokens snapshot.input_tokens _ found.input in
      let o = merge_counter-again _ usage.output_tokens snapshot.output_tokens _ found.output in
      let t = merge_counter-again _ usage.total_tokens snapshot.total_tokens _ found.total in
      elim (Result-cases (validate_entries snapshot.extensions.entries ext)) [
        | inr (conflict, f) ↦ absurd (ground arith)
        | inl (n, f) ↦ ground (arith, i, o, t, found.valid, found.bare)
      ]

  -- A snapshot that was merged can be merged again: it succeeds, and changes nothing. The keys of
  -- its extensions are distinct, as a map's are.
  pub merge_snapshot_again :
      (snapshot usage : TokenUsage V)
      → Distinct (map (λ x. x.0) snapshot.extensions.entries)
      → (merge_snapshot snapshot usage).0 ≡ ok tt
      → merge_snapshot snapshot (merge_snapshot snapshot usage).1
        ≡ (ok tt, (merge_snapshot snapshot usage).1)
  unfolding commit_idempotent_merge
  merge_snapshot_again snapshot usage distinct h =
      let (merged, f) = merge_snapshot-ok snapshot usage h in
      let found = check_snapshot-Found snapshot usage merged f in
      let entries = snapshot.extensions.entries in
      let ext = commit_entries entries usage.extensions in
      let agreed = (validate_entries_iff entries usage.extensions).0 found.agreed in
      let present =
        present-entries entries entries usage.extensions (get-Distinct entries distinct) agreed in
      let agrees =
        (validate_entries_iff entries ext).1
          (All-map _ (Agrees ext) (λ x p. inr p) entries present) in
      let kept : commit_entries entries ext ≡ ext =
        commit_entries-present entries ext (
          All-map _ (λ x. contains_key x.0 ext.entries ≡ true) (λ x p. rw p refl) entries
            present) in
      let first = merge_snapshot-checked snapshot usage merged f in
      let second =
        merge_snapshot-checked snapshot (record merged { extensions = ext }) merged
          (check_snapshot-again snapshot usage merged ext found agrees) in
      subst (λ r. merge_snapshot snapshot r.1 ≡ (ok tt, r.1)) (sym first)
        (second ∙ ap (λ x. (ok tt, record merged { extensions = x })) kept)
