-- ===== src/Model/Extensions/Merge.antt =====
-- What the merge of crates/group-agent-model/src/extensions.rs does.
use group.Prelude.{
  if◌then◌else◌, Option-cases, All, Map, or_else, get, contains_key, Eq, ◌==◌, ==_iff, nat_eq,
  string_eq, bool_eq, option_eq, list_eq, Result, Result-cases, ok, err, ℕ, String, ◌≡◌, refl, ◌↔◌,
  ◌⊎◌, inl, inr, Bool, true, false, none, some, [], ◌∷◌, arith,
}
use group.Model.Extensions.{
  insert_sorted, Extensions, ExtensionMergeError, lookup, commit_entries, or_insert,
  commit_idempotent_merge, validate_entries, validate_idempotent_merge, merge_idempotent,
}

module _ {V : Type 0} where
  pub get-insert_sorted :
      (k j : String) (v : V) (m : Map String V)
      → get j (insert_sorted k v m) ≡ (if k == j then some v else get j m)
  unfolding get insert_sorted
  get-insert_sorted k j v [] = refl
  get-insert_sorted k j v ((i, w) ∷ m) =
      ground (arith, ==_iff k j, ==_iff i k, ==_iff i j, get-insert_sorted k j v m)

  pub commit_entries-lookup :
      (key : String) (entries : Map String V) (ext : Extensions V)
      → lookup key (commit_entries entries ext) ≡ or_else (lookup key ext) (get key entries)
  unfolding commit_entries get
  commit_entries-lookup key [] ext = ground arith
  commit_entries-lookup key ((k, v) ∷ entries) ext = ground (
    arith,
    ==_iff k key,
    get-insert_sorted k key v ext.entries,
    commit_entries-lookup key entries (or_insert k v ext),
  )

  -- Nothing is left to add.
  pub commit_entries-present :
      (entries : Map String V) (ext : Extensions V)
      → All (λ x. contains_key x.0 ext.entries ≡ true) entries
      → commit_entries entries ext ≡ ext
  unfolding commit_entries
  commit_entries-present [] ext h = refl
  commit_entries-present ((k, v) ∷ entries) ext h =
      rw (h.0, commit_entries) (commit_entries-present entries ext (h.1))

abbrev pub is_valid : Result ℕ ExtensionMergeError → Bool
is_valid (ok n) = true
is_valid (err conflict) = false

module _ {V : Type 0} ⦃e : Eq V⦄ where
  -- An entry that the extensions do not have, or have with the same value.
  abbrev pub Agrees : Extensions V → String × V → Type 0
  Agrees ext x = (lookup x.0 ext ≡ none) ⊎ (lookup x.0 ext ≡ some x.1)

  pub validate_entries_iff :
      (entries : Map String V) (ext : Extensions V)
      → (is_valid (validate_entries entries ext) ≡ true) ↔ All (Agrees ext) entries
  unfolding validate_entries
  validate_entries_iff [] ext = (λ h. tt, λ h. refl)
  validate_entries_iff ((k, v) ∷ entries) ext =
      let ih = validate_entries_iff entries ext in
      elim (Option-cases (lookup k ext)) [
        | inl new ↦
            (λ h. (inl new, ih.0 (ground arith)), λ h. let rest = ih.1 (h.1) in ground arith)
        | inr (w, old) ↦ (
          λ h. (inr (ground (arith, ==_iff w v)), ih.0 (ground arith)),
          λ h. let here = h.0 in let rest = ih.1 (h.1) in ground (arith, ==_iff w v),
        )
      ]

  pub merge_idempotent-cases :
      (other ext : Extensions V)
      → ((merge_idempotent other ext ≡ (ok tt, commit_idempotent_merge other ext))
          × All (Agrees ext) other.entries)
        ⊎ ((conflict : ExtensionMergeError) × (merge_idempotent other ext ≡ (err conflict, ext))
            × (All (Agrees ext) other.entries → ⊥))
  unfolding merge_idempotent validate_idempotent_merge
  merge_idempotent-cases other ext =
      let valid = validate_entries_iff other.entries ext in
      elim (Result-cases (validate_entries other.entries ext)) [
        | inl (n, f) ↦ inl (rw (f, merge_idempotent) refl, valid.0 (rw f refl))
        | inr (conflict, f) ↦
            inr (conflict, rw (f, merge_idempotent) refl, λ a. ground (arith, valid.1 a))
      ]
