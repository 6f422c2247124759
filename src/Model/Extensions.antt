-- ===== src/Model/Extensions.antt =====
-- `Extensions` of crates/group-agent-model/src/extensions.rs, with its merge. A `BTreeMap` is the
-- association list of its entries in the order of their keys, and `V` is the JSON value of
-- `serde_json`, with its equality.
pub mod Merge
pub mod Insert
use Prim.Native.String.{compare}
use text.Mathlib.Text.{is_le}
use group.Prelude.{
  if◌then◌else◌, Map, get, contains_key, Eq, ◌==◌, nat_eq, string_eq, bool_eq, option_eq, list_eq,
  Result, ◌>>=◌, ok, err, ℕ, ◌+◌, String, Option, none, some, [], ◌∷◌,
}

-- `BTreeMap::insert`.
unfoldable pub insert_sorted : {V : Type 0} → String → V → Map String V → Map String V
insert_sorted k v [] = (k, v) ∷ []
insert_sorted k v ((j, w) ∷ m) =
    let rest = insert_sorted k v m in
    if j == k
    then (j, v) ∷ m
    else if is_le (compare k j)
    then (k, v) ∷ (j, w) ∷ m
    else (j, w) ∷ rest

pub record Extensions (V : Type 0) : Type 0 where
  pub entries : Map String V

pub data ExtensionMergeError : Type 0 where
  conflicting_value : String → ExtensionMergeError

module _ {V : Type 0} where
  -- `Extensions::get`, at a key that is trimmed.
  abbrev pub lookup : String → Extensions V → Option V
  lookup key extensions = get key extensions.entries

  -- `entry(key).or_insert(value)`.
  abbrev pub or_insert : String → V → Extensions V → Extensions V
  unfolding insert_sorted
  or_insert key value extensions =
      if contains_key key extensions.entries
      then extensions
      else record { entries = insert_sorted key value extensions.entries }

  unfoldable pub commit_entries : Map String V → Extensions V → Extensions V
  unfolding insert_sorted
  commit_entries [] extensions = extensions
  commit_entries ((key, value) ∷ rest) extensions =
      commit_entries rest (or_insert key value extensions)

  unfoldable pub commit_idempotent_merge : Extensions V → Extensions V → Extensions V
  unfolding commit_entries
  commit_idempotent_merge other extensions = commit_entries other.entries extensions

module _ {V : Type 0} ⦃e : Eq V⦄ where
  unfoldable pub validate_entries : Map String V → Extensions V → Result ℕ ExtensionMergeError
  validate_entries [] extensions = ok 0
  validate_entries ((key, value) ∷ rest) extensions =
      let later = validate_entries rest extensions in
      elim (lookup key extensions) [
        | some existing ↦ if existing == value then later else err (conflicting_value key)
        | none ↦ later >>= λ additional_keys. ok (additional_keys + 1)
      ]

  unfoldable pub validate_idempotent_merge :
      Extensions V → Extensions V → Result ℕ ExtensionMergeError
  unfolding validate_entries
  validate_idempotent_merge other extensions = validate_entries other.entries extensions

  unfoldable pub merge_idempotent :
      Extensions V → Extensions V → Result (Unit {0}) ExtensionMergeError × Extensions V
  unfolding validate_idempotent_merge commit_idempotent_merge
  merge_idempotent other extensions = elim (validate_idempotent_merge other extensions) [
    | err conflict ↦ (err conflict, extensions)
    | ok additional_keys ↦ (ok tt, commit_idempotent_merge other extensions)
  ]
