-- ===== src/Model/Stream/Counts.antt =====
-- The numbers of entries of the merges in crates/group-agent-model/src/extensions.rs and stream.rs.
use group.Prelude.{
  ℕ, ◌+◌, ◌≤◌, String, ok, Eq, ◌≡◌, refl, ap, arith, Bool-cases, Option-cases, Result-cases, inl,
  inr, some, [], ◌∷◌, true, Map, get, All, length, contains_key, ==_iff, nat_eq, string_eq, ltb,
  ◌==◌,
}
use group.Model.Extensions.{Extensions, insert_sorted, or_insert, commit_entries, validate_entries}
use group.Model.Extensions.Merge.{get-insert_sorted}
use group.Model.Stream.Collector.{insert_call, fits}

pub All-insert_call :
    {A : Type 0} (P : ℕ × A → Type 0) (k : ℕ) (a : A) (m : Map ℕ A)
    → P (k, a)
    → All P m
    → All P (insert_call k a m)
unfolding insert_call
All-insert_call P k a [] p h = (p, tt)
All-insert_call P k a ((j, b) ∷ m) p h = elim (Bool-cases (j == k)) [
  | inl f ↦ let q : P (j, a) = rw ((==_iff j k).0 f) p in rw (f, insert_call) (q, h.1)
  | inr f ↦ elim (Bool-cases (ltb k j)) [
    | inl g ↦ rw (f, g, insert_call) (p, h)
    | inr g ↦ rw (f, g, insert_call) (h.0, All-insert_call P k a m p (h.1))
  ]
]

pub All-get :
    {A : Type 0} (P : ℕ × A → Type 0) (k : ℕ) (a : A) (m : Map ℕ A)
    → All P m
    → get k m ≡ some a
    → P (k, a)
unfolding get
All-get P k a [] h f = ground arith
All-get P k a ((j, b) ∷ m) h f = elim (Bool-cases (j == k)) [
  | inl g ↦
      let q : P (j, b) = h.0 in let same : b ≡ a = ground arith in rw (← (==_iff j k).0 g, ← same) q
  | inr g ↦ All-get P k a m (h.1) (rw (g, get) at f)
]

pub fits-le :
    (maximum before added : ℕ) → fits maximum before added ≡ true → before + added ≤ maximum
fits-le maximum before added h = ground arith

module _ {V : Type 0} where
  length-insert_sorted :
      (k : String) (v : V) (m : Map String V) → length (insert_sorted k v m) ≤ length m + 1
  unfolding insert_sorted
  length-insert_sorted k v [] = omega arith
  length-insert_sorted k v ((j, w) ∷ m) = ground (arith, length-insert_sorted k v m)

  or_insert-present :
      (k : String) (v : V) (ext : Extensions V)
      → contains_key k ext.entries ≡ true
      → or_insert k v ext ≡ ext
  unfolding insert_sorted
  or_insert-present k v ext h = rw h refl

  length-or_insert :
      (k : String) (v : V) (ext : Extensions V)
      → length (or_insert k v ext).entries ≤ length ext.entries + 1
  unfolding insert_sorted
  length-or_insert k v ext = elim (Bool-cases (contains_key k ext.entries)) [
    | inl f ↦
        let same = ap (λ x. length x.entries) (or_insert-present k v ext f) in omega (arith, same)
    | inr f ↦
        let new : or_insert k v ext ≡ record { entries = insert_sorted k v ext.entries } =
          rw f refl in
        let same = ap (λ x. length x.entries) new in
        omega (arith, same, length-insert_sorted k v ext.entries)
  ]

module _ {V : Type 0} ⦃e : Eq V⦄ where
  pub length-commit_entries :
      (entries : Map String V) (before ext : Extensions V) (n : ℕ)
      → ((key : String)
          → contains_key key before.entries ≡ true
          → contains_key key ext.entries ≡ true)
      → validate_entries entries before ≡ ok n
      → length (commit_entries entries ext).entries ≤ length ext.entries + n
  unfolding validate_entries commit_entries
  length-commit_entries [] before ext n h f = ground arith
  length-commit_entries ((k, v) ∷ entries) before ext n h f =
      elim (Option-cases (get k before.entries)) [
        | inl g ↦ elim (Result-cases (validate_entries entries before)) [
          | inl (count, r) ↦
              let rest =
                length-commit_entries entries before (or_insert k v ext) count
                  (λ key q. ground (arith, h key q, get-insert_sorted k key v ext.entries)) r in
              ground (arith, rest, length-or_insert k v ext)
          | inr (why, r) ↦ ground arith
        ]
        | inr (existing, g) ↦
            let present = h k (ground arith) in
            let rest = length-commit_entries entries before ext n h (ground arith) in
            let same : length (commit_entries entries (or_insert k v ext)).entries
                ≡ length (commit_entries entries ext).entries =
              ap (λ x. length (commit_entries entries x).entries)
                (or_insert-present k v ext present) in
            omega (arith, same, rest)
      ]
