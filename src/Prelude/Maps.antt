-- ===== src/Prelude/Maps.antt =====
-- Maps as association lists in insertion order: `IndexMap`, and `HashMap`, whose order the program
-- does not read.
use mathlib.Core.Path.{◌≡◌, refl}
use mathlib.Core.Bool.{Bool, true, false}
use mathlib.Core.Option.{Option, none, some}
use mathlib.Core.List.{List, [], ◌∷◌}
use native.Mathlib.Omega.{arith}
use group.Prelude.Tests.{if◌then◌else◌, Bool-cases}
use mathlib.Core.Logic.{◌≢◌, ◌⊎◌, inl, inr}
use group.Prelude.Eqs.{Eq, ◌==◌}

abbrev pub Map {ℓ κ} : Type ℓ → Type κ → Type (ℓ ⊔ κ)
Map K V = List (K × V)

abbrev pub is_some {ℓ} : {A : Type ℓ} → Option A → Bool
is_some none = false
is_some (some a) = true

-- `Option::or`.
abbrev pub or_else {ℓ} : {A : Type ℓ} → Option A → Option A → Option A
or_else (some a) other = some a
or_else none other = other

module _ {ℓ κ} {K : Type ℓ} {V : Type κ} ⦃e : Eq K⦄ where
  unfoldable pub get : K → Map K V → Option V
  get k [] = none
  get k ((j, v) ∷ m) = if j == k then some v else get k m

  -- A new key goes to the end; an old key keeps its place.
  unfoldable pub insert : K → V → Map K V → Map K V
  insert k v [] = (k, v) ∷ []
  insert k v ((j, w) ∷ m) = if j == k then (j, v) ∷ m else (j, w) ∷ insert k v m

  abbrev pub contains_key : K → Map K V → Bool
  contains_key k m = is_some (get k m)

  pub get-insert :
      (k j : K) (v : V) (m : Map K V) → get j (insert k v m) ≡ (if k == j then some v else get j m)
  unfolding get insert
  get-insert k j v [] = refl
  get-insert k j v ((i, w) ∷ m) =
      ground (arith, e.equal_iff k j, e.equal_iff i k, e.equal_iff i j, get-insert k j v m)

  pub get-insert_self : (k : K) (v : V) (m : Map K V) → get k (insert k v m) ≡ some v
  get-insert_self k v m = ground (arith, get-insert k k v m, e.equal_iff k k)

  -- What is found after an insertion is the new value at its key, or was there before.
  pub get-insert_cases :
      (k j : K) (v w : V) (m : Map K V)
      → get j (insert k v m) ≡ some w
      → (k ≡ j) × (w ≡ v) ⊎ (k ≢ j) × (get j m ≡ some w)
  get-insert_cases k j v w m h = elim (Bool-cases (k == j)) [
    | inl same ↦ inl ((e.equal_iff k j).0 same, ground (arith, get-insert k j v m))
    | inr other ↦ inr (λ p. cc (other, (e.equal_iff k j).1 p), ground (arith, get-insert k j v m))
  ]

  pub get-insert_ne : (k j : K) (v : V) (m : Map K V) → k ≢ j → get j (insert k v m) ≡ get j m
  get-insert_ne k j v m h = ground (arith, get-insert k j v m, e.equal_iff k j)
