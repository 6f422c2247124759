-- ===== src/Prelude/Sort.antt =====
-- Stable insertion by a Boolean order, for `sort_unstable_by_key`: where the keys are distinct
-- every sort gives the same list.
use mathlib.Core.Path.{◌≡◌, refl, ap, ◌∙◌}
use mathlib.Core.Bool.{Bool}
use mathlib.Core.List.{List, [], ◌∷◌, map, Perm}
use mathlib.Core.List.Perm
use native.Mathlib.Omega.{arith}
use group.Prelude.Tests.{if◌then◌else◌, Bool-cases}
use mathlib.Core.Logic.{inl, inr}
use group.Prelude.Lists.{All}

module _ {ℓ} {A : Type ℓ} (le : A → A → Bool) where
  unfoldable pub insert_by : A → List A → List A
  insert_by x [] = x ∷ []
  insert_by x (y ∷ ys) = if le x y then x ∷ y ∷ ys else y ∷ insert_by x ys

  unfoldable pub sort_by : List A → List A
  unfolding insert_by
  sort_by [] = []
  sort_by (x ∷ xs) = insert_by x (sort_by xs)

  All-insert_by {κ} :
      (P : A → Type κ) (x : A) (ys : List A) → P x → All P ys → All P (insert_by x ys)
  unfolding insert_by
  All-insert_by P x [] h k = (h, tt)
  All-insert_by P x (y ∷ ys) h k = elim (Bool-cases (le x y)) [
    | inl e ↦ rw e (h, (k.0, k.1))
    | inr e ↦ rw e (k.0, All-insert_by P x ys h k.1)
  ]

  pub All-sort_by {κ} : (P : A → Type κ) (xs : List A) → All P xs → All P (sort_by xs)
  unfolding sort_by
  All-sort_by P [] h = tt
  All-sort_by P (x ∷ xs) h = All-insert_by P x (sort_by xs) h.0 (All-sort_by P xs h.1)

  pub insert_by-perm : (x : A) (ys : List A) → Perm (insert_by x ys) (x ∷ ys)
  unfolding insert_by
  insert_by-perm x [] = Perm.refl (x ∷ [])
  insert_by-perm x (y ∷ ys) = elim (Bool-cases (le x y)) [
    | inl h ↦ rw h (Perm.refl (x ∷ y ∷ ys))
    | inr h ↦ rw h (Perm.trans (Perm.cons y (insert_by-perm x ys)) (Perm.swap x y ys))
  ]

  pub sort_by-perm : (xs : List A) → Perm (sort_by xs) xs
  unfolding sort_by
  sort_by-perm [] = Perm.refl []
  sort_by-perm (x ∷ xs) = Perm.trans (insert_by-perm x (sort_by xs)) (Perm.cons x (sort_by-perm xs))

-- A map that keeps the order commutes with the sort.
module _ {ℓ κ} {A : Type ℓ} {B : Type κ} (le : A → A → Bool) (le' : B → B → Bool) (f : A → B)
    (keeps : (x y : A) → le' (f x) (f y) ≡ le x y) where
  map-insert_by : (x : A) (ys : List A) → map f (insert_by le x ys) ≡ insert_by le' (f x) (map f ys)
  unfolding insert_by
  map-insert_by x [] = refl
  map-insert_by x (y ∷ ys) = ground (arith, keeps x y, map-insert_by x ys)

  pub map-sort_by : (xs : List A) → map f (sort_by le xs) ≡ sort_by le' (map f xs)
  unfolding sort_by
  map-sort_by [] = refl
  map-sort_by (x ∷ xs) = map-insert_by x (sort_by le xs) ∙ ap (insert_by le' (f x)) (map-sort_by xs)
