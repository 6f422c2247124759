-- ===== src/Prelude/Lists.antt =====
-- Lists measured and indexed by native numbers, under the library's names.
use Prim.Native.Nat.{ℕ, zero, suc, ◌+◌}
use mathlib.Core.Path.{◌≡◌, refl, ap}
use mathlib.Core.Logic.{◌≢◌, ◌⊎◌, ◌↔◌, inl, inr}
use mathlib.Core.Bool.{Bool, true, false}
use mathlib.Core.List.{List, [], ◌∷◌, ◌++◌, map}
use mathlib.Core.Option.{Option, none, some}
use native.Mathlib.Omega.{arith}

module _ {ℓ} {A : Type ℓ} where
  abbrev pub length : List A → ℕ
  length [] = 0
  length (x ∷ xs) = suc (length xs)

  abbrev pub get_elem? : List A → ℕ → Option A
  get_elem? [] i = none
  get_elem? (x ∷ xs) zero = some x
  get_elem? (x ∷ xs) (suc i) = get_elem? xs i

  -- A write out of bounds changes nothing.
  abbrev pub set : List A → ℕ → A → List A
  set [] i v = []
  set (x ∷ xs) zero v = v ∷ xs
  set (x ∷ xs) (suc i) v = x ∷ set xs i v

  -- The last element, Rust's `last()`.
  abbrev pub last? : List A → Option A
  last? [] = none
  last? (x ∷ []) = some x
  last? (x ∷ y ∷ xs) = last? (y ∷ xs)

  -- All but the last element.
  abbrev pub init : List A → List A
  init [] = []
  init (x ∷ []) = []
  init (x ∷ y ∷ xs) = x ∷ init (y ∷ xs)

  abbrev pub take : ℕ → List A → List A
  take zero xs = []
  take (suc n) [] = []
  take (suc n) (x ∷ xs) = x ∷ take n xs

  abbrev pub head? : List A → Option A
  head? [] = none
  head? (x ∷ xs) = some x

  -- Every element satisfies the predicate.
  abbrev pub All {κ} : (A → Type κ) → List A → Type κ
  All P [] = Unit
  All P (x ∷ xs) = P x × All P xs

module _ {ℓ} {A : Type ℓ} where
  pub length-append : (xs ys : List A) → length (xs ++ ys) ≡ length xs + length ys
  length-append [] ys = omega arith
  length-append (x ∷ xs) ys = omega (arith, length-append xs ys)

  pub last?-concat : (xs : List A) (x : A) → last? (xs ++ x ∷ []) ≡ some x
  last?-concat [] x = refl
  last?-concat (y ∷ []) x = refl
  last?-concat (y ∷ z ∷ xs) x = last?-concat (z ∷ xs) x

  pub init-concat : (xs : List A) (x : A) → init (xs ++ x ∷ []) ≡ xs
  init-concat [] x = refl
  init-concat (y ∷ []) x = refl
  init-concat (y ∷ z ∷ xs) x = ap (λ l. y ∷ l) (init-concat (z ∷ xs) x)

  pub All-every {κ} : {P : A → Type κ} → ((x : A) → P x) → (xs : List A) → All P xs
  All-every f [] = tt
  All-every f (x ∷ xs) = (f x, All-every f xs)

  pub All-append {κ} : (P : A → Type κ) (xs ys : List A) → All P xs → All P ys → All P (xs ++ ys)
  All-append P [] ys h k = k
  All-append P (x ∷ xs) ys h k = (h.0, All-append P xs ys h.1 k)

  pub All-split {κ} : (P : A → Type κ) (xs ys : List A) → All P (xs ++ ys) → All P xs × All P ys
  All-split P [] ys h = (tt, h)
  All-split P (x ∷ xs) ys h = let (l, r) = All-split P xs ys h.1 in ((h.0, l), r)

  pub All-map {κ} : (P Q : A → Type κ) → ((x : A) → P x → Q x) → (xs : List A) → All P xs → All Q xs
  All-map P Q f [] h = tt
  All-map P Q f (x ∷ xs) h = (f x h.0, All-map P Q f xs h.1)

  pub init-last : (xs : List A) (x : A) → last? xs ≡ some x → init xs ++ x ∷ [] ≡ xs
  init-last [] x h = cc
  init-last (y ∷ []) x h = cc
  init-last (y ∷ z ∷ xs) x h = ap (λ l. y ∷ l) (init-last (z ∷ xs) x h)

  pub List-cases : (xs : List A) → (xs ≡ []) ⊎ ((x : A) × (rest : List A) × (xs ≡ x ∷ rest))
  List-cases [] = inl refl
  List-cases (x ∷ xs) = inr (x, xs, refl)

abbrev pub is_empty {ℓ} : {A : Type ℓ} → List A → Bool
is_empty [] = true
is_empty (x ∷ xs) = false

pub is_empty_iff {ℓ} : {A : Type ℓ} (xs : List A) → (is_empty xs ≡ true) ↔ (xs ≡ [])
is_empty_iff [] = ground arith
is_empty_iff (x ∷ xs) = ground arith

pub All-map₂ {ℓ κ} :
    {A : Type ℓ} (P Q R : A → Type κ)
    → ((x : A) → P x → Q x → R x)
    → (xs : List A) → All P xs
    → All Q xs
    → All R xs
All-map₂ P Q R f [] h k = tt
All-map₂ P Q R f (x ∷ xs) h k = (f x h.0 k.0, All-map₂ P Q R f xs h.1 k.1)

-- An element of the list.
pub data Among {ℓ} {A : Type ℓ} (x : A) : List A → Type ℓ where
  at_head : (y : A) (ys : List A) → x ≡ y → Among x (y ∷ ys)
  in_tail : (y : A) (ys : List A) → Among x ys → Among x (y ∷ ys)

pub All-found {ℓ κ} :
    {A : Type ℓ} (P : A → Type κ) (x : A) (xs : List A) → Among x xs → All P xs → P x
All-found P x _ (at_head y ys e) h = rw e (h.0)
All-found P x _ (in_tail y ys m) h = All-found P x ys m h.1

pub Among-nil {ℓ} : {A : Type ℓ} (x : A) → Among x [] → ⊥
Among-nil x m = All-found (λ y. ⊥) x [] m tt

pub Among-cases {ℓ} : {A : Type ℓ} (x y : A) (ys : List A) → Among x (y ∷ ys) → (x ≡ y) ⊎ Among x ys
Among-cases x y ys (at_head _ _ e) = inl e
Among-cases x y ys (in_tail _ _ m) = inr m

pub Among-append {ℓ} :
    {A : Type ℓ} (x : A) (xs ys : List A) → Among x xs ⊎ Among x ys → Among x (xs ++ ys)
Among-append x [] ys (inl m) = absurd (Among-nil x m)
Among-append x [] ys (inr m) = m
Among-append x (z ∷ xs) ys (inr m) = in_tail z (xs ++ ys) (Among-append x xs ys (inr m))
Among-append x _ ys (inl (at_head z zs e)) = at_head z (zs ++ ys) e
Among-append x _ ys (inl (in_tail z zs m)) = in_tail z (zs ++ ys) (Among-append x zs ys (inl m))

pub Among-split {ℓ} :
    {A : Type ℓ} (x : A) (xs ys : List A) → Among x (xs ++ ys) → Among x xs ⊎ Among x ys
Among-split x [] ys m = inr m
Among-split x (z ∷ xs) ys (at_head _ _ e) = inl (at_head z xs e)
Among-split x (z ∷ xs) ys (in_tail _ _ m) = elim (Among-split x xs ys m) [
  | inl l ↦ inl (in_tail z xs l)
  | inr r ↦ inr r
]

pub Among-map {ℓ κ} :
    {A : Type ℓ} {B : Type κ} (f : A → B) (x : A) (xs : List A)
    → Among x xs
    → Among (f x) (map f xs)
Among-map f x _ (at_head y ys e) = at_head (f y) (map f ys) (ap f e)
Among-map f x _ (in_tail y ys m) = in_tail (f y) (map f ys) (Among-map f x ys m)

pub Among-mapped {ℓ κ} :
    {A : Type ℓ} {B : Type κ} (f : A → B) (y : B) (xs : List A)
    → Among y (map f xs)
    → (x : A) × Among x xs × (y ≡ f x)
Among-mapped f y [] m = absurd (Among-nil y m)
Among-mapped f y (x ∷ xs) (at_head _ _ e) = (x, at_head x xs refl, e)
Among-mapped f y (x ∷ xs) (in_tail _ _ m) =
    let (z, n, e) = Among-mapped f y xs m in (z, in_tail x xs n, e)

-- No two elements are equal.
abbrev pub Distinct {ℓ} : {A : Type ℓ} → List A → Type ℓ
Distinct [] = Unit
Distinct (x ∷ xs) = All (λ y. x ≢ y) xs × Distinct xs

pub length-map {ℓ κ} :
    {A : Type ℓ} {B : Type κ} (f : A → B) (xs : List A) → length (map f xs) ≡ length xs
length-map f [] = refl
length-map f (x ∷ xs) = ap suc (length-map f xs)
