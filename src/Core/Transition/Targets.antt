-- ===== src/Core/Transition/Targets.antt =====
-- The targets that a conditional fan-out of crates/group-agent-core/src/transition.rs appends.
use mathlib.Core.List
use mathlib.Core.List.Perm
use group.Prelude.{
  leb→le, Bool-cases, All, All-map, insert_by, sort_by, sort_by-perm, Map, get, nat_eq, string_eq,
  bool_eq, option_eq, list_eq, Result, Result-cases, ok, ◌≤◌, ◌≡◌, refl, sym, ap, ◌∙◌, subst, inl,
  inr, true, false, Option, none, some, List, [], ◌∷◌, ◌++◌, map, append-nil, append_assoc, arith,
}
use group.Core.Path.{NodeId, GraphPath, NodePath}
use group.Core.Transition.{
  NodeIndex, conditional_fan_out, resolve_into, resolve_each, extend_all, key_le, RouteDecision,
}
use group.Core.Transition.Routes.{resolve_each-IsResolved}
use mathlib.Core.List.{Perm}

abbrev pub Selected : Type 0
Selected = List (Option NodeIndex × NodeId)

-- The executable targets, without `END`.
abbrev indices : Selected → List NodeIndex
indices = List.filter_map (λ x. x.0)

-- What the declared targets give an identifier: `END` and an undeclared one give nothing.
abbrev pub target_of : Map NodeId (Option NodeIndex) → NodeId → Option NodeIndex
target_of allowed id = elim (get id allowed) [ none ↦ none | some target ↦ target ]

-- Each element is at most all that follow it.
abbrev pub IsSorted : List NodeIndex → Type 0
IsSorted [] = Unit
IsSorted (x ∷ xs) = All (λ y. x ≤ y) xs × IsSorted xs

extend_all-indices :
    (targets : List NodeIndex) (xs : Selected) → extend_all targets xs ≡ targets ++ indices xs
unfolding List.filter_map
extend_all-indices targets [] = sym (append-nil targets)
extend_all-indices targets ((none, id) ∷ xs) = extend_all-indices targets xs
extend_all-indices targets ((some i, id) ∷ xs) =
    extend_all-indices (targets ++ i ∷ []) xs ∙ append_assoc targets (i ∷ []) (indices xs)

indices-found :
    (allowed : Map NodeId (Option NodeIndex)) (xs : Selected)
    → All (λ x. get x.1 allowed ≡ some x.0) xs
    → indices xs ≡ List.filter_map (target_of allowed) (map (λ x. x.1) xs)
unfolding List.filter_map
indices-found allowed [] a = refl
indices-found allowed ((none, id) ∷ xs) a = rw (a.0, target_of) (indices-found allowed xs a.1)
indices-found allowed ((some i, id) ∷ xs) a =
    rw (a.0, target_of) (ap (λ l. i ∷ l) (indices-found allowed xs a.1))

-- Sorted by the key: the indices ascend, and `END` comes last.
abbrev KeySorted : Selected → Type 0
KeySorted [] = Unit
KeySorted (x ∷ xs) = All (λ y. key_le x y ≡ true) xs × KeySorted xs

key_le_trans :
    (x y z : Option NodeIndex × NodeId) → key_le x y ≡ true → key_le y z ≡ true → key_le x z ≡ true
key_le_trans (some a, _) (some b, _) (some c, _) h k = ground arith
key_le_trans (some a, _) (some b, _) (none, _) h k = refl
key_le_trans (some a, _) (none, _) (some c, _) h k = cc
key_le_trans (some a, _) (none, _) (none, _) h k = refl
key_le_trans (none, _) (some b, _) z h k = cc
key_le_trans (none, _) (none, _) z h k = ground arith

key_le_total : (x y : Option NodeIndex × NodeId) → key_le x y ≡ false → key_le y x ≡ true
key_le_total (some a, _) (some b, _) h = ground arith
key_le_total (some a, _) (none, _) h = cc
key_le_total (none, _) (some b, _) h = refl
key_le_total (none, _) (none, _) h = cc

All-insert_by :
    (x y : Option NodeIndex × NodeId) (xs : Selected)
    → key_le y x ≡ true
    → All (λ z. key_le y z ≡ true) xs
    → All (λ z. key_le y z ≡ true) (insert_by key_le x xs)
unfolding insert_by
All-insert_by x y [] h a = (h, tt)
All-insert_by x y (z ∷ xs) h a = elim (Bool-cases (key_le x z)) [
  | inl le ↦ rw le (h, a)
  | inr gt ↦ rw gt (a.0, All-insert_by x y xs h a.1)
]

insert_by-KeySorted :
    (x : Option NodeIndex × NodeId) (xs : Selected)
    → KeySorted xs
    → KeySorted (insert_by key_le x xs)
unfolding insert_by
insert_by-KeySorted x [] s = (tt, tt)
insert_by-KeySorted x (y ∷ xs) s = elim (Bool-cases (key_le x y)) [
  | inl le ↦ rw le (
    (
      le,
      All-map (λ z. key_le y z ≡ true) (λ z. key_le x z ≡ true) (λ z k. key_le_trans x y z le k) xs
          s.0,
    ),
    s,
  )
  | inr gt ↦ rw gt (All-insert_by x y xs (key_le_total x y gt) s.0, insert_by-KeySorted x xs s.1)
]

sort_by-KeySorted : (xs : Selected) → KeySorted (sort_by key_le xs)
unfolding sort_by
sort_by-KeySorted [] = tt
sort_by-KeySorted (x ∷ xs) = insert_by-KeySorted x (sort_by key_le xs) (sort_by-KeySorted xs)

All-indices :
    (i : NodeIndex) (id : NodeId) (xs : Selected)
    → All (λ y. key_le (some i, id) y ≡ true) xs
    → All (λ y. i ≤ y) (indices xs)
unfolding List.filter_map
All-indices i id [] a = tt
All-indices i id ((none, _) ∷ xs) a = All-indices i id xs a.1
All-indices i id ((some j, _) ∷ xs) a = (leb→le i j a.0, All-indices i id xs a.1)

indices-IsSorted : (xs : Selected) → KeySorted xs → IsSorted (indices xs)
unfolding List.filter_map
indices-IsSorted [] s = tt
indices-IsSorted ((none, id) ∷ xs) s = indices-IsSorted xs s.1
indices-IsSorted ((some i, id) ∷ xs) s = (All-indices i id xs s.0, indices-IsSorted xs s.1)

module _ {S E : Type 0} where
  -- A conditional fan-out that succeeds appends the declared executable targets of the router's
  -- selection, `END` left out, in ascending order of their indices.
  pub fan_out_targets :
      (route : S → Result (List NodeId) E) (allowed : Map NodeId (Option NodeIndex)) (state : S)
      (g : GraphPath) (targets : List NodeIndex) (path_at : NodeIndex → NodePath)
      (ids : List NodeId) (decision : Option RouteDecision)
      → route state ≡ ok ids
      → (resolve_into (conditional_fan_out route allowed) state g targets path_at).0 ≡ ok decision
      → (appended : List NodeIndex) × ((resolve_into
            (conditional_fan_out route allowed)
            state
            g
            targets
            path_at).1
          ≡ targets ++ appended)
        × IsSorted appended
        × Perm appended (List.filter_map (target_of allowed) ids)
  unfolding resolve_into
  fan_out_targets route allowed state g targets path_at [] d h o = absurd (ground arith)
  fan_out_targets route allowed state g targets path_at (x ∷ ids) d h o =
      elim (Result-cases (resolve_each {E = E} allowed [] (x ∷ ids))) [
        | inl (resolved, e) ↦
            let done = resolve_each-IsResolved {E = E} allowed [] (x ∷ ids) resolved e in
            let sorted = sort_by key_le resolved in
            (
              indices sorted,
              ground (arith, extend_all-indices targets sorted),
              indices-IsSorted sorted (sort_by-KeySorted resolved),
              subst (Perm (indices sorted))
                  (indices-found allowed resolved done.found
                    ∙ ap (List.filter_map (target_of allowed)) done.names)
                  (Perm.filter_map (λ x. x.0) (sort_by-perm key_le resolved)),
            )
        | inr (e', e) ↦ absurd (ground arith)
      ]
