-- ===== src/Core/Transition/Routes.antt =====
-- What `resolve_into` of crates/group-agent-core/src/transition.rs selects.
use group.Prelude.{
  Option-cases, All, All-map, All-map₂, Distinct, Map, get, contains_key, ==_iff, nat_eq, string_eq,
  bool_eq, option_eq, list_eq, contains, Result, Result-cases, ok, err, ◌≡◌, refl, ap, subst, ◌≢◌,
  ◌↔◌, inl, inr, Bool, true, false, Option, some, List, [], ◌∷◌, map, arith,
}
use group.Core.Path.{NodeId, GraphPath, NodePath}
use group.Core.Transition.{
  NodeIndex, CompiledTransition, conditional_fan_out, TransitionError, resolve_into, resolve_each,
}

abbrev pub is_ok {ℓ κ} : {A : Type ℓ} {E : Type κ} → Result A E → Bool
is_ok (ok a) = true
is_ok (err e) = false

module _ {S E : Type 0} where
  -- A transition that fails adds no target.
  pub resolve_error_unchanged :
      (t : CompiledTransition S E) (state : S) (g : GraphPath) (targets : List NodeIndex)
      (path_at : NodeIndex → NodePath) (e : TransitionError E)
      → (resolve_into t state g targets path_at).0 ≡ err e
      → (resolve_into t state g targets path_at).1 ≡ targets
  unfolding resolve_into
  resolve_error_unchanged (CompiledTransition.fixed t) state g targets path_at e h = cc
  resolve_error_unchanged (CompiledTransition.static_fan_out ts) state g targets path_at e h = cc
  resolve_error_unchanged (CompiledTransition.conditional route allowed) state g targets path_at e
        h =
      ground arith
  resolve_error_unchanged (conditional_fan_out route allowed) state g targets path_at e h =
      ground arith

pub contains-Absent :
    (x : NodeId) (y : NodeId) (seen : List NodeId)
    → contains y (x ∷ seen) ≡ false
    → (x ≢ y) × (contains y seen ≡ false)
unfolding contains
contains-Absent x y seen h = (λ e. ground (arith, ==_iff x y), ground arith)

Absent-contains :
    (x : NodeId) (y : NodeId) (seen : List NodeId)
    → x ≢ y
    → contains y seen ≡ false
    → contains y (x ∷ seen) ≡ false
unfolding contains
Absent-contains x y seen ne h = ground (arith, ==_iff x y)

-- The targets that the loop resolved, for the identifiers it was given.
pub record IsResolved (allowed : Map NodeId (Option NodeIndex)) (seen ids : List NodeId)
    (resolved : List (Option NodeIndex × NodeId)) : Type 0 where
  pub names : map (λ x. x.1) resolved ≡ ids
  pub found : All (λ x. get x.1 allowed ≡ some x.0) resolved
  pub distinct : Distinct ids
  pub unseen : All (λ x. contains x seen ≡ false) ids

-- A selection that the transition may take: not empty, with no repetition, and allowed.
pub record IsSelection (allowed : Map NodeId (Option NodeIndex)) (ids : List NodeId) : Type 0 where
  pub nonempty : ids ≢ []
  pub distinct : Distinct ids
  pub declared : All (λ x. contains_key x allowed ≡ true) ids

module _ {E : Type 0} (allowed : Map NodeId (Option NodeIndex)) where
  resolve_each-cons :
      (seen ids : List NodeId) (x : NodeId) (resolved : List (Option NodeIndex × NodeId))
      → resolve_each {E = E} allowed seen (x ∷ ids) ≡ ok resolved
      → (contains x seen ≡ false)
        × (target : Option NodeIndex) × (rest : List (Option NodeIndex × NodeId)) × (get x allowed
            ≡ some target)
        × (resolve_each {E = E} allowed (x ∷ seen) ids ≡ ok rest)
        × (resolved ≡ (target, x) ∷ rest)
  unfolding resolve_each
  resolve_each-cons seen ids x resolved h = ground arith

  pub resolve_each-IsResolved :
      (seen ids : List NodeId) (resolved : List (Option NodeIndex × NodeId))
      → resolve_each {E = E} allowed seen ids ≡ ok resolved
      → IsResolved allowed seen ids resolved
  unfolding resolve_each
  resolve_each-IsResolved seen [] resolved h =
      let e : resolved ≡ [] = ground arith in
      record { names = rw e; found = rw e tt; distinct = tt; unseen = tt }
  resolve_each-IsResolved seen (x ∷ ids) resolved h =
      let (new, target, rest, found, step, e) = resolve_each-cons seen ids x resolved h in
      let ih = resolve_each-IsResolved (x ∷ seen) ids rest step in
      record {
        names = rw e (ap (λ l. x ∷ l) ih.names);
        found = rw e (found, ih.found);
        distinct = (
          All-map _ (λ y. x ≢ y) (λ y k. (contains-Absent x y seen k).0) ids ih.unseen,
          ih.distinct,
        );
        unseen = (
          new,
          All-map _ (λ y. contains y seen ≡ false) (λ y k. (contains-Absent x y seen k).1) ids
              ih.unseen,
        );
      }

  resolve_each-total :
      (seen ids : List NodeId)
      → Distinct ids
      → All (λ x. contains x seen ≡ false) ids
      → All (λ x. contains_key x allowed ≡ true) ids
      → (resolved : List (Option NodeIndex × NodeId)) × (resolve_each {E = E} allowed seen ids
          ≡ ok resolved)
  unfolding resolve_each
  resolve_each-total seen [] d u a = ([], refl)
  resolve_each-total seen (x ∷ ids) d u a = elim (Option-cases (get x allowed)) [
    | inl missing ↦ cc (a.0, missing)
    | inr (target, found) ↦
        let unseen =
          All-map₂ (λ y. x ≢ y) (λ y. contains y seen ≡ false) (λ y. contains y (x ∷ seen) ≡ false)
            (λ y. Absent-contains x y seen) ids d.0 u.1 in
        let (rest, e) = resolve_each-total (x ∷ seen) ids d.1 unseen a.1 in
        ((target, x) ∷ rest, ground arith)
  ]

unseen-nil : (ids : List NodeId) → All (λ x. contains x [] ≡ false) ids
unfolding contains
unseen-nil [] = tt
unseen-nil (x ∷ ids) = (refl, unseen-nil ids)

IsResolved-declared :
    (allowed : Map NodeId (Option NodeIndex)) (resolved : List (Option NodeIndex × NodeId))
    → All (λ x. get x.1 allowed ≡ some x.0) resolved
    → All (λ x. contains_key x allowed ≡ true) (map (λ x. x.1) resolved)
IsResolved-declared allowed [] a = tt
IsResolved-declared allowed (x ∷ resolved) a =
    (rw (a.0) refl, IsResolved-declared allowed resolved a.1)

module _ {S E : Type 0} where
  -- A conditional fan-out succeeds exactly when the router's selection is not empty, repeats no
  -- identifier and stays inside the declared targets.
  pub fan_out_ok_iff :
      (route : S → Result (List NodeId) E) (allowed : Map NodeId (Option NodeIndex)) (state : S)
      (g : GraphPath) (targets : List NodeIndex) (path_at : NodeIndex → NodePath)
      (ids : List NodeId)
      → route state ≡ ok ids
      → (is_ok (resolve_into (conditional_fan_out route allowed) state g targets path_at).0 ≡ true)
        ↔ IsSelection allowed ids
  unfolding resolve_into
  fan_out_ok_iff route allowed state g targets path_at [] h =
      (λ o. absurd (ground arith), λ s. absurd (s.nonempty refl))
  fan_out_ok_iff route allowed state g targets path_at (x ∷ ids) h = (
    λ o. elim (Result-cases (resolve_each {E = E} allowed [] (x ∷ ids))) [
      | inl (resolved, e) ↦
          let done = resolve_each-IsResolved {E = E} allowed [] (x ∷ ids) resolved e in
          record {
            nonempty = λ p. cc;
            distinct = done.distinct;
            declared =
                subst (All (λ y. contains_key y allowed ≡ true)) done.names
                  (IsResolved-declared allowed resolved done.found);
          }
      | inr (err', e) ↦ absurd (ground arith)
    ],
    λ s.
        let (resolved, e) =
          resolve_each-total {E = E} allowed [] (x ∷ ids) s.distinct (unseen-nil (x ∷ ids))
            s.declared in
        ground arith,
  )
