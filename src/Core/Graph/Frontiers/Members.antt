-- ===== src/Core/Graph/Frontiers/Members.antt =====
-- The pairs and frontiers that the lists of crates/group-agent-core/src/graph.rs have in them.
use group.Prelude.{
  Bool-cases, Among, Among-nil, Among-cases, Among-append, Among-split, Among-map, Among-mapped,
  at_head, in_tail, ◌==◌, ==_iff, nat_eq, string_eq, bool_eq, option_eq, list_eq, contains, ◌≡◌,
  refl, sym, ap, ◌∙◌, ◌≢◌, ◌⊎◌, inl, inr, false, List, [], ◌∷◌, ◌++◌, map, arith,
}
use group.Core.Path.{NodeId}
use group.Core.Graph.Frontiers.{without_end, distinct_from, all_pairs, joint_frontiers, is_end}
use group.Core.Graph.Frontiers.Reach.{parallel}

-- Two distinct nodes of a frontier, neither of them `END`.
pub record Beside (a b : NodeId) (frontier : List NodeId) : Type 0 where
  pub first : Among a frontier
  pub second : Among b frontier
  pub apart : a ≢ b
  pub first_runs : is_end a ≡ false
  pub second_runs : is_end b ≡ false

pub Beside-swapped :
    (a b : NodeId) (frontier : List NodeId) → Beside a b frontier → Beside b a frontier
Beside-swapped a b frontier h = record {
  first = h.second;
  second = h.first;
  apart = λ e. h.apart (sym e);
  first_runs = h.second_runs;
  second_runs = h.first_runs;
}

pub among_executable :
    (x : NodeId) (xs : List NodeId) → is_end x ≡ false → Among x xs → Among x (without_end xs)
unfolding without_end
among_executable x _ runs (at_head y ys e) =
    let f : is_end y ≡ false = cc in rw f (at_head y (without_end ys) e)
among_executable x _ runs (in_tail y ys m) = elim (Bool-cases (is_end y)) [
  | inl e ↦ rw e (among_executable x ys runs m)
  | inr e ↦ rw e (in_tail y (without_end ys) (among_executable x ys runs m))
]

pub executable_among :
    (x : NodeId) (xs : List NodeId) → Among x (without_end xs) → Among x xs × (is_end x ≡ false)
unfolding without_end
executable_among x [] m = absurd (Among-nil x m)
executable_among x (y ∷ ys) m = elim (Bool-cases (is_end y)) [
  | inl e ↦ let (n, runs) = executable_among x ys (rw e at m) in (in_tail y ys n, runs)
  | inr e ↦ elim (Among-cases x y (without_end ys) (rw e at m)) [
    | inl same ↦ (at_head y ys same, rw same e)
    | inr n ↦ let (k, runs) = executable_among x ys n in (in_tail y ys k, runs)
  ]
]

pub among_distinct :
    (x : NodeId) (seen xs : List NodeId)
    → contains x seen ≡ false
    → Among x xs
    → Among x (distinct_from seen xs)
unfolding distinct_from contains
among_distinct x seen _ new (at_head y ys e) =
    let f : contains y seen ≡ false = cc in rw f (at_head y (distinct_from (y ∷ seen) ys) e)
among_distinct x seen _ new (in_tail y ys m) = elim (Bool-cases (contains y seen)) [
  | inl e ↦ rw e (among_distinct x seen ys new m)
  | inr e ↦ elim (Bool-cases (y == x)) [
    | inl same ↦ rw e (at_head y (distinct_from (y ∷ seen) ys) (sym ((==_iff y x).0 same)))
    | inr other ↦
        rw e (
          in_tail y (distinct_from (y ∷ seen) ys) (among_distinct x (y ∷ seen) ys (ground arith) m))
  ]
]

pub distinct_among :
    (x : NodeId) (seen xs : List NodeId)
    → Among x (distinct_from seen xs)
    → Among x xs × (contains x seen ≡ false)
unfolding distinct_from contains
distinct_among x seen [] m = absurd (Among-nil x m)
distinct_among x seen (y ∷ ys) m = elim (Bool-cases (contains y seen)) [
  | inl e ↦ let (n, new) = distinct_among x seen ys (rw e at m) in (in_tail y ys n, new)
  | inr e ↦ elim (Among-cases x y (distinct_from (y ∷ seen) ys) (rw e at m)) [
    | inl same ↦ (at_head y ys same, rw same e)
    | inr n ↦ let (k, new) = distinct_among x (y ∷ seen) ys n in (in_tail y ys k, ground arith)
  ]
]

-- No element of a list of distinct nodes occurs again.
pub distinct_pairs :
    (a b : NodeId) (seen xs : List NodeId)
    → Among (a, b) (all_pairs (distinct_from seen xs))
    → Among a (distinct_from seen xs) × Among b (distinct_from seen xs) × (a ≢ b)
unfolding distinct_from all_pairs contains
distinct_pairs a b seen [] m = absurd (Among-nil (a, b) m)
distinct_pairs a b seen (y ∷ ys) m = elim (Bool-cases (contains y seen)) [
  | inl e ↦ rw e (distinct_pairs a b seen ys (rw e at m))
  | inr e ↦
      let later = distinct_from (y ∷ seen) ys in
      rw e
        (elim (Among-split (a, b) (map (λ right. (y, right)) later) (all_pairs later) (rw e at m)) [
          | inl here ↦
              let (right, n, same) = Among-mapped (λ right. (y, right)) (a, b) later here in
              let first : a ≡ y = ap (λ p. p.0) same in
              let second : b ≡ right = ap (λ p. p.1) same in
              let (k, new) = distinct_among right (y ∷ seen) ys n in
              (
                at_head y later first,
                in_tail y later (rw second n),
                λ equal.
                    let z : y ≡ right = cc in let t = (==_iff y right).1 z in absurd (ground arith),
              )
          | inr there ↦
              let (p, q, apart) = distinct_pairs a b (y ∷ seen) ys there in
              (in_tail y later p, in_tail y later q, apart)
        ])
]

pub pair_among :
    (a b : NodeId) (xs : List NodeId)
    → a ≢ b
    → Among a xs
    → Among b xs
    → Among (a, b) (all_pairs xs) ⊎ Among (b, a) (all_pairs xs)
unfolding all_pairs
pair_among a b [] apart m n = absurd (Among-nil a m)
pair_among a b (y ∷ ys) apart (at_head _ _ e) (at_head _ _ f) = absurd (apart (e ∙ sym f))
pair_among a b (y ∷ ys) apart (at_head _ _ e) (in_tail _ _ n) = inl (
    Among-append (a, b) (map (λ right. (y, right)) ys) (all_pairs ys)
      (inl (rw e (Among-map (λ right. (y, right)) b ys n))))
pair_among a b (y ∷ ys) apart (in_tail _ _ m) (at_head _ _ f) = inr (
    Among-append (b, a) (map (λ right. (y, right)) ys) (all_pairs ys)
      (inl (rw f (Among-map (λ right. (y, right)) a ys m))))
pair_among a b (y ∷ ys) apart (in_tail _ _ m) (in_tail _ _ n) = elim (pair_among a b ys apart m n) [
  | inl h ↦ inl (Among-append (a, b) (map (λ right. (y, right)) ys) (all_pairs ys) (inr h))
  | inr h ↦ inr (Among-append (b, a) (map (λ right. (y, right)) ys) (all_pairs ys) (inr h))
]

pub parallel-Beside :
    (a b : NodeId) (frontier : List NodeId) → Among (a, b) (parallel frontier) → Beside a b frontier
parallel-Beside a b frontier m =
    let (p, q, apart) = distinct_pairs a b [] (without_end frontier) m in
    let (k, _) = distinct_among a [] (without_end frontier) p in
    let (l, _) = distinct_among b [] (without_end frontier) q in
    let (first, first_runs) = executable_among a frontier k in
    let (second, second_runs) = executable_among b frontier l in
    record {
      first = first;
      second = second;
      apart = apart;
      first_runs = first_runs;
      second_runs = second_runs;
    }

pub Beside-parallel :
    (a b : NodeId) (frontier : List NodeId)
    → Beside a b frontier
    → Among (a, b) (parallel frontier) ⊎ Among (b, a) (parallel frontier)
unfolding contains
Beside-parallel a b frontier h =
    pair_among a b (distinct_from [] (without_end frontier)) h.apart
      (among_distinct a [] (without_end frontier) refl
        (among_executable a frontier h.first_runs h.first))
      (among_distinct b [] (without_end frontier) refl
        (among_executable b frontier h.second_runs h.second))

pub among_joint :
    (l r : List NodeId) (ls rs : List (List NodeId))
    → Among l ls
    → Among r rs
    → Among (distinct_from [] (l ++ r)) (joint_frontiers ls rs)
unfolding joint_frontiers
among_joint l r _ rs (at_head y ys e) n =
    Among-append _ (map (λ right. distinct_from [] (y ++ right)) rs) (joint_frontiers ys rs)
      (inl (rw e (Among-map (λ right. distinct_from [] (y ++ right)) r rs n)))
among_joint l r _ rs (in_tail y ys m) n =
    Among-append _ (map (λ right. distinct_from [] (y ++ right)) rs) (joint_frontiers ys rs)
      (inr (among_joint l r ys rs m n))

pub joint_among :
    (f : List NodeId) (ls rs : List (List NodeId))
    → Among f (joint_frontiers ls rs)
    → (l : List NodeId) × (r : List NodeId) × Among l ls
      × Among r rs
      × (f ≡ distinct_from [] (l ++ r))
unfolding joint_frontiers
joint_among f [] rs m = absurd (Among-nil f m)
joint_among f (l ∷ ls) rs m =
    elim (Among-split f (map (λ right. distinct_from [] (l ++ right)) rs) (joint_frontiers ls rs)
      m) [
        | inl here ↦
            let (r, n, e) = Among-mapped (λ right. distinct_from [] (l ++ right)) f rs here in
            (l, r, at_head l ls refl, n, e)
        | inr there ↦
            let (k, r, n, o, e) = joint_among f ls rs there in (k, r, in_tail l ls n, o, e)
      ]
