-- ===== src/Core/Graph/Frontiers/Measure.antt =====
-- What the worklist of `validate_subgraph_frontiers` in crates/group-agent-core/src/graph.rs can
-- still do: the pairs to visit, with those that were never queued.
use native.Mathlib.Nat.{suc-mul, le_trans}
use group.Prelude.{
  if◌then◌else◌, length, All, length-append, All-append, Map, ==_iff, ==_refl, nat_eq, string_eq,
  bool_eq, option_eq, list_eq, contains, >>=-eq-ok, ok, ℕ, suc, ◌+◌, ◌*◌, ◌≤◌, ◌<◌, ◌≡◌, refl, ap,
  true, false, ◌||◌, List, [], ◌∷◌, ◌++◌, map, arith,
}
use group.Core.Path.{NodeId}
use group.Core.Graph.{DeclaredItem}
use group.Core.Graph.Frontiers.{
  Worklist, canonical_pair, pair_eq, pair_beq_iff, without_end, distinct_from, all_pairs,
  enqueue_pair, enqueue_pairs, enqueue_frontier, enqueue_each,
}
use group.Core.Graph.Frontiers.Targets.{Within, Within-without_end, Within-distinct_from}

abbrev pub Pair : Type 0
Pair = NodeId × NodeId

abbrev row : NodeId → List NodeId → List Pair
row x [] = []
row x (y ∷ ys) = (x, y) ∷ row x ys

-- The pairs of nodes of two lists.
pub product : List NodeId → List NodeId → List Pair
product [] ys = []
product (x ∷ xs) ys = row x ys ++ product xs ys

length-row : (x : NodeId) (ys : List NodeId) → length (row x ys) ≡ length ys
length-row x [] = refl
length-row x (y ∷ ys) = ap suc (length-row x ys)

pub length-product : (xs ys : List NodeId) → length (product xs ys) ≡ length xs * length ys
unfolding product
length-product [] ys = omega arith
length-product (x ∷ xs) ys = omega (
  arith,
  length-append (row x ys) (product xs ys),
  length-row x ys,
  length-product xs ys,
  suc-mul (length xs) (length ys),
)

contains-row :
    (x y : NodeId) (ys : List NodeId)
    → contains y ys ≡ true
    → contains {A = Pair} (x, y) (row x ys) ≡ true
unfolding contains
contains-row x y [] h = cc
contains-row x y (z ∷ ys) h = ground (arith, ==_refl x, contains-row x y ys)

pub pair_contains-append :
    (p : Pair) (xs ys : List Pair) → contains p (xs ++ ys) ≡ (contains p xs || contains p ys)
unfolding contains
pair_contains-append p [] ys = refl
pair_contains-append p (y ∷ xs) ys = ground (arith, pair_contains-append p xs ys)

pub contains-product :
    (x y : NodeId) (xs ys : List NodeId)
    → contains x xs ≡ true
    → contains y ys ≡ true
    → contains (x, y) (product xs ys) ≡ true
unfolding product contains
contains-product x y [] ys h k = cc
contains-product x y (z ∷ xs) ys h k = ground (
  arith,
  pair_contains-append (x, y) (row z ys) (product xs ys),
  ==_iff z x,
  contains-row x y ys,
  contains-product x y xs ys,
)

-- How many of the pairs were not queued.
pub missing : List Pair → List Pair → ℕ
missing queued [] = 0
missing queued (p ∷ ps) =
    let rest = missing queued ps in if contains p queued then rest else suc rest

pub missing-le-length : (queued ps : List Pair) → missing queued ps ≤ length ps
unfolding missing
missing-le-length queued [] = omega arith
missing-le-length queued (p ∷ ps) = ground (arith, missing-le-length queued ps)

missing-le : (p : Pair) (queued ps : List Pair) → missing (p ∷ queued) ps ≤ missing queued ps
unfolding missing contains
missing-le p queued [] = omega arith
missing-le p queued (r ∷ ps) = ground (arith, missing-le p queued ps)

missing-lt :
    (p : Pair) (queued ps : List Pair)
    → contains p ps ≡ true
    → contains p queued ≡ false
    → missing (p ∷ queued) ps < missing queued ps
unfolding missing contains
missing-lt p queued [] h k = cc
missing-lt p queued (r ∷ ps) h k = ground (
  arith,
  ==_iff r p,
  ==_iff p r,
  pair_beq_iff r p,
  pair_beq_iff p r,
  missing-le p queued ps,
  missing-lt p queued ps,
)

module _ (known : List NodeId) where
  -- A pair of known nodes.
  abbrev Known : Pair → Type 0
  Known p = (contains p.0 known ≡ true) × (contains p.1 known ≡ true)

  contains-canonical_pair :
      (l r : NodeId) → Known (l, r) → contains (canonical_pair l r) (product known known) ≡ true
  unfolding canonical_pair
  contains-canonical_pair l r (h, k) =
      ground (arith, contains-product l r known known h k, contains-product r l known known k h)

  Known-row :
      (x : NodeId) (ys : List NodeId)
      → contains x known ≡ true
      → Within known ys
      → All Known (map (λ y. (x, y)) ys)
  Known-row x [] h w = tt
  Known-row x (y ∷ ys) h w = ((h, w.0), Known-row x ys h w.1)

  Known-all_pairs : (xs : List NodeId) → Within known xs → All Known (all_pairs xs)
  unfolding all_pairs
  Known-all_pairs [] w = tt
  Known-all_pairs (x ∷ xs) w =
      All-append Known (map (λ y. (x, y)) xs) (all_pairs xs) (Known-row x xs w.0 w.1)
        (Known-all_pairs xs w.1)

  -- What is left to do: each step of the worklist takes one, and no pair adds to it.
  unfoldable pub measure : Worklist → ℕ
  unfolding missing product
  measure list = length list.work + missing list.queued (product known known)

  module _ {S E N : Type 0} (items : Map NodeId (DeclaredItem S E N)) where
    enqueue_pair-measure :
        (p : Pair) (list after : Worklist)
        → Known p
        → enqueue_pair items p list ≡ ok after
        → measure after ≤ measure list
    unfolding enqueue_pair measure
    enqueue_pair-measure (l, r) list after k h = ground (
      arith,
      contains-canonical_pair l r k,
      length-append list.work (canonical_pair l r ∷ []),
      missing-lt (canonical_pair l r) list.queued (product known known),
    )

    enqueue_pairs-measure :
        (ps : List Pair) (list after : Worklist)
        → All Known ps
        → enqueue_pairs items ps list ≡ ok after
        → measure after ≤ measure list
    unfolding enqueue_pairs
    enqueue_pairs-measure [] list after k h = ground arith
    enqueue_pairs-measure (p ∷ ps) list after k h =
        let (mid, e, rest) = >>=-eq-ok (enqueue_pair items p list) (enqueue_pairs items ps) h in
        le_trans (enqueue_pairs-measure ps mid after k.1 rest)
          (enqueue_pair-measure p list mid k.0 e)

    pub enqueue_each-measure :
        (fs : List (List NodeId)) (list after : Worklist)
        → All (Within known) fs
        → enqueue_each items fs list ≡ ok after
        → measure after ≤ measure list
    unfolding enqueue_each enqueue_frontier
    enqueue_each-measure [] list after w h = ground arith
    enqueue_each-measure (f ∷ fs) list after w h =
        let (mid, e, rest) = >>=-eq-ok (enqueue_frontier items f list) (enqueue_each items fs) h in
        let clean = distinct_from [] (without_end f) in
        let k =
          Known-all_pairs clean
            (Within-distinct_from known [] (without_end f) (Within-without_end known f w.0)) in
        le_trans (enqueue_each-measure fs mid after w.1 rest)
          (enqueue_pairs-measure (all_pairs clean) list mid k e)
