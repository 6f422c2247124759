-- ===== src/Core/Graph/Build/Checked.antt =====
-- What the checks of the methods of `StateGraph` in crates/group-agent-core/src/graph.rs establish.
use group.Prelude.{
  Bool-cases, All, All-append, All-map, is_empty, is_empty_iff, Distinct, Map, get, insert, ◌==◌,
  ==_iff, nat_eq, string_eq, bool_eq, option_eq, list_eq, contains, ◌≡◌, refl, ap, ◌≢◌, inl, inr,
  false, none, List, [], ◌∷◌, ◌++◌, map, map-append, arith,
}
use group.Core.Path.{NodeId}
use group.Core.Transition.Routes.{contains-Absent}
use group.Core.Graph.{GraphBuildError, first_duplicate, has_source, check_targets}
use group.Core.Graph.Build.{IsTargetList, AreEdges}

pub Distinct-concat :
    (xs : List NodeId) (x : NodeId) → Distinct xs → All (λ y. y ≢ x) xs → Distinct (xs ++ x ∷ [])
Distinct-concat [] x d a = (tt, tt)
Distinct-concat (y ∷ xs) x d a =
    (All-append (λ z. y ≢ z) xs (x ∷ []) d.0 (a.0, tt), Distinct-concat xs x d.1 a.1)

first_duplicate-Distinct :
    (seen xs : List NodeId)
    → first_duplicate seen xs ≡ none
    → Distinct xs × All (λ x. contains x seen ≡ false) xs
unfolding first_duplicate
first_duplicate-Distinct seen [] h = (tt, tt)
first_duplicate-Distinct seen (x ∷ xs) h =
    let (distinct, unseen) = first_duplicate-Distinct (x ∷ seen) xs (ground arith) in
    (
      (All-map _ (λ y. x ≢ y) (λ y k. (contains-Absent x y seen k).0) xs unseen, distinct),
      (
        ground arith,
        All-map _ (λ y. contains y seen ≡ false) (λ y k. (contains-Absent x y seen k).1) xs unseen,
      ),
    )

module _ {A : Type 0} (source_of : A → NodeId) (targets_of : A → List NodeId) where
  has_source-Absent :
      (source : NodeId) (edges : List A)
      → has_source source_of source edges ≡ false
      → All (λ y. y ≢ source) (map source_of edges)
  has_source-Absent source [] h = tt
  has_source-Absent source (e ∷ edges) h = (
    λ same. ground (arith, ==_iff (source_of e) source),
    has_source-Absent source edges (ground arith),
  )

  -- An edge that the checks let through.
  pub AreEdges-add :
      (edge : A) (edges : List A) (a b : GraphBuildError) (c : NodeId → GraphBuildError)
      → check_targets (has_source source_of (source_of edge) edges) (targets_of edge) a b c ≡ none
      → AreEdges source_of targets_of edges
      → AreEdges source_of targets_of (edges ++ edge ∷ [])
  unfolding check_targets
  AreEdges-add edge edges a b c h old =
      let new : has_source source_of (source_of edge) edges ≡ false = ground arith in
      let some_target : is_empty (targets_of edge) ≡ false = ground arith in
      let single : first_duplicate [] (targets_of edge) ≡ none = ground arith in
      record {
        sources = rw (map-append source_of edges (edge ∷ [])) (
            Distinct-concat (map source_of edges) (source_of edge) old.sources
              (has_source-Absent (source_of edge) edges new));
        targets =
            All-append (λ e. IsTargetList (targets_of e)) edges (edge ∷ []) old.targets
              (
                (
                  λ e. ground (arith, is_empty_iff (targets_of edge)),
                  (first_duplicate-Distinct [] (targets_of edge) single).0,
                ),
                tt,
              );
      }

pub insert-new :
    {V : Type 0} (k : NodeId) (v : V) (m : Map NodeId V)
    → get k m ≡ none
    → insert k v m ≡ m ++ (k, v) ∷ []
unfolding get insert
insert-new k v [] h = refl
insert-new k v ((j, w) ∷ m) h = elim (Bool-cases (j == k)) [
  | inl same ↦ absurd (ground arith)
  | inr other ↦ rw (other, insert) (ap (λ l. (j, w) ∷ l) (insert-new k v m (ground arith)))
]

pub get-Absent :
    {V : Type 0} (k : NodeId) (m : Map NodeId V)
    → get k m ≡ none
    → All (λ y. y ≢ k) (map (λ x. x.0) m)
unfolding get
get-Absent k [] h = tt
get-Absent k ((j, w) ∷ m) h = (λ same. ground (arith, ==_iff j k), get-Absent k m (ground arith))
