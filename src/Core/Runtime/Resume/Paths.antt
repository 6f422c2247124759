-- ===== src/Core/Runtime/Resume/Paths.antt =====
-- Which versions, frontiers and paths the validation of a checkpoint in
-- crates/group-agent-core/src/runtime.rs accepts.
use group.Prelude.{
  nat_beq, if◌then◌else◌, nat_beq_iff, length, is_empty, Map, get, ◌==◌, ==_iff, nat_eq, string_eq,
  bool_eq, option_eq, list_eq, >>=-eq-ok, ok, err, ◌≡◌, refl, ap, subst, ◌≢◌, ◌↔◌, Bool, true,
  false, not, ◌||◌, Option, none, some, List, [], ◌∷◌, arith,
}
use group.Core.Path.{NodeId, NodePath, leaf, is_start, is_end, graph_path_eq, node_path_eq}
use group.Core.Record.{GraphVersion}
use group.Core.Transition.{NodeIndex}
use group.Core.Checkpoint.{CheckpointInterrupt}
use group.Core.Runtime.Error.{
  CheckpointIncompatibility, graph_version_mismatch, invalid_interrupt_frontier,
  unknown_frontier_node, start_in_frontier, end_in_frontier,
}
use group.Core.Runtime.Resume.{
  Validated, check_version, check_shape, resolve_leaf, resolve_path, resolve_paths,
  graph_version_mismatch, invalid_interrupt_frontier, unknown_frontier_node, start_in_frontier,
  end_in_frontier,
}

-- The interrupt of a frontier is at its one node.
abbrev pub Waits : {P : Type 0} → List NodePath → Option (CheckpointInterrupt P) → Type 0
Waits frontier none = Unit {0}
Waits frontier (some stopped) = frontier ≡ stopped.node_path ∷ []

accepted_if :
    {A : Type 0} (test : Bool) (value : A) (reason : CheckpointIncompatibility)
    → ((if test then ok value else err reason) ≡ ok value) ↔ (test ≡ true)
accepted_if true value reason = ((λ h. refl), (λ h. refl))
accepted_if false value reason = ((λ h. cc), (λ h. cc))

pub refused_if :
    {A : Type 0} (test : Bool) (value : A) (reason : CheckpointIncompatibility)
    → ((if test then err reason else ok value) ≡ ok value) ↔ (test ≡ false)
refused_if true value reason = ((λ h. cc), (λ h. cc))
refused_if false value reason = ((λ h. refl), (λ h. refl))

not-false : (b : Bool) → not b ≡ false → b ≡ true
not-false true h = refl
not-false false h = cc

pub check_version_iff :
    (a b : Option GraphVersion)
    → (check_version a b ≡ ok tt) ↔ ((v : GraphVersion) × (a ≡ some v) × (b ≡ some v))
unfolding check_version
check_version_iff none b = ((λ h. cc), (λ (v, p, q). cc))
check_version_iff (some a) none = ((λ h. cc), (λ (v, p, q). cc))
check_version_iff (some a) (some b) =
    let accepted = accepted_if (a == b) tt (graph_version_mismatch a b) in
    (
      (λ h. (b, ap some ((==_iff a b).0 (accepted.0 h)), refl)),
      (λ (v, p, q). accepted.1 ((==_iff a b).1 (cc))),
    )

one_node :
    {P : Type 0} (path : NodePath) (stopped : CheckpointInterrupt P)
    → (check_shape false (path ∷ []) (some stopped) ≡ ok tt) ↔ (path ≡ stopped.node_path)
unfolding check_shape
one_node path stopped =
    let waits =
      refused_if (not (path == stopped.node_path)) tt
        (invalid_interrupt_frontier stopped.node_path (path ∷ [])) in
    (
      (λ h. (==_iff path stopped.node_path).0 (not-false (path == stopped.node_path) (waits.0 h))),
      (λ p. waits.1 (ap not ((==_iff path stopped.node_path).1 p))),
    )

several_nodes :
    {P : Type 0} (path next : NodePath) (rest : List NodePath) (stopped : CheckpointInterrupt P)
    → check_shape false (path ∷ next ∷ rest) (some stopped) ≢ ok tt
unfolding check_shape
several_nodes path next rest stopped h =
    let count = length (path ∷ next ∷ rest) in
    let one =
      (refused_if (not (nat_beq count 1) || not (path == stopped.node_path)) tt
          (invalid_interrupt_frontier stopped.node_path (path ∷ next ∷ rest))).0
        h in
    let same = nat_beq_iff count 1 in ground (arith, one, same)

pub check_shape_iff :
    {P : Type 0} (completed : Bool) (frontier : List NodePath)
    (waiting : Option (CheckpointInterrupt P))
    → (check_shape completed frontier waiting ≡ ok tt)
      ↔ ((completed ≡ is_empty frontier) × Waits frontier waiting)
unfolding check_shape
check_shape_iff true [] none = ((λ h. (refl, tt)), (λ h. refl))
check_shape_iff true [] (some stopped) = ((λ h. cc), (λ (p, q). cc))
check_shape_iff true (path ∷ rest) waiting = ((λ h. cc), (λ (p, q). cc))
check_shape_iff false [] waiting = ((λ h. cc), (λ (p, q). cc))
check_shape_iff false (path ∷ rest) none = ((λ h. (refl, tt)), (λ h. refl))
check_shape_iff false (path ∷ []) (some stopped) = (
  (λ h. (refl, ap (λ p. p ∷ []) ((one_node path stopped).0 h))),
  (λ (p, q). (one_node path stopped).1 (cc)),
)
check_shape_iff false (path ∷ next ∷ rest) (some stopped) =
    ((λ h. absurd (several_nodes path next rest stopped h)), (λ (p, q). cc))

-- A segment that names a node.
abbrev pub Executable : Option NodeId → Type 0
Executable none = ◌≡◌ {A = Bool} true false
Executable (some id) = (is_start id ≡ false) × (is_end id ≡ false)

-- The paths name nodes, at these indices.
abbrev pub Resolves : Map NodePath NodeIndex → List NodePath → List NodeIndex → Type 0
Resolves node_paths [] [] = Unit {0}
Resolves node_paths (path ∷ paths) (index ∷ indices) =
    Executable (leaf path) × (get path node_paths ≡ some index) × Resolves node_paths paths indices
Resolves node_paths paths indices = ◌≡◌ {A = Bool} true false

pub guard_iff :
    {A : Type 0} (test : Bool) (r : Validated A) (reason : CheckpointIncompatibility) (value : A)
    → ((if test then err reason else r) ≡ ok value) ↔ ((test ≡ false) × (r ≡ ok value))
guard_iff true r reason value = ((λ h. cc), (λ (p, q). cc))
guard_iff false r reason value = ((λ h. (refl, h)), (λ (p, q). q))

resolve_leaf_iff :
    (path : NodePath) (id : Option NodeId) (found : Option NodeIndex) (index : NodeIndex)
    → (resolve_leaf path id found ≡ ok index) ↔ (Executable id × (found ≡ some index))
unfolding resolve_leaf
resolve_leaf_iff path none found index = ((λ h. cc), (λ (p, q). cc))
resolve_leaf_iff path (some id) none index =
    let unknown : Validated NodeIndex = err (unknown_frontier_node path) in
    let rest = if is_end id then err end_in_frontier else unknown in
    (
      (λ h.
          let (p, q) = (guard_iff (is_start id) rest start_in_frontier index).0 h in
          let (e, r) = (guard_iff (is_end id) unknown end_in_frontier index).0 q in absurd (cc)),
      (λ (p, q). absurd (cc)),
    )
resolve_leaf_iff path (some id) (some found) index =
    let known : Validated NodeIndex = ok found in
    let rest = if is_end id then err end_in_frontier else known in
    (
      (λ h.
          let (p, q) = (guard_iff (is_start id) rest start_in_frontier index).0 h in
          let (e, r) = (guard_iff (is_end id) known end_in_frontier index).0 q in ((p, e), (cc))),
      (λ ((p, e), q).
          (guard_iff (is_start id) rest start_in_frontier index).1
            (p, (guard_iff (is_end id) known end_in_frontier index).1 (e, (cc)))),
    )

pub resolved-Resolves :
    (node_paths : Map NodePath NodeIndex) (paths : List NodePath) (indices : List NodeIndex)
    → resolve_paths node_paths paths ≡ ok indices
    → Resolves node_paths paths indices
unfolding resolve_paths resolve_path
resolved-Resolves node_paths [] [] h = tt
resolved-Resolves node_paths [] (index ∷ indices) h = absurd (cc)
resolved-Resolves node_paths (path ∷ paths) indices h =
    let (i, p, q) = >>=-eq-ok (resolve_path node_paths path) _ h in
    let (rest, r, e) = >>=-eq-ok (resolve_paths node_paths paths) (λ indices. ok (i ∷ indices)) q in
    let (x, g) = (resolve_leaf_iff path (leaf path) (get path node_paths) i).0 p in
    let later = resolved-Resolves node_paths paths rest r in
    let same : i ∷ rest ≡ indices = cc in
    subst (λ l. Resolves node_paths (path ∷ paths) l) same (x, g, later)

pub Resolves-resolved :
    (node_paths : Map NodePath NodeIndex) (paths : List NodePath) (indices : List NodeIndex)
    → Resolves node_paths paths indices
    → resolve_paths node_paths paths ≡ ok indices
unfolding resolve_paths resolve_path
Resolves-resolved node_paths [] [] h = refl
Resolves-resolved node_paths [] (index ∷ indices) h = absurd (cc)
Resolves-resolved node_paths (path ∷ paths) [] h = absurd (cc)
Resolves-resolved node_paths (path ∷ paths) (index ∷ indices) (x, g, later) =
    let first = (resolve_leaf_iff path (leaf path) (get path node_paths) index).1 (x, g) in
    let rest = Resolves-resolved node_paths paths indices later in rw (first, rest) refl
