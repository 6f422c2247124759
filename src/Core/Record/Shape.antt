-- ===== src/Core/Record/Shape.antt =====
-- What `CheckpointRecord::try_from_parts` of
-- crates/group-agent-core/src/checkpoint_record.rs accepts.
use group.Prelude.{
  nat_beq, Option-cases, length, head?, is_empty_iff, ◌==◌, ==_iff, nat_eq, string_eq, bool_eq,
  option_eq, list_eq, ok, ◌≡◌, ◌↔◌, inl, inr, true, some, List, [], ◌∷◌, arith,
}
use group.Core.Path.{NodePath, node_path_eq}
use group.Core.Record.{
  CheckpointRecord, CheckpointRecordParts, CheckpointRecordInterrupt, try_from_parts,
}

-- A checkpoint is complete when nothing is left to run, and an interrupted one has just the
-- interrupted node left.
pub record IsWellShaped (parts : CheckpointRecordParts) : Type 0 where
  pub done : (parts.completed ≡ true) ↔ (parts.next_frontier ≡ [])
  pub waiting :
      (i : CheckpointRecordInterrupt)
      → parts.interrupt ≡ some i
      → parts.next_frontier ≡ i.node_path ∷ []

singleton :
    (xs : List NodePath) (p : NodePath)
    → (nat_beq (length xs) 1 ≡ true) × ((head? xs == some p) ≡ true) ↔ (xs ≡ p ∷ [])
singleton [] p = ground arith
singleton (x ∷ []) p = ground (arith, ==_iff x p)
singleton (x ∷ y ∷ xs) p = ground arith

-- `try_from_parts` returns a record exactly when the parts are well shaped, and the record has the
-- parts as they were given.
pub try_from_parts_iff :
    (parts : CheckpointRecordParts) (made : CheckpointRecord)
    → (try_from_parts parts ≡ ok made) ↔ (IsWellShaped parts × (made ≡ record { parts = parts }))
unfolding try_from_parts
try_from_parts_iff parts made = (
  λ h. (
    record {
      done = ground (arith, is_empty_iff parts.next_frontier);
      waiting = λ i e. ground (arith, singleton parts.next_frontier i.node_path);
    },
    ground arith,
  ),
  λ (w, same). elim (Option-cases parts.interrupt) [
    | inl e ↦ ground (arith, w.done, is_empty_iff parts.next_frontier)
    | inr (i, e) ↦ ground (
      arith,
      w.done,
      w.waiting i e,
      is_empty_iff parts.next_frontier,
      singleton parts.next_frontier i.node_path,
    )
  ],
)
