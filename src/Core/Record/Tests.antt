-- ===== src/Core/Record/Tests.antt =====
-- Records of crates/group-agent-core/src/checkpoint_record.rs at small inputs.
use group.Prelude.{
  nat_eq, string_eq, bool_eq, option_eq, list_eq, ok, err, ◌≡◌, refl, ◌↔◌, true, false, none, some,
  [], ◌∷◌,
}
use group.Core.Path.{node_root}
use group.Core.Record.{
  EncodedValue, CheckpointRecord, CheckpointRecordParts, CheckpointRecordInterrupt, try_from_parts,
  invalid_interrupt_frontier, completed_with_frontier,
}
use group.Core.Record.Shape.{IsWellShaped, try_from_parts_iff}

abbrev text : EncodedValue
text = record {
  descriptor = record { schema = "question"; schema_version = 1; encoding = "json" };
  bytes = b'?' ∷ [];
}

abbrev question : CheckpointRecordInterrupt
question = record { id = 9; node_path = node_root "ask"; payload = text }

abbrev waiting : CheckpointRecordParts
waiting = record {
  format_version = 1;
  checkpoint_id = 1;
  thread_id = "thread";
  run_id = 7;
  parent_id = none;
  graph_version = none;
  superstep = 2;
  step = 2;
  snapshot = text;
  next_frontier = node_root "ask" ∷ [];
  completed = false;
  interrupt = some question;
}

completed_refused :
    try_from_parts (record waiting { completed = true }) ≡ err completed_with_frontier
unfolding try_from_parts
completed_refused = refl

elsewhere_refused :
    try_from_parts (record waiting { next_frontier = node_root "other" ∷ [] })
    ≡ err (invalid_interrupt_frontier (node_root "ask"))
unfolding try_from_parts
elsewhere_refused = refl

abbrev made : CheckpointRecord
made = record { parts = waiting }

try_from_parts_iff_example :
    (try_from_parts waiting ≡ ok made)
    ↔ (IsWellShaped waiting × (made ≡ record { parts = waiting }))
try_from_parts_iff_example = try_from_parts_iff waiting made
