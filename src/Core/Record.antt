-- ===== src/Core/Record.antt =====
-- The encoding-neutral checkpoint record of crates/group-agent-core/src/checkpoint_record.rs, with
-- `EncodedValue` of crates/group-agent-core/src/checkpoint_codec.rs and the identifiers of
-- crates/group-agent-core/src/id.rs and checkpoint.rs. A UUID is its 128-bit number.
pub mod Codec
pub mod Shape
pub mod Tests
use group.Prelude.{
  nat_beq, if◌then◌else◌, length, head?, is_empty, is_some, Eq, ◌==◌, ==_iff, nat_eq, string_eq,
  bool_eq, option_eq, list_eq, Result, ok, err, ℕ, String, ◌≡◌, ◌↔◌, Bool, true, not, ◌&&◌, ◌||◌,
  Option, none, some, List, arith,
}
use group.Core.Path.{NodePath, node_path_eq}

abbrev pub CheckpointId : Type 0
CheckpointId = ℕ

abbrev pub RunId : Type 0
RunId = ℕ

abbrev pub BranchId : Type 0
BranchId = ℕ

abbrev pub InterruptId : Type 0
InterruptId = ℕ

abbrev pub ThreadId : Type 0
ThreadId = String

abbrev pub GraphVersion : Type 0
GraphVersion = String

pub record CodecDescriptor : Type 0 where
  pub schema : String
  pub schema_version : ℕ
  pub encoding : String

pub record EncodedValue : Type 0 where
  pub descriptor : CodecDescriptor
  pub bytes : List ℕ

pub record CheckpointRecordInterrupt : Type 0 where
  pub id : InterruptId
  pub node_path : NodePath
  pub payload : EncodedValue

pub record CheckpointRecordParts : Type 0 where
  pub format_version : ℕ
  pub checkpoint_id : CheckpointId
  pub thread_id : ThreadId
  pub run_id : RunId
  pub parent_id : Option CheckpointId
  pub graph_version : Option GraphVersion
  pub superstep : ℕ
  pub step : ℕ
  pub snapshot : EncodedValue
  pub next_frontier : List NodePath
  pub completed : Bool
  pub interrupt : Option CheckpointRecordInterrupt

-- A record has the fields of its parts, and is made by `try_from_parts` alone.
pub record CheckpointRecord : Type 0 where
  pub parts : CheckpointRecordParts
  pub open parts use *

pub data CheckpointRecordError : Type 0 where
  completed_with_frontier incomplete_without_frontier completed_interrupt : CheckpointRecordError
  invalid_interrupt_frontier : NodePath → CheckpointRecordError

-- The derived `PartialEq` implementations.
abbrev pub encoded_beq : EncodedValue → EncodedValue → Bool
encoded_beq a b =
    a.descriptor.schema == b.descriptor.schema
    && a.descriptor.schema_version == b.descriptor.schema_version
    && a.descriptor.encoding == b.descriptor.encoding
    && a.bytes == b.bytes

pub encoded_beq_iff : (a b : EncodedValue) → (encoded_beq a b ≡ true) ↔ (a ≡ b)
encoded_beq_iff a b = ground (
  arith,
  ==_iff a.descriptor.schema b.descriptor.schema,
  ==_iff a.descriptor.encoding b.descriptor.encoding,
  ==_iff a.bytes b.bytes,
)

instance abbrev pub encoded_eq : Eq EncodedValue
encoded_eq = record { equal = encoded_beq; equal_iff = encoded_beq_iff }

abbrev pub interrupt_beq : CheckpointRecordInterrupt → CheckpointRecordInterrupt → Bool
interrupt_beq a b = a.id == b.id && a.node_path == b.node_path && a.payload == b.payload

pub interrupt_beq_iff : (a b : CheckpointRecordInterrupt) → (interrupt_beq a b ≡ true) ↔ (a ≡ b)
interrupt_beq_iff a b =
    ground (arith, ==_iff a.node_path b.node_path, encoded_beq_iff a.payload b.payload)

instance abbrev pub interrupt_eq : Eq CheckpointRecordInterrupt
interrupt_eq = record { equal = interrupt_beq; equal_iff = interrupt_beq_iff }

-- The comparison of records, its first and its last six fields.
abbrev origin_beq : CheckpointRecordParts → CheckpointRecordParts → Bool
origin_beq a b =
    a.format_version == b.format_version
    && a.checkpoint_id == b.checkpoint_id
    && a.thread_id == b.thread_id
    && a.run_id == b.run_id
    && a.parent_id == b.parent_id
    && a.graph_version == b.graph_version

abbrev boundary_beq : CheckpointRecordParts → CheckpointRecordParts → Bool
boundary_beq a b =
    a.superstep == b.superstep
    && a.step == b.step
    && a.snapshot == b.snapshot
    && a.next_frontier == b.next_frontier
    && a.completed == b.completed
    && a.interrupt == b.interrupt

record Origin (a b : CheckpointRecordParts) : Type 0 where
  format_version : a.format_version ≡ b.format_version
  checkpoint_id : a.checkpoint_id ≡ b.checkpoint_id
  thread_id : a.thread_id ≡ b.thread_id
  run_id : a.run_id ≡ b.run_id
  parent_id : a.parent_id ≡ b.parent_id
  graph_version : a.graph_version ≡ b.graph_version

record Boundary (a b : CheckpointRecordParts) : Type 0 where
  superstep : a.superstep ≡ b.superstep
  step : a.step ≡ b.step
  snapshot : a.snapshot ≡ b.snapshot
  next_frontier : a.next_frontier ≡ b.next_frontier
  completed : a.completed ≡ b.completed
  interrupt : a.interrupt ≡ b.interrupt

origin_beq_iff : (a b : CheckpointRecordParts) → (origin_beq a b ≡ true) ↔ Origin a b
origin_beq_iff a b = ground (
  arith,
  ==_iff a.thread_id b.thread_id,
  ==_iff a.parent_id b.parent_id,
  ==_iff a.graph_version b.graph_version,
)

boundary_beq_iff : (a b : CheckpointRecordParts) → (boundary_beq a b ≡ true) ↔ Boundary a b
boundary_beq_iff a b = ground (
  arith,
  ==_iff a.snapshot b.snapshot,
  ==_iff a.next_frontier b.next_frontier,
  ==_iff a.completed b.completed,
  ==_iff a.interrupt b.interrupt,
)

unfoldable pub record_beq : CheckpointRecord → CheckpointRecord → Bool
record_beq a b = origin_beq a.parts b.parts && boundary_beq a.parts b.parts

pub record_beq_iff : (a b : CheckpointRecord) → (record_beq a b ≡ true) ↔ (a ≡ b)
unfolding record_beq
record_beq_iff a b =
    ground (arith, origin_beq_iff a.parts b.parts, boundary_beq_iff a.parts b.parts)

instance abbrev pub record_eq : Eq CheckpointRecord
record_eq = record { equal = record_beq; equal_iff = record_beq_iff }

unfoldable pub try_from_parts :
    CheckpointRecordParts → Result CheckpointRecord CheckpointRecordError
try_from_parts parts =
    if parts.completed && not (is_empty parts.next_frontier)
    then err completed_with_frontier
    else if not parts.completed && is_empty parts.next_frontier
    then err incomplete_without_frontier
    else if parts.completed && is_some parts.interrupt
    then err completed_interrupt
    else elim parts.interrupt [
      | none ↦ ok (record { parts = parts })
      | some interrupt ↦
          if not (nat_beq (length parts.next_frontier) 1)
            || not (head? parts.next_frontier == some interrupt.node_path)
          then err (invalid_interrupt_frontier interrupt.node_path)
          else ok (record { parts = parts })
    ]
