-- ===== src/Core/Record/Codec.antt =====
-- The errors of encoding a value and of encoding a record, of
-- crates/group-agent-core/src/checkpoint_codec.rs. The boxed cause of a failure is left out.
use group.Prelude.{String}

pub data CheckpointCodecError : Type 0 where
  unsupported_interrupt_payload failed : String → CheckpointCodecError

pub data CheckpointEncodingError : Type 0 where
  snapshot interrupt : CheckpointCodecError → CheckpointEncodingError
