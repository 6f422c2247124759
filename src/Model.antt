-- ===== src/Model.antt =====
-- crates/group-agent-model: extension data, token accounting and the stream
-- collector.
pub mod Extensions
pub mod Usage
pub mod Stream
pub mod Tests
