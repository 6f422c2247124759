-- ===== src/Core/Runtime.antt =====
-- The execution of a compiled graph: crates/group-agent-core/src/runtime.rs.
pub mod Error
pub mod Event
pub mod Session
pub mod Control
pub mod Route
pub mod Save
pub mod Node
pub mod Execute
pub mod Resume
pub mod Invoke
pub mod Load
pub mod Recover
pub mod Frame
pub mod Writes
pub mod Bounds
pub mod Termination
pub mod Protocol
pub mod Invocation
pub mod Updates
pub mod Endless
pub mod Tests
