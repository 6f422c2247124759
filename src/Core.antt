-- ===== src/Core.antt =====
-- crates/group-agent-core: paths, checkpoint records and their store, graphs and their execution.
pub mod Path
pub mod Record
pub mod Store
pub mod Transition
pub mod Graph
pub mod Checkpoint
pub mod Runtime
