-- ===== src/Wf.antt =====
-- The crate crates/altair-wf: workflow patterns over an activity runner that the caller supplies.
pub mod Error
pub mod Task
pub mod Futures
pub mod Types
pub mod Params
pub mod Template
pub mod Defaults
pub mod Patterns
pub mod Chunk
pub mod Dag
pub mod Datasync
pub mod Function
mod Tests
