-- ===== src/Temporal.antt =====
-- crates/altair-temporal/src: retry policies, workflow ids, schedules, the client and the worker.
pub mod Error
pub mod Retry
pub mod WorkflowId
pub mod Schedule
pub mod Config
pub mod Client
pub mod Worker
pub mod Activity
mod Tests
