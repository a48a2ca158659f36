-- ===== src/Concurrent.antt =====
-- The crate crates/altair-concurrent/src: named tasks that run concurrently on tokio.
pub mod Runtime
pub mod TaskMap
pub mod Executor
pub mod Ordered
pub mod Pick
pub mod Accounts
pub mod Turns
pub mod Partial
pub mod FailFast
mod Tests
