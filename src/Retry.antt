-- ===== src/Retry.antt =====
-- The crate crates/altair-retry/src: retries of a failing operation with a backoff between them.
pub mod Error
pub mod Config
pub mod Loop
pub mod Attempts
pub mod Calls
mod Tests
