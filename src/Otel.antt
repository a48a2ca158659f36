-- ===== src/Otel.antt =====
-- crates/altair-otel/src: the configuration of telemetry, and its process-wide state.
pub mod Config
pub mod Init
pub mod Twice
mod Tests
