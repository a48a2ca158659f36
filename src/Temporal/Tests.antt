-- ===== src/Temporal/Tests.antt =====
-- Runs of the functions of crates/altair-temporal/src, and the theorems at concrete inputs.
mod Schedules
mod Sdk
mod Ids
