-- ===== src/Db.antt =====
-- crates/altair-db/src: the configuration, its mapping to options, and the handle.
pub mod Config
pub mod Handle
pub mod Scheme
pub mod Migrations
mod Tests
