-- ===== src/Rest.antt =====
-- crates/altair-rest/src: the builder of clients, the client and its JSON helpers.
pub mod Http
pub mod Client
pub mod Decoded
mod Tests
