-- ===== src/Server.antt =====
-- crates/altair-server/src: the builder of servers, its middleware, and the run of a server.
pub mod Error
pub mod Builder
pub mod Layers
pub mod Shutdown
mod Tests
