-- ===== src/Compress.antt =====
-- The crate crates/altair-compress/src: archives that are unpacked with checked paths and a cap.
pub mod SafePath
pub mod Files
pub mod Extract
pub mod Inside
pub mod Frame
pub mod Bytes
mod Tests
