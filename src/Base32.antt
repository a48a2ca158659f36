-- ===== src/Base32.antt =====
-- crates/altair-base32/src: Crockford Base32 for bytes and for `u64`, and the check digit. A text
-- is the list of its code points, so that byte offsets can be counted.
pub mod Error
pub mod Bytes
pub mod U64
pub mod Check
pub mod Sample
mod Tests
