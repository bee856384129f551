-- ===== src/Wire.antt =====
-- The wire protocol of crates/kaigi-wire/src/lib.rs: the frames and their length-prefixed codec.
pub mod Frames
pub mod Codec
