-- ===== src/Derp/Frame.antt =====
-- crates/ts-derp/src/frame.rs with the constants of magic.rs: one byte of type, four bytes of
-- big-endian length, the payload. `FrameReader` is in the child `Reader`.
pub mod Types
pub mod Reader
pub mod Helpers
pub mod Codec
pub mod Conserve
pub mod Reassembly
