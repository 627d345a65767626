-- ===== src/Derp.antt =====
-- crates/ts-derp: the relay protocol's frames. The connection threads, TLS and the handshake's
-- NaCl box are not modelled.
pub mod Error
pub mod Frame
mod Tests
