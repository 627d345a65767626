-- ===== src/Wg.antt =====
-- crates/wg-engine: the peers of the WireGuard engine, the indices over them, the inbound policy
-- and the packet pump.
pub mod Peer
pub mod Cidr
pub mod Policy
pub mod Indices
pub mod Engine
pub mod Pump
mod Tests
