-- ===== src/Wg/Pump.antt =====
-- wg-engine/src/pump.rs: the packet pump.
pub mod Meta
pub mod Tunn
pub mod Inbound
pub mod Outbound
pub mod Admission
pub mod Flow
pub mod Growth
pub mod Fallback
pub mod Delivered
pub mod Sending
