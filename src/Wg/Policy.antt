-- ===== src/Wg/Policy.antt =====
-- wg-engine/src/policy.rs: the inbound packet policy of the control plane.
pub mod Rules
pub mod Meaning
