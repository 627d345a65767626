-- ===== src/Wg/Engine.antt =====
-- wg-engine/src/lib.rs: the `Engine` and the calls of the control plane on it.
pub mod State
pub mod Coherence
pub mod Upsert
pub mod Delivery
