-- ===== src/Chan.antt =====
-- crates/vita-chan/src/lib.rs: bounded and unbounded channels.
pub mod State
pub mod Order
pub mod Waiting
mod WakeUps
mod Tests
