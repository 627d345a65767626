-- ===== src/Control/Noise.antt =====
-- ts-control/src/record.rs and noise.rs: records in transport mode.
pub mod Stream
pub mod Writing
pub mod Reading
pub mod Draining
mod Taking
mod Trip
mod Tests
