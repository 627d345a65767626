-- ===== src/Control.antt =====
-- ts-control/src: the network map that control sends, and the records that carry it.
pub mod Wire
pub mod Parse
pub mod NetMap
pub mod Noise
pub mod Url
mod Tests
