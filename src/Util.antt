-- ===== src/Util.antt =====
-- crates/pulsate-util: units and the buffer pool.
pub mod Units
pub mod Bounds
mod BufferPool
mod Tests
