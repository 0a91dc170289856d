-- ===== src/Cache.antt =====
-- crates/pulsate-cache: the response cache.
mod Store
pub mod Policy
mod Layer
mod Eviction
mod Accounting
mod Limits
mod Key
mod Serving
mod Removal
mod Tests
