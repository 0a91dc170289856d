-- ===== src/Waf.antt =====
-- crates/pulsate-waf: the controls of the web application firewall.
mod Audit
mod Tampering
mod Chain
pub mod RateLimiter
pub mod Cidr
pub mod Acl
mod Ranges
pub mod Access
pub mod Engine
pub mod Evasion
mod Tests
