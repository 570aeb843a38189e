-- ===== src/RateLimit.antt =====
-- Rate limiting: crates/summer-common/src/rate_limit.
pub mod Config
pub mod Decision
pub mod Keys
pub mod Algorithms
pub mod Platform
pub mod Scripts
pub mod Engine
pub mod Context
mod Sample
mod Tests
