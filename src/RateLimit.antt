-- ===== src/RateLimit.antt =====
-- plugins/ratelimiter.
pub mod Store
pub mod Middleware
pub mod Transport
