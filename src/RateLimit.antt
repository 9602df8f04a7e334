-- ===== src/RateLimit.antt =====
-- app/infra/security.py: the in-memory limiter, and the limiter on Redis with its
-- fallback. Times are whole microseconds, keys are only compared.
pub mod Memory
pub mod Fallback
mod Scenarios
