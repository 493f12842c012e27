-- ===== src/Health.antt =====
-- Account health, the gateway's circuit breaker (src/infra/health.rs, src/infra/db/health.rs).
pub mod Types
pub mod Backoff
pub mod Breaker
pub mod View
pub mod Database
pub mod Registry
