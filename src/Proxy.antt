-- ===== src/Proxy.antt =====
-- src/proxy: the attempts of a request, the candidates and the two policies.
pub mod Transport
pub mod Environment
pub mod Json
pub mod Usage
pub mod Stream
pub mod Settlement
pub mod Attribution
pub mod Service
pub mod Policy
pub mod Fallback
pub mod Attempt
pub mod Completion
pub mod Accounting
pub mod Ordered
pub mod Weighted
