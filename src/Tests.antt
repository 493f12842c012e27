-- ===== src/Tests.antt =====
-- Test data and runs of the theorems on it.
mod Data
mod Health
mod Routing
mod Proxy
mod Stream
mod Settlement
mod Auth
mod Config
mod Usage
mod Service
mod SourceUrl
