-- ===== src/Domain.antt =====
-- The configuration model and the route resolution of src/domain.
pub mod Protocol
pub mod Config
pub mod Capability
pub mod Intersection
pub mod Routing
