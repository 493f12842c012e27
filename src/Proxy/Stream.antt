-- ===== src/Proxy/Stream.antt =====
-- The supervision of streams, src/proxy/stream.rs.
pub mod Termination
pub mod Tracker
pub mod Feed
pub mod Native
pub mod Relay
