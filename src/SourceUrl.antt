-- ===== src/SourceUrl.antt =====
-- The policy on upstream addresses, src/source_url.rs.
pub mod Address
pub mod Policy
pub mod Allowlist
pub mod Redirect
