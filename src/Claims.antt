-- ===== src/Claims.antt =====
-- The claims service, services/claims.
pub mod Catalog
pub mod Coverage
pub mod Case
pub mod Filing
pub mod Cases
pub mod Triage
pub mod Decision
