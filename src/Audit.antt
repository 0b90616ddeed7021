-- ===== src/Audit.antt =====
-- The audit service, services/audit/internal.
pub mod Compliance
