-- ===== src/Claims/Triage.antt =====
-- The priority of a claim, services/claims/internal/domain/triage.go and triage_policy.go.
pub mod Levels
pub mod Records
pub mod Store
pub mod Service
pub mod Histories
pub mod Tasks
pub mod Waiting
mod Tests
mod Data
mod Policy
unfoldable pub use Data.*
unfoldable pub use Policy.*
