-- ===== src/Origination.antt =====
-- The origination service, services/origination/internal: the premium charge of an accepted risk,
-- the activation of its coverage and the renewal of a policy.
pub mod Charge
pub mod Activation
pub mod Billing
pub mod Ledger
pub mod Renewal
