-- ===== src/Billing.antt =====
-- Plans, prices and what they entitle to: server/src/envelock/billing.
pub mod Pricing
pub mod Entitlement
pub mod Features
pub mod Trial
mod Tests
