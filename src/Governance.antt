-- ===== src/Governance.antt =====
-- What leaves the platform: server/src/envelock/governance/.
pub mod Export
pub mod Retention
mod Tests
