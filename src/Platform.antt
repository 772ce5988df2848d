-- ===== src/Platform.antt =====
-- The alerts of a tenant: server/src/envelock/platform/.
pub mod Alerts
pub mod Graph
mod Tests
