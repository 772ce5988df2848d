-- ===== src/Workers.antt =====
-- Background work: server/src/envelock/workers/.
pub mod Jobs
pub mod Webhooks
mod Tests
