-- ===== src/Notify.antt =====
-- The notification ladder: server/src/envelock/notify/ladder.py.
pub mod Ladder
pub mod Delivery
pub mod Dispatch
pub mod Cycle
mod Tests
mod DeliveryTests
