-- ===== src/Detections.antt =====
-- The detection framework and the model gate behind it.
pub mod Registry
pub mod Attachments
mod Tests
