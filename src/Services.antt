-- ===== src/Services.antt =====
-- What the endpoints and the workers share: server/src/envelock/services/.
pub mod Suppliers
