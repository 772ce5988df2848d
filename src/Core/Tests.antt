-- ===== src/Core/Tests.antt =====
-- The properties of the protection levels at concrete inputs.
