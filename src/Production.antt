-- ===== src/Production.antt =====
-- Production orders (apps/api/src/modules/production-orders/writes.ts).
pub mod Reserved
