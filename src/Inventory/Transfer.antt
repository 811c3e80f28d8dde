-- ===== src/Inventory/Transfer.antt =====
-- Transfers between warehouses (requestTransfer and transitionTransfer of
-- apps/api/src/modules/inventory/writes.ts). The columns that only tell when something happened
-- (shipped_at, received_at) are left out, and so are the JSON payloads.
pub mod Request
pub mod Move
pub mod Transition
pub mod Plan
pub mod Conservation
pub mod Laws
pub mod Outcome
