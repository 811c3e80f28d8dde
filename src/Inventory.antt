-- ===== src/Inventory.antt =====
-- Stock: reservations, transfers between warehouses, and what other operations use of them
-- (apps/api/src/modules/inventory, apps/api/src/modules/stocktakes/support.ts and
-- apps/api/src/modules/warehouses/support.ts).
pub mod Rows
pub mod Freeze
pub mod Scope
pub mod Stock
pub mod Steps
pub mod Reserve
pub mod Routes
pub mod Transfer
mod Tests
