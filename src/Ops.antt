-- ===== src/Ops.antt =====
-- What the operations commands share: the tables they read and write, the checks of their input and
-- of the caller's roles, resource versions, the audit log and domain events
-- (apps/api/src/platform/operations-support.ts, packages/contracts and database/runtime/schema.ts).
pub mod Store
pub mod Samples
pub mod Access
pub mod Values
pub mod Versions
pub mod Events
