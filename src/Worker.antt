-- ===== src/Worker.antt =====
-- The background worker (apps/worker/src/server.ts): the outbox messages it leases, what it does with
-- each, and the worker processes that share one database.
pub mod Job
pub mod Rows
pub mod Lease
pub mod Fence
pub mod Payload
pub mod Providers
pub mod Dispatch
pub mod Reminder
pub mod Process
pub mod System
pub mod Samples
mod Tests
pub mod Life
