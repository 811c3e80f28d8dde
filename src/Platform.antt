-- ===== src/Platform.antt =====
-- The platform of the API (apps/api/src/platform, apps/api/src/errors.ts and
-- apps/api/src/infrastructure/database.ts): failures, transactions and idempotent commands.
pub mod Failure
pub mod Tx
pub mod Keeps
pub mod Leads
pub mod Transaction
pub mod Statement
pub mod Header
pub mod Canonical
pub mod Journal
pub mod Idempotency
pub mod PublicError
pub mod Commands
