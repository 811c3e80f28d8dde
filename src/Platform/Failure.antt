-- ===== src/Platform/Failure.antt =====
-- What a request can fail with: apps/api/src/errors.ts, the codes of packages/contracts/src/errors.ts
-- and the errors of the database client (apps/api/src/infrastructure/database.ts).
use topology_supply_chain.Common.{ℕ, String}

-- PlatformErrorCode. Those that no modelled code throws are left out.
pub data PlatformErrorCode : Type 0 where
  bad_request forbidden not_found conflict_code : PlatformErrorCode
  idempotency_key_reused command_in_progress command_outcome_unknown : PlatformErrorCode
  version_conflict writer_fence_rejected internal_server_error : PlatformErrorCode

-- An error with its HTTP status. `details` is not set by the modelled code.
pub record PlatformError : Type 0 where
  pub status_code : ℕ
  pub code : PlatformErrorCode
  pub message : String

pub data DatabaseErrorCode : Type 0 where
  client_closed operation_aborted operation_failed operation_timed_out : DatabaseErrorCode
  transaction_outcome_unknown : DatabaseErrorCode

-- What a handler throws: a `PlatformError` or a `DatabaseClientError`.
pub data Failure : Type 0 where
  platform : PlatformError → Failure
  database : DatabaseErrorCode → Failure

abbrev pub platform_error : ℕ → PlatformErrorCode → String → Failure
platform_error status code message =
    platform (record { status_code = status; code = code; message = message })

abbrev pub bad : String → Failure
bad message = platform_error 400 bad_request message

abbrev pub forbid : String → Failure
forbid message = platform_error 403 forbidden message

abbrev pub missing : String → Failure
missing message = platform_error 404 not_found message

abbrev pub conflict : String → Failure
conflict message = platform_error 409 conflict_code message

abbrev pub stale : String → Failure
stale message = platform_error 409 version_conflict message
