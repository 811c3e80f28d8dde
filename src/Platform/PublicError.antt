-- ===== src/Platform/PublicError.antt =====
-- What an error shows to the client (apps/api/src/errors.ts). `details` is not set by the modelled code,
-- and is left out.
use topology_supply_chain.Common.{ℕ, String, leb, ◌==◌, if◌then◌else◌}
use topology_supply_chain.Platform.Failure.{PlatformErrorCode, Failure, platform, database}

-- The code of an answer: one of the errors thrown, or one that only the status gives.
pub data PublicCode : Type 0 where
  thrown : PlatformErrorCode → PublicCode
  by_name : String → PublicCode

pub record Descriptor : Type 0 where
  pub code : String
  pub message : String

-- publicErrorsByStatus, and what a status outside of it gives.
unfoldable pub public_error : ℕ → Descriptor
public_error status =
    if status == 400
    then record { code = "BAD_REQUEST"; message = "Bad Request" }
    else if status == 401
    then record { code = "UNAUTHORIZED"; message = "Unauthorized" }
    else if status == 403
    then record { code = "FORBIDDEN"; message = "Forbidden" }
    else if status == 404
    then record { code = "NOT_FOUND"; message = "Route not found" }
    else if status == 405
    then record { code = "METHOD_NOT_ALLOWED"; message = "Method Not Allowed" }
    else if status == 409
    then record { code = "CONFLICT"; message = "Conflict" }
    else if status == 429
    then record { code = "TOO_MANY_REQUESTS"; message = "Too Many Requests" }
    else record { code = "REQUEST_FAILED"; message = "Request Failed" }

-- resolvePublicError
unfoldable pub resolve_public_error : ℕ → Descriptor
unfolding public_error
resolve_public_error status =
    if leb 500 status
    then record { code = "INTERNAL_SERVER_ERROR"; message = "Internal Server Error" }
    else public_error status

pub record ApiErrorResponse : Type 0 where
  pub code : PublicCode
  pub message : String
  pub request_id : String

-- createApiErrorResponse
unfoldable pub create_api_error_response : ℕ → (request_id : String) → ApiErrorResponse
unfolding resolve_public_error
create_api_error_response status request_id =
    let error = resolve_public_error status in
    record { code = by_name error.code; message = error.message; request_id = request_id }

-- createErrorResponse
unfoldable pub create_error_response :
    Failure → (status : ℕ) → (request_id : String) → ApiErrorResponse
unfolding create_api_error_response
create_error_response (platform e) status request_id = record {
  code = thrown e.code;
  message = e.message;
  request_id = request_id;
}
create_error_response (database code) status request_id =
    create_api_error_response status request_id
