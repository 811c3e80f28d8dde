-- ===== src/Platform/Commands.antt =====
-- The two entry points of idempotent commands: executeCommand of apps/api/src/platform/commands.ts with
-- its table of writer resources, and executeOperationsCommand of
-- apps/api/src/platform/operations-command.ts. The request checks and the authentication are given by
-- their outcomes; how a number is printed is an argument.
pub mod Laws
use topology_supply_chain.Common.{
  ℕ, ◌++◌, Bool, true, false, not, ◌||◌, Option, none, some, List, [], ◌∷◌, String, if◌then◌else◌,
}
use topology_supply_chain.Common.Int.{ℤ, pos, pos_part, leb_ℤ}
use topology_supply_chain.Platform.Failure.{Failure, platform_error, internal_server_error}
use topology_supply_chain.Platform.Tx.{Outcome, ok, fail, Tx}
use topology_supply_chain.Platform.Transaction.{Network}
use topology_supply_chain.Platform.Header.{Text, Header}
use topology_supply_chain.Platform.Canonical.{Json, keyword}
use topology_supply_chain.Platform.Journal.{Journal}
use topology_supply_chain.Platform.Idempotency.{Codec, Options, ResponseStatus, Response, execute}
use topology_supply_chain.Ops.Access.{AccessContext}

-- PlatformCommandName
pub data CommandName : Type 0 where
  auth_login auth_logout auth_verify step_up_request step_up_verify : CommandName
  files_upload notifications_mark_read : CommandName
  users_create users_reset_password users_disable users_restore : CommandName
  users_assign_role users_revoke_role users_unlock : CommandName

-- COMMAND_WRITER_RESOURCES
unfoldable pub writer_resource : CommandName → String
writer_resource files_upload = "files.commands"
writer_resource notifications_mark_read = "notifications.commands"
writer_resource auth_login = "auth.commands"
writer_resource auth_logout = "auth.commands"
writer_resource auth_verify = "auth.commands"
writer_resource step_up_request = "auth.commands"
writer_resource step_up_verify = "auth.commands"
writer_resource _ = "users.commands"

-- executeCommand: the resource comes from the table, and the two switches are off.
unfoldable pub execute_command :
    {S R : Type 0}
    → Codec R
    → CommandName
    → Options S R
    → Network
    → Journal S
    → Outcome (Response R) × Journal S
unfolding writer_resource
execute_command codec name o net j =
    execute codec
      (record o {
        fence_resource = keyword (writer_resource name);
        missing_key_is_invalid = false;
        validate_response_status = false;
        verify_only_string = false;
      })
      net j

-- What authentication gives: an AccessContext, whose user may still be none.
pub record Session : Type 0 where
  pub local_preview : Bool
  pub session_id : Option ℤ
  pub user_id : ℤ
  pub roles : List String
  pub factory_id : Option ℕ
  pub supplier_id : Option ℕ

-- The same, where actorScope has found the user's id to be positive.
abbrev pub access_of : Session → AccessContext
access_of session = record {
  user_id = pos_part session.user_id;
  roles = session.roles;
  factory_id = session.factory_id;
  supplier_id = session.supplier_id;
}

no_session : Option ℤ → Bool
no_session none = true
no_session (some id) = false

-- actorScope
unfoldable pub actor_scope : (decimal : ℕ → Text) → Session → Outcome Text
unfolding no_session
actor_scope decimal session =
    if session.local_preview || (no_session session.session_id || leb_ℤ session.user_id (pos 0))
    then fail (platform_error 503 internal_server_error "Write authentication unavailable")
    else ok (keyword "user:" ++ decimal (pos_part session.user_id))

-- The checks of a request, in the order of the source.
pub record RequestChecks : Type 0 where
  pub same_origin : Outcome (Unit {0})
  pub csrf : Outcome (Unit {0})
  pub has_database : Bool
  pub authenticated : Outcome Session

with_scope : (decimal : ℕ → Text) → Session → Outcome (Text × Session)
unfolding actor_scope
with_scope decimal session = elim (actor_scope decimal session) [
  | fail e ↦ fail e
  | ok scope ↦ ok (scope, session)
]

-- The caller's scope and session, where the request passes its checks.
unfoldable pub request_scope : (decimal : ℕ → Text) → RequestChecks → Outcome (Text × Session)
unfolding with_scope
request_scope decimal checks = elim checks.same_origin [
  | fail e ↦ fail e
  | ok _ ↦ elim checks.csrf [
    | fail e ↦ fail e
    | ok _ ↦
        if not checks.has_database
        then fail (platform_error 503 internal_server_error "Database unavailable")
        else elim checks.authenticated [ fail e ↦ fail e | ok session ↦ with_scope decimal session ]
  ]
]

-- OperationsCommandOptions: `fence_resource` is the command's entry in OPERATIONS_COMMAND_RESOURCES, the two headers are those of
-- the request, and `run` reads the access of the caller.
pub record Operation (S R : Type 0) : Type 0 where
  pub command : Text
  pub fence_resource : Text
  pub payload : Json
  pub key_header : Header
  pub digest_header : Header
  pub response_status : ResponseStatus R
  pub run : AccessContext → Tx S R

-- The options of executeIdempotentCommand.
unfoldable pub as_options : {S R : Type 0} → Operation S R → (scope : Text) → Session → Options S R
as_options o scope session = record {
  actor_scope = scope;
  command = o.command;
  fence_resource = o.fence_resource;
  missing_key_is_invalid = false;
  payload = o.payload;
  key_header = o.key_header;
  digest_header = o.digest_header;
  response_status = o.response_status;
  validate_response_status = false;
  verify_only_string = true;
  run = λ key digest. o.run (access_of session);
}

unfoldable pub run_as :
    {S R : Type 0}
    → Codec R
    → Operation S R
    → Outcome (Text × Session)
    → Network
    → Journal S
    → Outcome (Response R) × Journal S
unfolding as_options
run_as codec o (fail e) net j = (fail e, j)
run_as codec o (ok (scope, session)) net j = execute codec (as_options o scope session) net j

-- executeOperationsCommand
unfoldable pub execute_operations_command :
    {S R : Type 0}
    → (decimal : ℕ → Text) → Codec R
    → RequestChecks
    → Operation S R
    → Network
    → Journal S
    → Outcome (Response R) × Journal S
unfolding request_scope run_as
execute_operations_command decimal codec checks o net j =
    run_as codec o (request_scope decimal checks) net j
