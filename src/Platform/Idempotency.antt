-- ===== src/Platform/Idempotency.antt =====
-- Idempotent commands (executeIdempotentCommand of apps/api/src/platform/commands.ts). The tables
-- writer_fences and command_idempotency stand beside the business state `S`, which only the command's
-- own `run` reads and writes. JSON.stringify and JSON.parse of a result, JSON.stringify of a text and
-- the hash function are the parameter `Codec`.
pub mod Rows
pub mod Replay
pub mod AtMostOnce
pub mod AnyBody
pub mod First
pub mod Invariants
mod Tests
use topology_supply_chain.Common.{
  ℕ, Bool, true, false, not, ◌&&◌, ◌||◌, Option, none, some, ◌∷◌, ltb, ◌==◌, if◌then◌else◌,
}
use topology_supply_chain.Platform.Failure.{
  Failure, database, transaction_outcome_unknown, platform_error, idempotency_key_reused,
  command_in_progress, command_outcome_unknown, writer_fence_rejected, internal_server_error,
}
use topology_supply_chain.Platform.Tx.{
  Outcome, ok, fail, Tx, pure, throw, gets, or_throw, lift, ◌>>=◌, ◌>>◌, throw_if,
}
use topology_supply_chain.Platform.Transaction.{Network, transaction}
use topology_supply_chain.Platform.Header.{
  Text, Header, text_eq, command_idempotency_key, verify_client_digest,
}
use topology_supply_chain.Platform.Canonical.{Json, canonical_request_digest}
use topology_supply_chain.Platform.Journal.{
  Journal, CommandId, CommandRow, pending, completed, unknown, find_command, complete_command,
  fence_open,
}

abbrev fence_rejected : Failure
fence_rejected = platform_error 503 writer_fence_rejected "Write owner is not active"

abbrev outcome_unknown : ℕ → Failure
outcome_unknown status =
    platform_error status command_outcome_unknown "Command outcome requires reconciliation"

-- What the platform and the language supply: JSON.stringify and JSON.parse (with the check that the
-- value is an object) of a result, JSON.stringify of a text, and SHA-256 in hexadecimal.
pub record Codec (R : Type 0) : Type 0 where
  pub stringify : R → Text
  pub parse : Text → Option R
  pub quote : Text → Text
  pub sha256 : Text → Text

-- `responseStatus`: left out, a number, or a function of the result.
pub data ResponseStatus (R : Type 0) : Type 0 where
  default : ResponseStatus R
  fixed : ℕ → ResponseStatus R
  computed : (R → ℕ) → ResponseStatus R

pub record Options (S R : Type 0) : Type 0 where
  pub actor_scope : Text
  pub command : Text
  pub fence_resource : Text
  pub missing_key_is_invalid : Bool
  pub payload : Json
  pub key_header : Header
  pub digest_header : Header
  pub response_status : ResponseStatus R
  pub validate_response_status : Bool
  pub verify_only_string : Bool
  pub run : (idempotency_key : Text) → (request_digest : Text) → Tx S R

pub record Reply (R : Type 0) : Type 0 where
  pub replayed : Bool
  pub result : R
  pub status_code : ℕ

-- The HTTP status and the body of a command's response.
pub record Response (R : Type 0) : Type 0 where
  pub idempotency_key : Text
  pub request_digest : Text
  pub reply : Reply R

abbrev status_or : Option ℕ → ℕ → ℕ
status_or none d = d
status_or (some n) d = n

-- The `catch` clause.
pub report : Failure → Failure
report (database transaction_outcome_unknown) =
    platform_error 503 command_outcome_unknown
      "Command outcome is unknown; retry only with the same idempotency key"
report e = e

abbrev pub new_row : CommandId → Text → CommandRow
new_row id digest = record {
  id = id;
  request_digest = digest;
  status = pending;
  response_status = none;
  response_json = none;
}

-- INSERT IGNORE: the number of rows affected.
pub insert_ignore : {S : Type 0} → CommandId → Text → Tx (Journal S) ℕ
unfolding find_command
insert_ignore id digest j = elim (find_command id j.commands) [
  | some row ↦ ok (0, j)
  | none ↦ ok (1, record j { commands = new_row id digest ∷ j.commands })
]

module _ {R : Type 0} where
  configured_status : ResponseStatus R → R → ℕ
  configured_status default result = 200
  configured_status (fixed status) result = status
  configured_status (computed f) result = f result

  -- resolvedResponseStatus
  pub resolved_response_status : ResponseStatus R → R → Bool → Outcome ℕ
  unfolding configured_status
  resolved_response_status configured result validate =
      let status = configured_status configured result in
      if validate && (ltb status 200 || ltb 299 status)
      then fail (platform_error 503 internal_server_error "Invalid command response status")
      else ok status

  abbrev default_status : ResponseStatus R → ℕ
  default_status (fixed status) = status
  default_status _ = 200

  abbrev parsed_or_unknown : Option R → Outcome R
  parsed_or_unknown none = fail (outcome_unknown 503)
  parsed_or_unknown (some r) = ok r

  -- parseReplay
  pub parse_replay : Codec R → CommandRow → Outcome R
  parse_replay codec row = elim row.response_json [
    | none ↦ fail (outcome_unknown 409)
    | some json ↦ elim row.response_status [
      | none ↦ fail (outcome_unknown 409)
      | some status ↦ parsed_or_unknown (codec.parse json)
    ]
  ]

-- The `try` statement's result: the response, or the error of the `catch` clause.
pub answer :
    {S R : Type 0} (key digest : Text)
    → Outcome (Reply R) × Journal S
    → Outcome (Response R) × Journal S
unfolding report
answer key digest (ok reply, j) =
    (ok (record { idempotency_key = key; request_digest = digest; reply = reply }), j)
answer key digest (fail e, j) = (fail (report e), j)

module _ {S R : Type 0} (codec : Codec R) (o : Options S R) where
  -- A row was there already: replay a completed command, refuse any other.
  pub replay : CommandRow → Tx (Journal S) (Reply R)
  unfolding parse_replay
  replay row = elim row.status [
    | completed ↦ lift (parse_replay codec row) >>= λ result. pure (record {
      replayed = true;
      result = result;
      status_code = status_or row.response_status (default_status o.response_status);
    })
    | unknown ↦ throw (outcome_unknown 409)
    | pending ↦ throw (platform_error 409 command_in_progress "Command is already in progress")
  ]

  -- `options.run`, on the business state.
  pub run_business : Text → Text → Tx (Journal S) R
  run_business key digest j = elim (o.run key digest j.business) [
    | ok (r, s) ↦ ok (r, record j { business = s })
    | fail e ↦ fail e
  ]

  pub mark_completed : CommandId → Text → ℕ → R → Tx (Journal S) (Unit {0})
  unfolding complete_command
  mark_completed id digest status result j =
      let (rows, affected) =
        complete_command id digest status (codec.stringify result) j.commands in
      if affected == 1 then ok (tt, record j { commands = rows }) else fail (outcome_unknown 409)

  -- The command is new: run it and store its result.
  pub run_first : CommandId → Text → Tx (Journal S) (Reply R)
  unfolding run_business mark_completed resolved_response_status
  run_first id digest = do
    result ← run_business id.idempotency_key digest
    status ← lift (resolved_response_status o.response_status result o.validate_response_status)
    mark_completed id digest status result
    pure (record { replayed = false; result = result; status_code = status })

  -- The callback of the unit of work.
  pub command_body : CommandId → Text → Tx (Journal S) (Reply R)
  unfolding insert_ignore replay run_first fence_open
  command_body id digest = do
    fences ← gets (λ j. j.fences)
    throw_if (not (fence_open o.fence_resource fences)) fence_rejected
    inserted ← insert_ignore id digest
    found ← gets (λ j. find_command id j.commands)
    row ← or_throw found (outcome_unknown 503)
    throw_if (not (text_eq row.request_digest digest))
        (platform_error 409 idempotency_key_reused "Idempotency key was used for another request")
    if inserted == 0 then replay row else run_first id digest

  abbrev pub command_id : Text → CommandId
  command_id key = record {
    command_name = o.command;
    actor_scope = o.actor_scope;
    idempotency_key = key;
  }

  pub in_transaction : Network → Text → Text → Journal S → Outcome (Response R) × Journal S
  unfolding answer
  in_transaction net key digest j =
      answer key digest (transaction net (command_body (command_id key) digest) j)

  -- The checks before the transaction: the idempotency key, the request's digest, and the digest that
  -- the client supplied.
  pub prepare : Outcome (Text × Text)
  unfolding canonical_request_digest command_idempotency_key verify_client_digest
  prepare = elim (command_idempotency_key o.key_header o.missing_key_is_invalid) [
    | fail e ↦ fail e
    | ok key ↦ elim (canonical_request_digest codec.quote codec.sha256 o.command o.payload) [
      | fail e ↦ fail e
      | ok digest ↦ elim (verify_client_digest o.digest_header digest o.verify_only_string) [
        | fail e ↦ fail e
        | ok _ ↦ ok (key, digest)
      ]
    ]
  ]

  -- A failed check ends the request before the transaction.
  pub start : Outcome (Text × Text) → Network → Journal S → Outcome (Response R) × Journal S
  start (fail e) net j = (fail e, j)
  start (ok (key, digest)) net j = in_transaction net key digest j

  -- executeIdempotentCommand
  pub execute : Network → Journal S → Outcome (Response R) × Journal S
  unfolding start
  execute = start prepare
