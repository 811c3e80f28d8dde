-- ===== src/Platform/Idempotency/Tests.antt =====
-- Runs of an idempotent command, and the theorems at concrete journals. The business state is a
-- counter; the command adds 5 to it and answers with a text.
use topology_supply_chain.Common.{
  ℕ, ◌+◌, ◌≡◌, ◌≢◌, refl, Bool, true, false, none, some, List, String, [], ◌∷◌, length, ◌⊎◌,
}
use topology_supply_chain.Platform.Tx.{ok, fail, Tx, ◌>>◌}
use topology_supply_chain.Ops.Access.{has_role, require_role}
use topology_supply_chain.Platform.Header.{Text, Header}
use topology_supply_chain.Platform.Canonical.{Json}
use topology_supply_chain.Platform.Transaction.{Network, CommitRace, transaction}
use topology_supply_chain.Platform.Transaction.Atomic.{Atomic, transaction-Atomic, calm}
use topology_supply_chain.Platform.Journal.{
  Journal, Fence, writer_owner, fence_open, find_command, same_id, completes,
}
use topology_supply_chain.Platform.Idempotency.{
  Codec, Options, ResponseStatus, Response, execute, prepare, command_id, in_transaction,
  command_body, run_first, answer, start, resolved_response_status,
}
use topology_supply_chain.Platform.Idempotency.AtMostOnce.{
  as_reply, reused, execute_again, retry_after_loss, key_reuse_refused,
}
use topology_supply_chain.Common.Int.{ℤ, pos}
use topology_supply_chain.Platform.Commands.{
  Session, RequestChecks, Operation, as_options, request_scope, execute_operations_command,
}
use topology_supply_chain.Platform.Commands.Laws.{retry_in_new_session}
use topology_supply_chain.Platform.Idempotency.First.{completed_row, execute_first, execute_closed}

abbrev codec : Codec Text
codec = record {
  stringify = λ t. t;
  parse = λ t. some t;
  quote = λ t. b'"' ∷ t;
  sha256 = λ t. length t ∷ [];
}

round_trip : (t : Text) → codec.parse (codec.stringify t) ≡ some t
round_trip t = refl

abbrev key : Text
key =
    b'o' ∷ b'r' ∷ b'd' ∷ b'e' ∷ b'r' ∷ b'-' ∷ b'2' ∷ b'0' ∷ b'2' ∷ b'6' ∷ b'-' ∷ b'0' ∷ b'0' ∷ b'0'
    ∷ b'0' ∷ b'1' ∷ []

abbrev resource : Text
resource = b'r' ∷ []

abbrev add_five : Text → Text → Tx ℕ Text
add_five k digest n = ok (b'!' ∷ [], n + 5)

abbrev options : Json → Options ℕ Text
options payload = record {
  actor_scope = b'u' ∷ [];
  command = b'c' ∷ [];
  fence_resource = resource;
  missing_key_is_invalid = false;
  payload = payload;
  key_header = Header.single key;
  digest_header = Header.absent;
  response_status = ResponseStatus.fixed 201;
  validate_response_status = true;
  verify_only_string = true;
  run = add_five;
}

abbrev fence : Bool → Fence
fence enabled = record {
  resource = resource;
  owner = writer_owner;
  enabled = enabled;
  generation = 2;
}

abbrev before_command : Bool → Journal ℕ
before_command enabled = record { fences = fence enabled ∷ []; commands = []; business = 10 }

abbrev o : Options ℕ Text
o = options Json.null

abbrev digest : Text
digest = 27 ∷ []

abbrev response : Response Text
response = record {
  idempotency_key = key;
  request_digest = digest;
  reply = record { replayed = false; result = b'!' ∷ []; status_code = 201 };
}

abbrev after_command : Journal ℕ
after_command = record (before_command true) {
  commands = completed_row (command_id codec o key) digest 201 (b'!' ∷ []) ∷ [];
  business = 15;
}

runs : execute codec o calm (before_command true) ≡ (ok response, after_command)
unfolding execute in_transaction transaction command_body run_first answer prepare start same_id
    completes
runs = refl

execute_first_example : execute codec o calm (before_command true) ≡ (ok response, after_command)
unfolding prepare fence_open find_command resolved_response_status
execute_first_example =
    execute_first codec o key digest (before_command true) (b'!' ∷ []) 15 201 refl refl refl refl
      refl

execute_closed_example :
    ((execute codec o calm (before_command false)).1 ≡ before_command false)
    × ((r : Response Text) → (execute codec o calm (before_command false)).0 ≢ ok r)
unfolding fence_open
execute_closed_example = execute_closed codec o calm (before_command false) refl

execute_again_example :
    execute codec o calm after_command ≡ (ok (as_reply true response), after_command)
execute_again_example =
    execute_again codec o round_trip calm (before_command true) after_command response runs

-- A network that loses the acknowledgement of a commit that took effect.
abbrev lossy : Network
lossy = record calm { committing = CommitRace.lost true }

retry_after_loss_example :
    (replayed : Bool) × (execute codec o calm (execute codec o lossy (before_command true)).1
      ≡ (ok (as_reply replayed response), after_command))
retry_after_loss_example =
    retry_after_loss codec o round_trip lossy (before_command true) after_command response runs

key_reuse_refused_example :
    execute codec (options (Json.bool false)) calm after_command ≡ (fail reused, after_command)
unfolding prepare
key_reuse_refused_example =
    key_reuse_refused codec o round_trip (options (Json.bool false)) calm (before_command true)
      after_command response (28 ∷ []) runs refl refl refl refl refl

transaction-Atomic_example : Atomic (add_five [] []) 10 (transaction lossy (add_five [] []) 10)
transaction-Atomic_example = transaction-Atomic lossy (add_five [] []) 10

-- A user's two sessions, before and after an admin took a role away, and their requests.
abbrev session : ℤ → List String → Session
session n roles = record {
  local_preview = false;
  session_id = some n;
  user_id = pos 2;
  roles = roles;
  factory_id = none;
  supplier_id = none;
}

abbrev before_change : Session
before_change = session (pos 7) ("admin" ∷ [])

abbrev after_change : Session
after_change = session (pos 8) []

abbrev checks : Session → RequestChecks
checks s = record { same_origin = ok tt; csrf = ok tt; has_database = true; authenticated = ok s }

abbrev decimal : ℕ → Text
decimal n = (48 + n) ∷ []

abbrev scope : Text
scope = b'u' ∷ b's' ∷ b'e' ∷ b'r' ∷ b':' ∷ 50 ∷ []

abbrev no_text : Text
no_text = []

abbrev operation : Operation ℕ Text
operation = record {
  command = b'c' ∷ [];
  fence_resource = resource;
  payload = Json.null;
  key_header = Header.single key;
  digest_header = Header.absent;
  response_status = ResponseStatus.fixed 201;
  run = λ access. require_role access ("admin" ∷ []) >> add_five no_text no_text;
}

abbrev of_user : Options ℕ Text
of_user = as_options operation scope before_change

abbrev after_operation : Journal ℕ
after_operation = record (before_command true) {
  commands = completed_row (command_id codec of_user key) digest 201 (b'!' ∷ []) ∷ [];
  business = 15;
}

operation_runs :
    execute_operations_command decimal codec
      (checks before_change)
      operation
      calm
      (before_command true)
    ≡ (ok response, after_operation)
unfolding execute_operations_command as_options has_role execute in_transaction transaction
    command_body run_first answer prepare start same_id completes
operation_runs = refl

retry_in_new_session_example :
    ((execute_operations_command decimal codec
        (checks before_change)
        operation
        lossy
        (before_command true)).1
      ≡ before_command true)
    ⊎ (((execute_operations_command decimal codec
            (checks before_change)
            operation
            lossy
            (before_command true)).1
          ≡ after_operation)
        × (execute_operations_command decimal codec
              (checks after_change)
              operation
              calm
              after_operation
            ≡ (ok (as_reply true response), after_operation)))
unfolding request_scope
retry_in_new_session_example =
    retry_in_new_session decimal codec operation (checks before_change) (checks after_change)
      before_change after_change scope scope lossy (before_command true) after_operation response
      round_trip refl refl refl operation_runs
