-- ===== src/Platform/Transaction.antt =====
-- `transaction` of the database client (apps/api/src/infrastructure/database.ts): connect, begin, run
-- the callback, commit or roll back, each raced against the deadline. What the network does is an
-- argument, one value for each race; whether a commit that was not acknowledged took effect is known
-- to the server only, and is part of that argument. Every caller passes no options, so the default
-- timeout applies and no signal is given.
pub mod Atomic
use topology_supply_chain.Common.{Bool, if◌then◌else◌}
use topology_supply_chain.Platform.Failure.{
  Failure, database, DatabaseErrorCode, client_closed, operation_aborted, operation_failed,
  operation_timed_out, transaction_outcome_unknown,
}
use topology_supply_chain.Platform.Tx.{Outcome, ok, fail, Tx}

-- OperationCancellation
pub data Cancellation : Type 0 where
  aborted timed_out : Cancellation

-- One `Promise.race` of an operation and the cancellation.
pub data Race : Type 0 where
  finished rejected : Race
  cancelled : Cancellation → Race

-- The race of a commit: when it is lost the server may or may not have applied it.
pub data CommitRace : Type 0 where
  acknowledged : CommitRace
  lost : (applied : Bool) → CommitRace

pub record Network : Type 0 where
  pub closed : Bool
  pub connecting : Race
  pub beginning : Race
  pub running : Race  -- `rejected` is the callback's own affair, and is read as `finished`
  pub committing : CommitRace
  pub rolling_back : Race

-- cancellationError
unfoldable pub cancellation_code : Cancellation → DatabaseErrorCode
cancellation_code aborted = operation_aborted
cancellation_code timed_out = operation_timed_out

abbrev outcome_unknown : {A : Type 0} → Outcome A
outcome_unknown = fail (database transaction_outcome_unknown)

-- A failure after which the connection is destroyed in place of a rollback.
unfoldable pub interrupted : Failure → Bool
interrupted (database operation_aborted) = Bool.true
interrupted (database operation_timed_out) = Bool.true
interrupted _ = Bool.false

-- What the caller sees, and the durable state.
module _ {S A : Type 0} (net : Network) (callback : Tx S A) (s : S) where
  commit : A → S → Outcome A × S
  commit a s' = elim net.committing [
    | acknowledged ↦ (ok a, s')
    | lost applied ↦ (outcome_unknown, if applied then s' else s)
  ]

  unfoldable pub roll_back : Failure → Outcome A × S
  unfolding interrupted
  roll_back e =
      if interrupted e
      then (outcome_unknown, s)
      else elim net.rolling_back [ finished ↦ (fail e, s) | _ ↦ (outcome_unknown, s) ]

  unfoldable pub settle : Outcome (A × S) → Outcome A × S
  unfolding commit roll_back
  settle (ok (a, s')) = commit a s'
  settle (fail e) = roll_back e

  unfoldable pub run_callback : Outcome A × S
  unfolding settle
  run_callback = elim net.running [
    | cancelled reason ↦ (outcome_unknown, s)
    | _ ↦ settle (callback s)
  ]

  unfoldable pub begin : Outcome A × S
  unfolding run_callback
  begin = elim net.beginning [
    | finished ↦ run_callback
    | rejected ↦ (fail (database operation_failed), s)
    | cancelled reason ↦ (outcome_unknown, s)
  ]

  unfoldable pub connect : Outcome A × S
  unfolding begin cancellation_code
  connect = elim net.connecting [
    | finished ↦ begin
    | rejected ↦ (fail (database operation_failed), s)
    | cancelled reason ↦ (fail (database (cancellation_code reason)), s)
  ]

  unfoldable pub transaction : Outcome A × S
  unfolding connect
  transaction = if net.closed then (fail (database client_closed), s) else connect
