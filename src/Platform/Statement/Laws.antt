-- ===== src/Platform/Statement/Laws.antt =====
-- Timeouts of statements, and what an interrupted statement does to its transaction.
use topology_supply_chain.Common.{◌≡◌, refl, false, some, arith}
use topology_supply_chain.Common.Int.{ℤ, pos, ◌≤ℤ◌, ◌<ℤ◌}
use topology_supply_chain.Platform.Failure.{
  DatabaseErrorCode, database, transaction_outcome_unknown,
}
use topology_supply_chain.Platform.Tx.{Tx, fail}
use topology_supply_chain.Platform.Transaction.{
  Network, finished, transaction, Cancellation, cancellation_code, interrupted, aborted, timed_out,
  connect, begin, run_callback, settle, roll_back,
}
use topology_supply_chain.Platform.Statement.{
  Statement, StatementRace, cancelled, value, raised, client, resolve_timeout, statement_timeout,
  execute_on_connection, maximum_query_timeout, race_result,
}

-- The timeout of a statement, where the default is in the range of query timeouts: the one that the driver
-- is given is positive, at most the maximum, and at most what is left of the transaction's time.
pub timeout_bounds :
    (s : Statement) (timeout left : ℤ)
    → s.default_timeout ≤ℤ maximum_query_timeout
    → s.remaining ≡ some left
    → statement_timeout s ≡ value timeout
    → (pos 0 <ℤ timeout) × (timeout ≤ℤ maximum_query_timeout) × (timeout ≤ℤ left)
unfolding statement_timeout resolve_timeout
timeout_bounds s timeout left default_fits r h = ground arith

-- An interrupted callback, whatever its network does after the start.
interrupted_transaction :
    {S A : Type 0} (net : Network) (callback : Tx S A) (state : S) (reason : Cancellation)
    → net.closed ≡ false
    → net.connecting ≡ finished
    → net.beginning ≡ finished
    → callback state ≡ fail (database (cancellation_code reason))
    → transaction net callback state ≡ (fail (database transaction_outcome_unknown), state)
unfolding transaction connect begin run_callback settle roll_back interrupted cancellation_code
interrupted_transaction net callback state aborted c b f h = ground arith
interrupted_transaction net callback state timed_out c b f h = ground arith

-- A statement whose race a cancellation wins ends its transaction with an unknown outcome. Where the
-- transaction has begun, and its callback passes on the error of such a statement, the transaction throws
-- DATABASE_TRANSACTION_OUTCOME_UNKNOWN and leaves the state as it was.
pub cancelled_statement :
    {S A B : Type 0} (net : Network) (callback : Tx S A) (state : S) (s : Statement) (timeout : ℤ)
    (race : ℤ → StatementRace B) (reason : Cancellation)
    → net.closed ≡ false
    → net.connecting ≡ finished
    → net.beginning ≡ finished
    → statement_timeout s ≡ value timeout
    → race timeout ≡ cancelled reason
    → ((code : DatabaseErrorCode)
        → execute_on_connection s race ≡ raised (client code)
        → callback state ≡ fail (database code))
    → transaction net callback state ≡ (fail (database transaction_outcome_unknown), state)
unfolding transaction execute_on_connection race_result
cancelled_statement net callback state s timeout race reason c b f t r passes =
    let thrown : execute_on_connection s race ≡ raised (client (cancellation_code reason)) =
      rw (execute_on_connection, t, r) refl in
    interrupted_transaction net callback state reason c b f
      (passes (cancellation_code reason) thrown)
