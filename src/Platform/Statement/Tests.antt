-- ===== src/Platform/Statement/Tests.antt =====
-- The theorems on statements at a statement that times out.
use topology_supply_chain.Common.{ℕ, ◌≡◌, refl, false, some, arith}
use topology_supply_chain.Common.Int.{ℤ, pos, ◌≤ℤ◌, ◌<ℤ◌, is_safe_integer}
use topology_supply_chain.Platform.Failure.{
  database, operation_timed_out, transaction_outcome_unknown,
}
use topology_supply_chain.Platform.Tx.{Tx, ok, fail}
use topology_supply_chain.Platform.Transaction.{transaction, Cancellation}
use topology_supply_chain.Platform.Transaction.Atomic.{calm}
use topology_supply_chain.Platform.Statement.{
  Statement, Timeout, StatementRace, Result, value, raised, client, execute_on_connection,
  maximum_query_timeout, statement_timeout,
}
use topology_supply_chain.Platform.Statement.Laws.{timeout_bounds, cancelled_statement}

abbrev statement : Statement
statement = record {
  blank = false;
  timeout = Timeout.milliseconds (pos 900);
  signal_aborted = false;
  default_timeout = pos 5000;
  remaining = some (pos 700);
}

timeout_bounds_example :
    (pos 0 <ℤ pos 700) × (pos 700 ≤ℤ maximum_query_timeout) × (pos 700 ≤ℤ pos 700)
unfolding statement_timeout is_safe_integer
timeout_bounds_example = timeout_bounds statement (pos 700) (pos 700) (omega arith) refl refl

-- The callback throws what the statement raises.
passed_on : Result ℕ → Tx ℕ ℕ
passed_on (value n) s = ok (n, s)
passed_on (raised (client code)) s = fail (database code)
passed_on (raised e) s = fail (database operation_timed_out)

abbrev late : ℤ → StatementRace ℕ
late timeout = StatementRace.cancelled Cancellation.timed_out

cancelled_statement_example :
    transaction calm (passed_on (execute_on_connection statement late)) 5
    ≡ (fail (database transaction_outcome_unknown), 5)
unfolding statement_timeout is_safe_integer passed_on
cancelled_statement_example =
    cancelled_statement calm (passed_on (execute_on_connection statement late)) 5 statement
      (pos 700) late Cancellation.timed_out refl refl refl refl refl (λ code h. rw h refl)
