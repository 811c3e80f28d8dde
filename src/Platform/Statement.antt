-- ===== src/Platform/Statement.antt =====
-- One statement inside a transaction (executeOnConnection, query and execute of connectionExecutor, with
-- resolveTimeoutMs and assertSql, in apps/api/src/infrastructure/database.ts). How the race of the
-- statement against the cancellations ends is an argument.
pub mod Laws
mod Tests
use topology_supply_chain.Common.{
  ℕ, Bool, true, false, not, ◌&&◌, ◌||◌, Option, none, some, List, if◌then◌else◌,
}
use topology_supply_chain.Common.Int.{ℤ, pos, pos_part, ltb_ℤ, leb_ℤ, min_ℤ, is_safe_integer}
use topology_supply_chain.Platform.Failure.{
  DatabaseErrorCode, operation_aborted, operation_failed, operation_timed_out,
}
use topology_supply_chain.Platform.Transaction.{Cancellation, cancellation_code}

-- What a statement throws: a TypeError, a RangeError or a DatabaseClientError.
pub data Raised : Type 0 where
  empty_sql : Raised
  timeout_out_of_range : (minimum maximum : ℤ) → Raised
  client : DatabaseErrorCode → Raised

pub data Result (A : Type 0) : Type 0 where
  value : A → Result A
  raised : Raised → Result A

-- `timeoutMs`, where it is given: an integer or any other number.
pub data Timeout : Type 0 where
  unset not_an_integer : Timeout
  milliseconds : ℤ → Timeout

-- resolveTimeoutMs
unfoldable pub resolve_timeout : Timeout → (default minimum maximum : ℤ) → Result ℤ
resolve_timeout unset default minimum maximum = value default
resolve_timeout not_an_integer default minimum maximum =
    raised (timeout_out_of_range minimum maximum)
resolve_timeout (milliseconds n) default minimum maximum =
    if not (is_safe_integer n) || (ltb_ℤ n minimum || ltb_ℤ maximum n)
    then raised (timeout_out_of_range minimum maximum)
    else value n

abbrev pub minimum_query_timeout : ℤ
minimum_query_timeout = pos 10

abbrev pub maximum_query_timeout : ℤ
maximum_query_timeout = pos 30000

-- How the race ends: with the driver's answer, with a cancellation (of the statement or of its
-- transaction), or with an error.
pub data StatementRace (A : Type 0) : Type 0 where
  answered : A → StatementRace A
  cancelled : Cancellation → StatementRace A
  protocol_timeout : StatementRace A
  client_error : DatabaseErrorCode → StatementRace A
  other_error : StatementRace A

-- `remaining` is what is left of the transaction's time, where the statement is part of one.
pub record Statement : Type 0 where
  pub blank : Bool
  pub timeout : Timeout
  pub signal_aborted : Bool
  pub default_timeout : ℤ
  pub remaining : Option ℤ

within : ℤ → Option ℤ → ℤ
within requested none = requested
within requested (some remaining) = min_ℤ requested remaining

checked_timeout : Bool → ℤ → Result ℤ
checked_timeout signal_aborted timeout =
    if leb_ℤ timeout (pos 0)
    then raised (client operation_timed_out)
    else if signal_aborted
    then raised (client operation_aborted)
    else value timeout

-- The timeout that the driver is given, or the error before it is called.
unfoldable pub statement_timeout : Statement → Result ℤ
unfolding resolve_timeout checked_timeout within
statement_timeout s =
    if s.blank
    then raised empty_sql
    else elim (resolve_timeout s.timeout s.default_timeout minimum_query_timeout
        maximum_query_timeout) [
          | raised e ↦ raised e
          | value requested ↦ checked_timeout s.signal_aborted (within requested s.remaining)
        ]

-- The `try` statement around the race.
unfoldable pub race_result : {A : Type 0} → StatementRace A → Result A
unfolding cancellation_code
race_result (answered a) = value a
race_result (cancelled reason) = raised (client (cancellation_code reason))
race_result protocol_timeout = raised (client operation_timed_out)
race_result (client_error code) = raised (client code)
race_result other_error = raised (client operation_failed)

-- executeOnConnection; the race may depend on the timeout that the driver is given.
unfoldable pub execute_on_connection : {A : Type 0} → Statement → (ℤ → StatementRace A) → Result A
unfolding statement_timeout race_result
execute_on_connection s race = elim (statement_timeout s) [
  | raised e ↦ raised e
  | value timeout ↦ race_result (race timeout)
]

-- A value that the driver returns: rows, or a header whose fields may be missing or no numbers.
pub data DriverResult (R : Type 0) : Type 0 where
  rows : List R → DriverResult R
  header : (affected_rows insert_id : Option ℤ) → DriverResult R

-- query
unfoldable pub query :
    {R : Type 0} → Statement → (ℤ → StatementRace (DriverResult R)) → Result (List R)
unfolding execute_on_connection
query s race = elim (execute_on_connection s race) [
  | raised e ↦ raised e
  | value (rows rs) ↦ value rs
  | value (header a i) ↦ raised (client operation_failed)
]

pub record ExecuteResult : Type 0 where
  pub affected_rows : ℕ
  pub insert_id : Option ℕ

-- A number that counts: a safe integer that is not negative.
counted : Option ℤ → Option ℕ
counted none = none
counted (some n) = if is_safe_integer n && leb_ℤ (pos 0) n then some (pos_part n) else none

execute_result : Option ℕ → Option ℕ → Result ExecuteResult
execute_result none insert_id = raised (client operation_failed)
execute_result (some n) insert_id = value (record { affected_rows = n; insert_id = insert_id })

-- execute
unfoldable pub execute :
    {R : Type 0} → Statement → (ℤ → StatementRace (DriverResult R)) → Result ExecuteResult
unfolding execute_on_connection counted execute_result
execute s race = elim (execute_on_connection s race) [
  | raised e ↦ raised e
  | value (rows rs) ↦ raised (client operation_failed)
  | value (header affected insert_id) ↦ execute_result (counted affected) (counted insert_id)
]
