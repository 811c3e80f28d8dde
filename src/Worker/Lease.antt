-- ===== src/Worker/Lease.antt =====
-- The leases of outbox messages (claim, completeLease, complete, pause and fail of
-- apps/worker/src/server.ts). A worker is given by a number, its `workerId`; no two processes share one.
use topology_supply_chain.Common.{
  ℕ, String, str_eq, ◌+◌, ◌-◌, ◌*◌, min, Bool, true, false, not, ◌&&◌, ◌||◌, Option, none, some,
  List, [], ◌∷◌, head?, ltb, leb, ◌==◌, if◌then◌else◌,
}
use topology_supply_chain.Sql.{select, order_by}
use topology_supply_chain.Worker.Job.{
  ErrorCode, lease_exhausted, delivery_failed, writer_fence_paused, Fault, permanent,
}
use topology_supply_chain.Worker.Rows.{
  DeduplicationKey, Message, MessageStatus, pending, processing, completed, dead, PayloadText,
  redacted, Stamp, iso, datetime, is_due,
}
use Prim.Native.Nat.{◌^◌}

abbrev pub lease_ms : ℕ
lease_ms = 300000

-- OutboxRow: what a worker knows of the message it has claimed
pub record Held : Type 0 where
  pub id : ℕ
  pub topic : String
  pub deduplication_key : DeduplicationKey
  pub payload : PayloadText
  pub attempts : ℕ
  pub max_attempts : ℕ

abbrev pub is_pending : MessageStatus → Bool
is_pending pending = true
is_pending _ = false

abbrev pub is_processing : MessageStatus → Bool
is_processing processing = true
is_processing _ = false

abbrev pub locked_by_worker : ℕ → Option ℕ → Bool
locked_by_worker w none = false
locked_by_worker w (some v) = v == w

-- locked_at < ?
abbrev pub locked_before : ℕ → Option ℕ → Bool
locked_before stale none = false
locked_before stale (some at) = ltb at stale

-- CASE WHEN topic = 'sms.deliver' THEN '{"redacted":true}' ELSE payload_json END
unfoldable pub redact : String → PayloadText → PayloadText
redact topic payload = if str_eq topic "sms.deliver" then redacted else payload

-- status = 'processing' AND locked_by = ?
abbrev pub is_held : ℕ → Message → Bool
is_held w m = is_processing m.status && locked_by_worker w m.locked_by

-- completeLease, SET
unfoldable pub completed_in_dispatch : Message → Message
completed_in_dispatch m = record m {
  status = completed;
  locked_by = none;
  locked_at = none;
  last_error_code = none;
}

-- complete, SET
unfoldable pub completed_after : Message → Message
unfolding redact
completed_after m = record m {
  status = completed;
  locked_by = none;
  locked_at = none;
  last_error_code = none;
  payload = redact m.topic m.payload;
}

-- pause, SET, at the time `clock` of the server's session: GREATEST(attempts - 1, 0) is what subtraction
-- of natural numbers gives.
unfoldable pub paused : (clock : ℕ) → Message → Message
paused clock m = record m {
  status = pending;
  available_at = datetime (clock + 1000);
  attempts = m.attempts - 1;
  locked_by = none;
  locked_at = none;
  last_error_code = some writer_fence_paused;
}

unfoldable pub is_permanent : Fault → Bool
is_permanent (permanent code) = true
is_permanent _ = false

unfoldable pub error_code : Fault → ErrorCode
error_code (permanent code) = code
error_code _ = delivery_failed

-- delaySeconds
unfoldable pub delay_seconds : ℕ → ℕ
delay_seconds attempts = min 3600 ((2 ^ min attempts 10) * 5)

-- dead
unfoldable pub is_dead : Held → Fault → Bool
unfolding is_permanent
is_dead row e = is_permanent e || leb row.max_attempts row.attempts

-- fail, SET
unfoldable pub failed : (now : ℕ) → Held → Fault → Message → Message
unfolding redact error_code delay_seconds is_dead
failed now row e m = record m {
  status = if is_dead row e then dead else pending;
  available_at = iso (now + delay_seconds row.attempts * 1000);
  locked_by = none;
  locked_at = none;
  payload = if is_dead row e then redact m.topic m.payload else m.payload;
  last_error_code = some (error_code e);
}

-- The lease that claim ends: its holder let it run out on the last attempt.
unfoldable pub is_exhausted : (stale : ℕ) → Message → Bool
is_exhausted stale m =
    is_processing m.status && (locked_before stale m.locked_at && leb m.max_attempts m.attempts)

unfoldable pub exhausted : Message → Message
unfolding redact
exhausted m = record m {
  status = dead;
  locked_by = none;
  locked_at = none;
  last_error_code = some lease_exhausted;
  payload = redact m.topic m.payload;
}

-- UPDATE outbox_messages … WHERE is_exhausted
unfoldable pub expire : (stale : ℕ) → List (ℕ × Message) → List (ℕ × Message)
unfolding is_exhausted exhausted
expire stale [] = []
expire stale ((i, m) ∷ rows) =
    (i, if is_exhausted stale m then exhausted m else m) ∷ expire stale rows

-- The messages that claim chooses among.
unfoldable pub is_claimable : (stale now : ℕ) → Message → Bool
unfolding is_due
is_claimable stale now m =
    ltb m.attempts m.max_attempts
    && (is_due m.available_at now
        && (is_pending m.status || (is_processing m.status && locked_before stale m.locked_at)))

-- The texts of `available_at` in their order: two ISO times by time, two DATETIMEs too, and a DATETIME precedes the
-- ISO times of its own date.
unfoldable pub stamp_le : Stamp → Stamp → Bool
unfolding is_due
stamp_le a (iso n) = is_due a n
stamp_le (datetime m) (datetime n) = leb m n
stamp_le (iso m) (datetime n) = not (is_due (datetime n) m)

-- ORDER BY available_at ASC, id ASC
unfoldable pub claims_first : ℕ × Message → ℕ × Message → Bool
unfolding stamp_le
claims_first (i, m) (j, n) =
    stamp_le m.available_at n.available_at
    && (not (stamp_le n.available_at m.available_at) || leb i j)

-- SET of claim
unfoldable pub claimed : (worker now : ℕ) → Message → Message
claimed w now m = record m {
  status = processing;
  locked_by = some w;
  locked_at = some now;
  attempts = m.attempts + 1;
}

abbrev pub as_held : ℕ → Message → Held
as_held id m = record {
  id = id;
  topic = m.topic;
  deduplication_key = m.deduplication_key;
  payload = m.payload;
  attempts = m.attempts;
  max_attempts = m.max_attempts;
}

-- The three readings of the clock in claim, and the rows that the transactions of others have locked, which SKIP
-- LOCKED passes over.
pub record ClaimTime : Type 0 where
  pub started : ℕ
  pub selecting : ℕ
  pub locking : ℕ
  pub locked : ℕ → Bool

-- The SELECT of claim. Where the clock is below the lease, no `locked_at` is below the difference, nor is it
-- below 0.
unfoldable pub candidate : ClaimTime → List (ℕ × Message) → Option (ℕ × Message)
unfolding is_claimable claims_first
candidate t rows = head? (
    order_by claims_first (
      select (λ (i, m). not (t.locked i) && is_claimable (t.started - lease_ms) t.selecting m)
        rows))
