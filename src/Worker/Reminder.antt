-- ===== src/Worker/Reminder.antt =====
-- The sweep of reminders (sweepReminder and jsonArray of apps/worker/src/server.ts).
pub mod Sound
pub mod Ends
mod Tests
use topology_supply_chain.Common.{
  ℕ, String, str_eq, ◌+◌, ◌-◌, Bool, true, false, not, ◌&&◌, ◌||◌, Option, none, some, List, [],
  ◌∷◌, any, length, head?, ltb, leb, ◌==◌, if◌then◌else◌,
}
use topology_supply_chain.Common.Int.{pos, pos_part, leb_ℤ, is_safe_integer}
use topology_supply_chain.Sql.{Table, update, insert, select, order_by}
use topology_supply_chain.Ops.Values.{JsValue, number, text, JsNumber, int, other_number}
use topology_supply_chain.Worker.Job.{
  Fault, permanent, invalid_reminder, unexpected, Job, Result, raise, pure, throw, gets, statement,
  lift, ◌>>=◌, ◌>>◌, throw_if, skip, for_each, Connection, transact,
}
use topology_supply_chain.Worker.Job
use topology_supply_chain.Worker.Rows.{
  Db, Message, pending, PayloadText, object, Payload, no_fields, iso, DeduplicationKey,
  reminder_key, Notice, Channel, in_app, email, queued, sent, User, JsonArray, no_array, items,
  Reminder, ReminderStatus, active, done, cancelled, Recurrence, once, daily_overdue, milestones,
  ExceptionStatus, awaiting_remediation, risk_warning, other_status,
}
use topology_supply_chain.Worker.Fence.{require_fence}
use topology_supply_chain.Worker.Dispatch.{insert_notice, insert_row, key_taken, has_role_code}
use Prim.Native.String.{◌++◌}

-- jsonArray
unfoldable pub json_array : JsonArray → Result (List JsValue)
json_array no_array = raise (permanent invalid_reminder)
json_array (items vs) = Job.done vs

-- typeof value === "string"
abbrev pub texts : List JsValue → List String
texts [] = []
texts (text s t n ∷ vs) = s ∷ texts vs
texts (v ∷ vs) = texts vs

abbrev safe_id : JsNumber → List ℕ → List ℕ
safe_id other_number ids = ids
safe_id (int z) ids = if is_safe_integer z && leb_ℤ (pos 0) z then pos_part z ∷ ids else ids

-- Number.isSafeInteger(value); no user has an id below 0.
abbrev pub safe_ids : List JsValue → List ℕ
safe_ids [] = []
safe_ids (number n ∷ vs) = safe_id n (safe_ids vs)
safe_ids (v ∷ vs) = safe_ids vs

-- status = 'active' AND next_run_at <= ?
unfoldable pub is_due_reminder : ℕ → Reminder → Bool
is_due_reminder now r = elim r.status [ active ↦ leb r.next_run_at now | _ ↦ false ]

-- ORDER BY next_run_at ASC, id ASC
unfoldable pub runs_first : ℕ × Reminder → ℕ × Reminder → Bool
runs_first (i, r) (j, q) =
    ltb r.next_run_at q.next_run_at || (r.next_run_at == q.next_run_at && leb i j)

-- The SELECT; SKIP LOCKED passes over the rows that other transactions have locked.
unfoldable pub due_reminder : (locked : ℕ → Bool) → ℕ → List (ℕ × Reminder) → Option (ℕ × Reminder)
unfolding is_due_reminder runs_first
due_reminder locked now rows =
    head? (order_by runs_first (select (λ (i, r). not (locked i) && is_due_reminder now r) rows))

-- users.role IN (…) OR user_roles.role_code IN (…) OR users.id IN (…)
unfoldable pub addressed : List String → List ℕ → Db → List (ℕ × User)
addressed roles ids db =
    select
      (λ (id, u).
        u.is_active
        && (any (λ role. str_eq u.role role || has_role_code role db.user_roles id) roles
            || any (λ i. i == id) ids))
      db.users.rows

abbrev is_overdue : ℕ → Reminder → Bool
is_overdue now r = ltb r.due_at now

abbrev is_awaiting : ExceptionStatus → Bool
is_awaiting awaiting_remediation = true
is_awaiting _ = false

abbrev warn : ℕ → Db → Unit {0} × Db
warn id db = (
  tt,
  record db {
    invoice_exceptions = (update id is_awaiting (λ s. risk_warning) db.invoice_exceptions).0;
  },
)

-- The exception of an invoice that has been overdue for 30 days
unfoldable pub warn_exception : ℕ → Reminder → Job Db (Unit {0})
warn_exception now r =
    if str_eq r.reminder_type "invoice_replacement_overdue"
      && (is_overdue now r && leb 2592000000 (now - r.due_at))
    then statement (warn r.entity_id)
    else skip

abbrev or_text : Option String → String → String
or_text none s = s
or_text (some t) s = t

abbrev reminder_notice : ℕ → Reminder → Channel → ℕ × User → Notice
reminder_notice now r channel (id, u) = record {
  recipient_user_id = id;
  recipient_role = u.role;
  channel = channel;
  type = r.reminder_type;
  severity = if is_overdue now r then "red" else r.severity;
  title = (if is_overdue now r then "逾期：" else "提醒：") ++ or_text r.business_no r.reminder_type;
  message =
      (if is_overdue now r then "该事项已超过截止时间，请立即处理。截止：" else "该事项即将到期，请及时处理。截止：") ++ r.due_at_text;
  entity_type = r.entity_type;
  entity_id = r.entity_id;
  status = elim channel [ in_app ↦ sent | email ↦ queued ];
}

abbrev pub reminder_message : ℕ → ℕ → Reminder → ℕ → ℕ → Message
reminder_message now id r user notice = record {
  topic = "email.deliver";
  aggregate_id = id;
  deduplication_key = reminder_key id r.next_run_at user;
  payload = object (record no_fields { message_id = number (int (pos notice)) });
  status = pending;
  available_at = iso now;
  attempts = 0;
  max_attempts = 8;
  locked_by = none;
  locked_at = none;
  last_error_code = none;
}

-- INSERT INTO outbox_messages, which a key that is taken makes fail.
unfoldable pub insert_unique : Message → Job Db (Unit {0})
insert_unique m db =
    if key_taken m.deduplication_key db then throw unexpected db else statement (insert_row m) db

-- One round of the loop over the users
unfoldable pub remind : ℕ → ℕ → Reminder → ℕ × User → Job Db (Unit {0})
unfolding insert_notice insert_unique
remind now id r (user, u) = do
  shown ← insert_notice (reminder_notice now r in_app (user, u))
  mailed ← insert_notice (reminder_notice now r email (user, u))
  insert_unique (reminder_message now id r user mailed)

-- The reminder after the sweep: a daily one runs again in a day.
unfoldable pub rescheduled : ℕ → Reminder → Reminder
rescheduled now r = elim r.recurrence [
  | daily_overdue ↦ record r { status = active; next_run_at = now + 86400000 }
  | _ ↦ record r { status = done }
]

abbrev reschedule : ℕ → ℕ → Db → Unit {0} × Db
reschedule now id db =
    (tt, record db { reminders = (update id (λ r. true) (rescheduled now) db.reminders).0 })

abbrev audit_sweep : ℕ → ℕ → Db → Unit {0} × Db
audit_sweep id recipients db =
    (tt, record db { reminder_audits = (id, recipients) ∷ db.reminder_audits })

-- The last two statements
unfoldable pub finish_sweep : ℕ → ℕ → ℕ → Job Db Bool
unfolding rescheduled
finish_sweep now id recipients = do
  statement (reschedule now id)
  statement (audit_sweep id recipients)
  pure true

-- The statements after the users are known
unfoldable pub send_reminders : ℕ → ℕ × Reminder → List (ℕ × User) → Job Db Bool
unfolding warn_exception remind finish_sweep
send_reminders now (id, r) users = do
  warn_exception now r
  for_each (remind now id r) users
  finish_sweep now id (length users)

-- What the sweep does for a reminder
unfoldable pub sweep_row : ℕ → ℕ × Reminder → Job Db Bool
unfolding json_array addressed send_reminders
sweep_row now (id, r) = do
  roles ← lift (json_array r.recipient_roles)
  explicit ← lift (json_array r.recipient_user_ids)
  users ← gets (addressed (texts roles) (safe_ids explicit))
  send_reminders now (id, r) users

unfoldable pub sweep_candidate : ℕ → Option (ℕ × Reminder) → Job Db Bool
unfolding sweep_row
sweep_candidate now none = pure false
sweep_candidate now (some row) = sweep_row now row

-- The transaction of sweepReminder
unfoldable pub sweep_body : (locked : ℕ → Bool) → ℕ → Job Db Bool
unfolding require_fence due_reminder sweep_candidate
sweep_body locked now = do
  require_fence "reminders.worker"
  row ← gets (λ db. due_reminder locked now db.reminders.rows)
  sweep_candidate now row

-- sweepReminder
unfoldable pub sweep_reminder : Connection → (locked : ℕ → Bool) → ℕ → Db → Result Bool × Db
unfolding transact sweep_body
sweep_reminder c locked now db = transact c (sweep_body locked now) db
