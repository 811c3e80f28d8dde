-- ===== src/Worker/Rows.antt =====
-- The tables that the worker reads and writes (database/runtime/schema.ts), with the columns that its
-- statements use. The times at which a row was created, updated, sent or completed, which no statement
-- of the worker reads, are left out.
use topology_supply_chain.Common.{
  ℕ, String, str_eq, ◌==◌, ◌&&◌, Bool, false, Option, none, List, leb, ◌/◌,
}
use topology_supply_chain.Sql.{Table}
use topology_supply_chain.Worker.Job.{ErrorCode}
use topology_supply_chain.Ops.Values.{JsValue, undefined}

-- The texts in `available_at`: an ISO time in UTC, from toISOString, or the DATETIME of the server's
-- session that pause writes. Both are in milliseconds, each on its own clock.
pub data Stamp : Type 0 where
  iso : ℕ → Stamp
  datetime : ℕ → Stamp

abbrev day : ℕ → ℕ
day n = n / 86400000

-- The order of these texts against an ISO time: the date decides, and on the same date the separator, since
-- a blank precedes `T`.
unfoldable pub is_due : Stamp → (now : ℕ) → Bool
is_due (iso n) now = leb n now
is_due (datetime n) now = leb (day n) (day now)

pub data MessageStatus : Type 0 where
  pending processing completed dead : MessageStatus

-- `payload.recipient`, where it is an object.
pub record RecipientFields : Type 0 where
  pub kind : JsValue
  pub role : JsValue
  pub user_id : JsValue
  pub entity_type : JsValue
  pub entity_id : JsValue

-- `payload.sealedCode`, where it is an object.
pub record SealedFields : Type 0 where
  pub key_id : JsValue
  pub iv : JsValue
  pub ciphertext : JsValue
  pub tag : JsValue

-- The fields of a payload that the worker reads; a field that is missing is `undefined`. `data_text` is
-- JSON.stringify of `data`, or of {} where `data` is no object.
pub record Payload : Type 0 where
  pub schema_version : JsValue
  pub entity_type : JsValue
  pub entity_id : JsValue
  pub event_type : JsValue
  pub recipient : Option RecipientFields
  pub data_text : String
  pub recipient_role : JsValue
  pub type : JsValue
  pub approval_id : JsValue
  pub message_id : JsValue
  pub file_id : JsValue
  pub sealed_code : Option SealedFields

-- `payload_json`: a text that is no JSON object, the text {"redacted":true}, or an object.
pub data PayloadText : Type 0 where
  malformed redacted : PayloadText
  object : Payload → PayloadText

abbrev pub no_fields : Payload
no_fields = record {
  schema_version = undefined;
  entity_type = undefined;
  entity_id = undefined;
  event_type = undefined;
  recipient = none;
  data_text = "{}";
  recipient_role = undefined;
  type = undefined;
  approval_id = undefined;
  message_id = undefined;
  file_id = undefined;
  sealed_code = none;
}

-- The texts of `deduplication_key`, which is unique: the keys that the API writes, and the worker's own,
-- notification:${digest}:user:${user}:email and reminder:${reminder}:${next run}:user:${user}:email. No key of the API begins with "notification:" or "reminder:".
pub data DeduplicationKey : Type 0 where
  given : String → DeduplicationKey
  email_key : (digest : String) → (user_id : ℕ) → DeduplicationKey
  reminder_key : (reminder next_run user_id : ℕ) → DeduplicationKey

unfoldable pub same_key : DeduplicationKey → DeduplicationKey → Bool
same_key (given s) (given t) = str_eq s t
same_key (email_key d i) (email_key e j) = str_eq d e && i == j
same_key (reminder_key r n i) (reminder_key q m j) = r == q && (n == m && i == j)
same_key _ _ = false

-- outbox_messages
pub record Message : Type 0 where
  pub topic : String
  pub aggregate_id : ℕ
  pub deduplication_key : DeduplicationKey
  pub payload : PayloadText
  pub status : MessageStatus
  pub available_at : Stamp
  pub attempts : ℕ
  pub max_attempts : ℕ
  pub locked_by : Option ℕ
  pub locked_at : Option ℕ
  pub last_error_code : Option ErrorCode

pub data Channel : Type 0 where
  in_app email : Channel

pub data NoticeStatus : Type 0 where
  queued sent : NoticeStatus

-- notification_messages
pub record Notice : Type 0 where
  pub recipient_user_id : ℕ
  pub recipient_role : String
  pub channel : Channel
  pub type : String
  pub severity : String
  pub title : String
  pub message : String
  pub entity_type : String
  pub entity_id : ℕ
  pub status : NoticeStatus

-- users
pub record User : Type 0 where
  pub email : String
  pub role : String
  pub is_active : Bool
  pub factory_id : Option ℕ

-- user_roles
pub record UserRole : Type 0 where
  pub user_id : ℕ
  pub role_code : String
  pub is_active : Bool

-- writer_fences
pub record Fence : Type 0 where
  pub resource : String
  pub owner : String
  pub enabled : ℕ
  pub generation : ℕ

-- purchase_plan_items
pub record PlanItem : Type 0 where
  pub purchase_plan_id : ℕ
  pub factory_id : Option ℕ

-- purchase_plan_order_links
pub record PlanLink : Type 0 where
  pub order_item_id : ℕ
  pub purchase_plan_item_id : ℕ

pub data ScanStatus : Type 0 where
  unscanned clean rejected : ScanStatus

pub data Recurrence : Type 0 where
  once daily_overdue milestones : Recurrence

pub data ReminderStatus : Type 0 where
  active done cancelled : ReminderStatus

-- A column of JSON that is read as an array: a text that is none, or the array's items.
pub data JsonArray : Type 0 where
  no_array : JsonArray
  items : List JsValue → JsonArray

-- reminder_schedules, whose status `completed` is `done` here. `due_at` is the time that `new Date` makes of its text.
pub record Reminder : Type 0 where
  pub reminder_type : String
  pub entity_type : String
  pub entity_id : ℕ
  pub business_no : Option String
  pub due_at : ℕ
  pub due_at_text : String
  pub next_run_at : ℕ
  pub recurrence : Recurrence
  pub recipient_roles : JsonArray
  pub recipient_user_ids : JsonArray
  pub severity : String
  pub status : ReminderStatus

-- invoice_exceptions, by the statuses that the worker tells apart
pub data ExceptionStatus : Type 0 where
  awaiting_remediation risk_warning other_status : ExceptionStatus

pub record Db : Type 0 where
  pub outbox : Table Message
  pub notices : Table Notice
  pub users : Table User
  pub user_roles : List UserRole
  pub fences : List Fence
  pub plan_items : Table PlanItem
  pub plan_links : List PlanLink
  pub order_items : List (ℕ × ℕ)  -- order_items: the id and its purchase_order_id
  pub supplier_skus : Table (Option ℕ)  -- supplier_skus: the factory_id
  pub files : Table ScanStatus  -- file_objects: the scan_status
  pub reminders : Table Reminder
  pub invoice_exceptions : Table ExceptionStatus
  pub reminder_audits : List (ℕ × ℕ)  -- audit_logs of process_reminder: the reminder and the recipients
  pub scan_audits : List (ℕ × ScanStatus)  -- audit_logs of scan_file: the file and its scan status
