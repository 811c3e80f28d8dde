-- ===== src/Worker/Dispatch.antt =====
-- The messages that the worker handles inside one transaction (completeLease, dispatchDomainEvent, dispatchNotification
-- and the transaction of a file scan in apps/worker/src/server.ts).
use topology_supply_chain.Common.{
  ℕ, String, str_eq, Bool, true, false, not, ◌&&◌, ◌||◌, Option, none, some, List, [], ◌∷◌, any,
  ltb, ◌==◌, if◌then◌else◌,
}
use topology_supply_chain.Common.Int.{pos}
use topology_supply_chain.Sql.{Table, update, insert, select, taken, find}
use topology_supply_chain.Ops.Values.{JsValue, to_number, number, int}
use topology_supply_chain.Worker.Job.{
  permanent, invalid_payload, recipient_not_found, file_not_found, unexpected, Job, pure, throw,
  gets, statement, lift, ◌>>=◌, ◌>>◌, throw_if, skip, for_each,
}
use topology_supply_chain.Worker.Rows.{
  Db, Message, pending, object, Payload, no_fields, iso, DeduplicationKey, email_key, same_key,
  Notice, Channel, in_app, email, queued, sent, User, UserRole, PlanItem, ScanStatus,
}
use topology_supply_chain.Worker.Lease.{Held, is_held, completed_in_dispatch}
use topology_supply_chain.Worker.Fence.{require_fence}
use topology_supply_chain.Worker.Payload.{
  DomainEvent, Recipient, nobody, supply_chain, user, entity_binding, positive_id, positive,
}

abbrev into_outbox : {A : Type 0} → Db → Table Message × A → A × Db
into_outbox db (t, a) = (a, record db { outbox = t })

abbrev into_notices : {A : Type 0} → Db → Table Notice × A → A × Db
into_notices db (t, a) = (a, record db { notices = t })

-- UPDATE outbox_messages … WHERE id = ? AND status = 'processing' AND locked_by = ?: affectedRows
abbrev pub update_held : ℕ → ℕ → (Message → Message) → Db → ℕ × Db
update_held w id change db = into_outbox db (update id (is_held w) change db.outbox)

-- completeLease
unfoldable pub complete_lease : ℕ → Held → Job Db (Unit {0})
unfolding completed_in_dispatch
complete_lease w row = do
  affected ← statement (update_held w row.id completed_in_dispatch)
  throw_if (not (affected == 1)) unexpected

-- INSERT INTO notification_messages: insertId
unfoldable pub insert_notice : Notice → Job Db ℕ
insert_notice n = statement (λ db. into_notices db (insert n db.notices))

abbrev pub has_role_code : String → List UserRole → ℕ → Bool
has_role_code role rows id =
    any (λ r. r.user_id == id && (r.is_active && str_eq r.role_code role)) rows

-- SELECT DISTINCT … LEFT JOIN user_roles … WHERE users.role = ? OR user_roles.role_code = ?
unfoldable pub users_of_role : String → Db → List (ℕ × User)
users_of_role role db =
    select (λ (id, u). u.is_active && (str_eq u.role role || has_role_code role db.user_roles id))
      db.users.rows

abbrev factory_is : ℕ → Option ℕ → Bool
factory_is f none = false
factory_is f (some g) = f == g

abbrev factory_in : List ℕ → Option ℕ → Bool
factory_in factories factory = any (λ f. factory_is f factory) factories

-- The active factory users of some factories.
unfoldable pub users_of_factories : List ℕ → Db → List (ℕ × User)
unfolding users_of_role
users_of_factories factories db =
    select (λ (id, u). factory_in factories u.factory_id) (users_of_role "factory" db)

abbrev factories_of : List (ℕ × PlanItem) → List (Option ℕ)
factories_of [] = []
factories_of ((i, p) ∷ rows) = p.factory_id ∷ factories_of rows

-- Whether a plan item is linked to an item of the order.
unfoldable pub is_linked : (order : ℕ) → Db → ℕ → Bool
is_linked order db item =
    any
      (λ l.
        l.purchase_plan_item_id == item
        && any (λ (i, o). i == l.order_item_id && o == order) db.order_items)
      db.plan_links

abbrev one_or_none : Option (Option ℕ) → List (Option ℕ)
one_or_none none = []
one_or_none (some f) = f ∷ []

-- The three queries of factory ids, in the order of the `switch`.
unfoldable pub factory_query : (entity_type : String) → (entity_id : ℕ) → Job Db (List (Option ℕ))
unfolding is_linked
factory_query entity_type entity_id db =
    if str_eq entity_type "purchase_plan"
    then gets
        (λ d. factories_of (select (λ (i, p). p.purchase_plan_id == entity_id) d.plan_items.rows))
        db
    else if str_eq entity_type "purchase_order"
    then gets (λ d. factories_of (select (λ (i, p). is_linked entity_id d i) d.plan_items.rows)) db
    else if str_eq entity_type "supplier_sku"
    then gets (λ d. one_or_none (find entity_id d.supplier_skus.rows)) db
    else throw (permanent invalid_payload) db

-- Number(value) of NULL is 0, which is filtered out as every id below 1 is.
abbrev factory_ids : List (Option ℕ) → List ℕ
factory_ids [] = []
factory_ids (none ∷ fs) = factory_ids fs
factory_ids (some f ∷ fs) = if ltb 0 f then f ∷ factory_ids fs else factory_ids fs

abbrev is_empty : List ℕ → Bool
is_empty [] = true
is_empty (f ∷ fs) = false

-- An id that the database compares with its integer columns; a text that is no number above 0 equals no id.
abbrev or_zero : Option ℕ → ℕ
or_zero none = 0
or_zero (some n) = n

unfoldable pub bound_users : String → JsValue → Job Db (List (ℕ × User))
unfolding factory_query users_of_factories positive to_number
bound_users entity_type entity_id = do
  factories ← factory_query entity_type (or_zero (positive (to_number entity_id)))
  throw_if (is_empty (factory_ids factories)) (permanent recipient_not_found)
  gets (users_of_factories (factory_ids factories))

-- The users an event is for.
unfoldable pub recipients : Recipient → Job Db (List (ℕ × User))
unfolding users_of_role bound_users
recipients nobody = pure []
recipients supply_chain = gets (users_of_role "supply_chain")
recipients (user id) = gets (λ db. select (λ (i, u). i == id && u.is_active) db.users.rows)
recipients (entity_binding t id) = bound_users t id

abbrev pub event_notice : DomainEvent → ℕ × User → Notice
event_notice e (id, u) = record {
  recipient_user_id = id;
  recipient_role = u.role;
  channel = in_app;
  type = e.event_type;
  severity = "info";
  title = e.event_type;
  message = e.data_text;
  entity_type = e.entity_type;
  entity_id = e.entity_id;
  status = sent;
}

-- One round of the loop over the users.
unfoldable pub notify : DomainEvent → ℕ × User → Job Db (Unit {0})
unfolding insert_notice
notify e u = do id ← insert_notice (event_notice e u); throw_if (not (ltb 0 id)) unexpected

-- The transaction of dispatchDomainEvent
unfoldable pub domain_event_body : ℕ → Held → DomainEvent → Job Db (Unit {0})
unfolding require_fence recipients notify complete_lease
domain_event_body w row e = do
  require_fence "outbox.worker"
  users ← recipients e.recipient
  for_each (notify e) users
  complete_lease w row

abbrev approval_notice : String → ℕ → Channel → ℕ × User → Notice
approval_notice type approval channel (id, u) = record {
  recipient_user_id = id;
  recipient_role = u.role;
  channel = channel;
  type = type;
  severity = "approval";
  title = "新的审批待办";
  message = "有一项高风险变更等待审核。";
  entity_type = "approval_request";
  entity_id = approval;
  status = elim channel [ in_app ↦ sent | email ↦ queued ];
}

-- The e-mail of a notice. Of its payload the worker reads the message's id only.
abbrev pub email_message : DeduplicationKey → ℕ → ℕ → Message
email_message key now notice = record {
  topic = "email.deliver";
  aggregate_id = notice;
  deduplication_key = key;
  payload = object (record no_fields { message_id = number (int (pos notice)) });
  status = pending;
  available_at = iso now;
  attempts = 0;
  max_attempts = 8;
  locked_by = none;
  locked_at = none;
  last_error_code = none;
}

abbrev pub key_taken : DeduplicationKey → Db → Bool
key_taken key db = taken (λ m. same_key m.deduplication_key key) db.outbox.rows

abbrev pub insert_row : Message → Db → Unit {0} × Db
insert_row m db = into_outbox db ((insert m db.outbox).0, tt)

-- INSERT IGNORE INTO outbox_messages
unfoldable pub insert_message : Message → Job Db (Unit {0})
insert_message m db =
    if key_taken m.deduplication_key db then skip db else statement (insert_row m) db

module _ (sha256 : DeduplicationKey → String) (now : ℕ) where
  -- The notices of a user and the e-mail.
  unfoldable pub write_approval : String → ℕ → DeduplicationKey → ℕ × User → Job Db (Unit {0})
  unfolding insert_notice insert_message
  write_approval type approval key u = do
    shown ← insert_notice (approval_notice type approval in_app u)
    mailed ← insert_notice (approval_notice type approval email u)
    insert_message (email_message key now mailed)
    throw_if (not (ltb 0 shown)) unexpected

  -- One round of the loop over the users: a user whose e-mail exists is passed over.
  unfoldable pub notify_approval : Held → String → ℕ → ℕ × User → Job Db (Unit {0})
  unfolding write_approval
  notify_approval row type approval (id, u) db =
      let key = email_key (sha256 row.deduplication_key) id in
      if key_taken key db then skip db else write_approval type approval key (id, u) db

  -- The transaction of dispatchNotification
  unfoldable pub notification_body : ℕ → Held → (role type : String) → ℕ → Job Db (Unit {0})
  unfolding require_fence users_of_role notify_approval complete_lease
  notification_body w row role type approval = do
    require_fence "outbox.worker"
    users ← gets (users_of_role role)
    for_each (notify_approval row type approval) users
    complete_lease w row

abbrev into_files : {A : Type 0} → Db → Table ScanStatus × A → A × Db
into_files db (t, a) = (a, record db { files = t })

abbrev add_audit : ℕ → ScanStatus → Db → Unit {0} × Db
add_audit file status db = (tt, record db { scan_audits = (file, status) ∷ db.scan_audits })

-- The result of a scan, in the file's row and in the audit log
unfoldable pub record_scan : ℕ → ScanStatus → Job Db (Unit {0})
record_scan file status = do
  affected ← statement (λ db. into_files db (update file (λ s. true) (λ s. status) db.files))
  throw_if (not (affected == 1)) (permanent file_not_found)
  statement (add_audit file status)

-- The transaction of a file scan
unfoldable pub scan_body : ℕ → Held → Payload → ScanStatus → Job Db (Unit {0})
unfolding require_fence positive_id record_scan complete_lease
scan_body w row p status = do
  require_fence "files.worker"
  file ← lift (positive_id p.file_id)
  record_scan file status
  complete_lease w row
