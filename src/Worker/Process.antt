-- ===== src/Worker/Process.antt =====
-- The loop of a worker (claim, processMessage, complete, pause, fail and the `for` of the loop in
-- apps/worker/src/server.ts), cut at its transactions: what a worker is about to do is a phase, and one act takes it to
-- the next phase. Between two acts, other workers and the API may act.
pub mod Topics
use topology_supply_chain.Common.{
  ℕ, String, str_eq, ◌+◌, ◌-◌, Bool, true, false, not, ◌&&◌, Option, none, some, List, ◌==◌,
  if◌then◌else◌,
}
use topology_supply_chain.Common.Int.{ℤ, pos, pos_part, leb_ℤ, is_safe_integer}
use topology_supply_chain.Sql.{Table, update}
use topology_supply_chain.Ops.Values.{JsValue, JsNumber, int, other_number, to_number}
use topology_supply_chain.Worker.Job.{
  Fault, permanent, fence_paused, unexpected, unknown_topic, Result, done, raise, Job, pure, throw,
  gets, statement, lift, ◌>>=◌, ◌>>◌, throw_if, skip, Answer, Connection, transact, autocommit,
}
use topology_supply_chain.Worker.Rows.{
  Db, Message, Payload, DeduplicationKey, SealedFields, ScanStatus, Notice, Channel, in_app, email,
  sent,
}
use topology_supply_chain.Worker.Lease.{
  Held, as_held, is_held, ClaimTime, candidate, lease_ms, expire, claimed, completed_after, paused,
  failed,
}
use topology_supply_chain.Worker.Fence.{check_fence, require_fence}
use topology_supply_chain.Worker.Payload.{
  parse_payload, payload_text, positive_id, require_domain_event,
}
use topology_supply_chain.Worker.Payload
use topology_supply_chain.Worker.Providers.{Response, deliver_email, deliver_sms, scan_file}
use topology_supply_chain.Worker.Dispatch.{
  update_held, domain_event_body, notification_body, scan_body,
}

-- What the worker's process and the services it calls are given as.
pub record Services : Type 0 where
  pub length_of : String → ℕ
  pub sha256 : DeduplicationKey → String
  pub sealing_keys : List String
  pub opens : SealedFields → Bool

-- What one act of a worker meets: the readings of the clocks, its connection and the answer of a provider.
pub record Circumstances : Type 0 where
  pub time : ClaimTime
  pub now : ℕ  -- Date.now() of fail
  pub session_clock : ℕ  -- CURRENT_TIMESTAMP(3)
  pub connection : Connection
  pub response : Response

-- What a worker is about to do: to claim, to process the message it has claimed, to write the result of a scan, to
-- complete a message that was delivered, or to write off an error. A crashed worker has left the loop.
pub data Phase : Type 0 where
  idle crashed : Phase
  holding : Held → Phase
  scanned : Held → Payload → ScanStatus → Phase
  delivered : Held → Phase
  raised : Held → Fault → Phase

abbrev set_outbox : {A : Type 0} → Db → Table Message × A → A × Db
set_outbox db (t, a) = (a, record db { outbox = t })

abbrev expire_outbox : ℕ → Db → Unit {0} × Db
expire_outbox stale db =
    (tt, record db { outbox = record db.outbox { rows = expire stale db.outbox.rows } })

-- The UPDATE of claim and its check.
unfoldable pub take_lease : ℕ → ℕ → ℕ × Message → Job Db (Option Held)
unfolding claimed
take_lease w now (id, m) = do
  affected ← statement (λ db. set_outbox db (update id (λ r. true) (claimed w now) db.outbox))
  throw_if (not (affected == 1)) unexpected
  pure (some (record (as_held id m) { attempts = m.attempts + 1 }))

unfoldable pub take_candidate : ℕ → ℕ → Option (ℕ × Message) → Job Db (Option Held)
unfolding take_lease
take_candidate w now none = pure none
take_candidate w now (some row) = take_lease w now row

-- The transaction of claim
unfoldable pub claim_body : ℕ → ClaimTime → Job Db (Option Held)
unfolding require_fence expire candidate take_candidate
claim_body w t = do
  require_fence "outbox.worker"
  statement (expire_outbox (t.started - lease_ms))
  row ← gets (λ db. candidate t db.outbox.rows)
  take_candidate w t.locking row

-- The loop after claim: FencePaused leaves the batch, every other error the loop.
unfoldable pub after_claim : Result (Option Held) → Phase
after_claim (done none) = idle
after_claim (done (some row)) = holding row
after_claim (raise fence_paused) = idle
after_claim (raise e) = crashed

-- The loop after the message was processed, with the error that `catch` got.
unfoldable pub conclude : Held → Result (Unit {0}) × Db → Phase × Db
conclude row (done u, db) = (idle, db)
conclude row (raise e, db) = (raised row e, db)

-- A check of processMessage, and what comes after it.
abbrev pub caught : {A : Type 0} → Held → Result A → (A → Db → Phase × Db) → Db → Phase × Db
caught row (raise e) k db = (raised row e, db)
caught row (done a) k db = k a db

-- A check before a transaction.
abbrev pub checked :
    {A : Type 0} → Result A → (A → Db → Result (Unit {0}) × Db) → Db → Result (Unit {0}) × Db
checked (raise e) k db = (raise e, db)
checked (done a) k db = k a db

-- Number.isSafeInteger(Number(payload.messageId)); no notice has an id below 0.
unfoldable pub message_id_of : JsNumber → Option ℕ
message_id_of other_number = none
message_id_of (int z) = if is_safe_integer z && leb_ℤ (pos 0) z then some (pos_part z) else none

abbrev is_email : Notice → Bool
is_email n = elim n.channel [ email ↦ true | in_app ↦ false ]

unfoldable pub mark_sent : Option ℕ → Job Db (Unit {0})
mark_sent none = skip
mark_sent (some id) = statement (λ db. (
  tt,
  record db { notices = (update id is_email (λ n. record n { status = sent }) db.notices).0 },
))

-- The transaction of complete
unfoldable pub complete_body : ℕ → Held → Job Db (Unit {0})
unfolding require_fence parse_payload completed_after to_number message_id_of mark_sent
complete_body w row = do
  require_fence "outbox.worker"
  payload ← lift (parse_payload row.payload)
  affected ← statement (update_held w row.id completed_after)
  throw_if (not (affected == 1)) unexpected
  if str_eq row.topic "email.deliver"
      then mark_sent (message_id_of (to_number payload.message_id))
      else skip

-- `affectedRows !== 1`
unfoldable pub one_row : ℕ → Result (Unit {0})
one_row affected = if affected == 1 then done tt else raise unexpected

module _ (w : ℕ) (c : Circumstances) where
  -- claim
  unfoldable pub claim : Db → Result (Option Held) × Db
  unfolding transact claim_body
  claim db = transact c.connection (claim_body w c.time) db

  -- complete
  unfoldable pub complete : Held → Db → Result (Unit {0}) × Db
  unfolding transact complete_body
  complete row db = transact c.connection (complete_body w row) db

  -- pause
  unfoldable pub pause : Held → Db → Result (Unit {0}) × Db
  unfolding autocommit paused one_row
  pause row db =
      autocommit c.connection.commits (update_held w row.id (paused c.session_clock)) one_row db

  -- fail
  unfoldable pub fail : Held → Fault → Db → Result (Unit {0}) × Db
  unfolding autocommit failed one_row
  fail row e db =
      autocommit c.connection.commits (update_held w row.id (failed c.now row e)) one_row db

  -- The `catch` of the loop
  unfoldable pub write_off : Held → Fault → Db → Result (Unit {0}) × Db
  unfolding pause fail
  write_off row fence_paused db = pause row db
  write_off row e db = fail row e db

  unfoldable pub after_write_off : Result (Unit {0}) × Db → Phase × Db
  after_write_off (done u, db) = (idle, db)
  after_write_off (raise e, db) = (crashed, db)

  module _ (services : Services) where
    -- A call of a provider behind a fence
    unfoldable pub call : {A : Type 0} → String → Result A → (A → Phase) → Held → Db → Phase × Db
    unfolding check_fence
    call resource answer next row db =
        caught row (check_fence resource db.fences) (λ u. caught row answer (λ a d. (next a, d))) db

    -- dispatchNotification
    unfoldable pub dispatch_notification : Held → Payload → Db → Result (Unit {0}) × Db
    unfolding payload_text positive_id transact notification_body
    dispatch_notification row p = checked (payload_text services.length_of p.recipient_role) λ role.
        checked (payload_text services.length_of p.type) λ type.
          checked (positive_id p.approval_id)
            λ id. transact c.connection (notification_body services.sha256 c.now w row role type id)

    -- dispatchDomainEvent
    unfoldable pub dispatch_domain_event : Held → Payload → Db → Result (Unit {0}) × Db
    unfolding require_domain_event transact domain_event_body
    dispatch_domain_event row p =
        checked (require_domain_event services.length_of p)
          λ event. transact c.connection (domain_event_body w row event)

    -- The `switch` of processMessage
    unfoldable pub handle : Held → Payload → Db → Phase × Db
    unfolding call deliver_email deliver_sms scan_file dispatch_notification dispatch_domain_event
        conclude
    handle row p db =
        if str_eq row.topic "email.deliver"
        then call "outbox.worker" (deliver_email c.response) (λ a. delivered row) row db
        else if str_eq row.topic "sms.deliver"
        then call "outbox.worker" (deliver_sms services.sealing_keys services.opens p c.response)
            (λ a. delivered row) row db
        else if str_eq row.topic "notification.dispatch"
        then conclude row (dispatch_notification row p db)
        else if str_eq row.topic "domain.event"
        then conclude row (dispatch_domain_event row p db)
        else if str_eq row.topic "file.scan"
        then call "files.worker" (scan_file c.response) (scanned row p) row db
        else (raised row (permanent unknown_topic), db)

    -- processMessage
    unfoldable pub process_message : Held → Db → Phase × Db
    unfolding parse_payload handle
    process_message row db = caught row (parse_payload row.payload) (handle row) db

    -- One act of a worker
    unfoldable pub act : Phase → Db → Phase × Db
    unfolding claim after_claim process_message scan_body transact conclude complete write_off
        after_write_off
    act idle db = let (r, db') = claim db in (after_claim r, db')
    act (holding row) db = process_message row db
    act (scanned row p status) db =
        conclude row (transact c.connection (scan_body w row p status) db)
    act (delivered row) db = conclude row (complete row db)
    act (raised row e) db = after_write_off (write_off row e db)
    act crashed db = (crashed, db)
