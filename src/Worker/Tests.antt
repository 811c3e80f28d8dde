-- ===== src/Worker/Tests.antt =====
-- Runs of two workers on a small database, and the theorems at them.
use topology_supply_chain.Common.{
  ◌∷◌, ℕ, String, ◌+◌, ◌≤◌, ◌&&◌, leb, ◌⊎◌, ◌≡◌, refl, true, false, none, some, List, [], arith,
}
use topology_supply_chain.Common.Int.{pos, is_safe_integer}
use topology_supply_chain.Sql.{find, order_by}
use topology_supply_chain.Ops.Values.{JsValue, JsNumber}
use topology_supply_chain.Worker.Job.{commit, acknowledged, done, ErrorCode}
use topology_supply_chain.Worker.Rows.{
  Db, Message, MessageStatus, Stamp, is_due, PayloadText, Payload, no_fields, redacted,
  DeduplicationKey, User,
}
use topology_supply_chain.Worker.Samples.{fresh}
use topology_supply_chain.Worker.Process.{Services, Circumstances, Phase}
use topology_supply_chain.Worker.Providers.{Response}
use topology_supply_chain.Worker.System.{
  System, run, NewMessage, new_row, enqueue_outbox, Step, Reach,
}
use topology_supply_chain.Worker.System.Invariant.{
  Reach-IsGood, IsStart-IsGood, attempts_bounded, codes_redacted,
}
use topology_supply_chain.Worker.System.Once.{finished_once, lost_worker}
use topology_supply_chain.Worker.Lease.{
  Held, is_pending, is_held, candidate, delay_seconds, paused, completed_in_dispatch,
}
use topology_supply_chain.Worker.Life.{is_final}
use topology_supply_chain.Worker.Life.Progress.{claim_progress}
use topology_supply_chain.Worker.Life.Oldest.{Earlier, claims_oldest}
use topology_supply_chain.Worker.Life.Delay.{delay_doubles, pause_delay}
use topology_supply_chain.Worker.Life.Effect.{contents, announced, domain_event_effect}
use topology_supply_chain.Worker.Payload.{DomainEvent, Recipient}
use topology_supply_chain.Worker.Dispatch.{recipients}
use topology_supply_chain.Worker.Process.{claim}

abbrev services : Services
services = record {
  length_of = λ s. 5;
  sha256 = λ k. "digest";
  sealing_keys = [];
  opens = λ s. true;
}

-- A worker acts at a time, on a network that works.
abbrev at : ℕ → Circumstances
at now = record {
  time = record { started = now; selecting = now; locking = now; locked = λ i. false };
  now = now;
  session_clock = now;
  connection = record { begins = true; commits = acknowledged };
  response = Response.no_response;
}

abbrev text : String → JsValue
text s = JsValue.text s s JsNumber.other_number

abbrev event_payload : Payload
event_payload = record no_fields {
  schema_version = JsValue.number (JsNumber.int (pos 1));
  entity_type = text "purchase_plan";
  entity_id = JsValue.text "12" "12" (JsNumber.int (pos 12));
  event_type = text "PlanSubmitted";
  recipient = some (record {
    kind = text "role";
    role = text "supply_chain";
    user_id = JsValue.undefined;
    entity_type = JsValue.undefined;
    entity_id = JsValue.undefined;
  });
}

abbrev message : String → Payload → NewMessage
message topic payload = record {
  topic = topic;
  aggregate_id = 12;
  deduplication_key = DeduplicationKey.given "r3:12";
  payload = PayloadText.object payload;
  available_at = 900000;
  max_attempts = 8;
}

abbrev start : System
start = record { db = fresh; phases = λ v. Phase.idle }

abbrev enqueued : NewMessage → System
enqueued n = record start { db = (enqueue_outbox n fresh).1 }

-- Worker 1 claims the event and stalls; its lease runs out, and worker 2 claims the event and dispatches it.
abbrev event : NewMessage
event = message "domain.event" event_payload

abbrev stalled : System
stalled = run services 1 (at 1000000) (enqueued event)

abbrev taken_over : System
taken_over = run services 2 (at 1400000) stalled

to_taken_over : Reach services start taken_over
to_taken_over =
    Reach.next
      (Reach.next (Reach.next Reach.here (Step.enqueues event (omega arith) refl))
        (Step.acts 1 (at 1000000) refl))
      (Step.acts 2 (at 1400000) refl)

abbrev dispatched : System
dispatched = run services 2 (at 1400001) taken_over

to_dispatched : Reach services start dispatched
to_dispatched = Reach.next to_taken_over (Step.acts 2 (at 1400001) refl)

-- What worker 1 holds, and the message as worker 2 leaves it.
abbrev held : String → Payload → ℕ → Held
held topic payload attempts = record {
  id = 1;
  topic = topic;
  deduplication_key = DeduplicationKey.given "r3:12";
  payload = PayloadText.object payload;
  attempts = attempts;
  max_attempts = 8;
}

abbrev completed_event : Message
completed_event = record (new_row event) { status = MessageStatus.completed; attempts = 2 }

finished_once_example : (run services 1 (at 1400002) dispatched).db ≡ dispatched.db
unfolding run enqueue_outbox is_safe_integer order_by commit
finished_once_example =
    finished_once 1 (at 1400002) (held "domain.event" event_payload 1) completed_event
      (refl, λ v. refl) to_dispatched refl refl Reach.here refl

lost_worker_example : (run services 1 (at 1400002) taken_over).db ≡ taken_over.db
unfolding run enqueue_outbox is_safe_integer order_by commit
lost_worker_example =
    lost_worker services taken_over 1 (at 1400002) (held "domain.event" event_payload 1)
      (record (new_row event) {
        status = MessageStatus.processing;
        attempts = 2;
        locked_by = some 2;
        locked_at = some 1400000;
      })
      (Reach-IsGood to_taken_over (IsStart-IsGood start (refl, λ v. refl))) refl refl refl

attempts_bounded_example :
    (2 ≤ 8)
    × ((is_pending MessageStatus.completed && leb 8 2) ≡ false)
    × (false ≡ false)
    × (false ≡ false)
unfolding run enqueue_outbox is_safe_integer order_by commit
attempts_bounded_example = attempts_bounded 1 completed_event (refl, λ v. refl) to_dispatched refl

-- A text message without a sealed code is buried after its first attempt.
abbrev code : NewMessage
code = message "sms.deliver" no_fields

abbrev buried : System
buried =
    run services 1 (at 1000002)
      (run services 1 (at 1000001) (run services 1 (at 1000000) (enqueued code)))

to_buried : Reach services start buried
to_buried =
    Reach.next
      (Reach.next
        (Reach.next (Reach.next Reach.here (Step.enqueues code (omega arith) refl))
          (Step.acts 1 (at 1000000) refl))
        (Step.acts 1 (at 1000001) refl))
      (Step.acts 1 (at 1000002) refl)

codes_redacted_example : ◌≡◌ {A = PayloadText} redacted redacted
unfolding run enqueue_outbox is_safe_integer order_by commit
codes_redacted_example =
    codes_redacted 1
      (record (new_row code) {
        status = MessageStatus.dead;
        attempts = 1;
        payload = redacted;
        available_at = Stamp.iso 1010002;
        last_error_code = some ErrorCode.invalid_sealed_otp;
      })
      (refl, λ v. refl) to_buried refl refl refl

-- The claim of a worker that finds the enqueued event.
abbrev Progress : ℕ → Circumstances → Db → ℕ → Type 0
Progress w c s id =
    ((row : Held) × (t : Db) × (claim w c s ≡ (done (some row), t)))
    ⊎ ((t : Db) × (n : Message) × (claim w c s ≡ (done none, t))
        × (find id t.outbox.rows ≡ some n)
        × (is_final n.status ≡ true))

claim_progress_example : Progress 1 (at 1000000) (enqueued event).db 1
unfolding run enqueue_outbox is_safe_integer order_by commit
claim_progress_example =
    claim_progress 1 (at 1000000) (enqueued event).db 1 (new_row event)
      (Reach-IsGood {services = services}
        (Reach.next Reach.here (Step.enqueues event (omega arith) refl))
        (IsStart-IsGood start (refl, λ v. refl))).sound
      refl (refl, refl) (λ j. refl) refl refl

-- The newer row has the smaller id.
abbrev older : Message
older = record (new_row event) { available_at = Stamp.iso 900000 }

abbrev newer : Message
newer = record (new_row event) { available_at = Stamp.iso 950000 }

claims_oldest_example :
    Earlier older.available_at newer.available_at
    ⊎ ((older.available_at ≡ newer.available_at) × (5 ≤ 2))
unfolding candidate order_by
claims_oldest_example =
    claims_oldest (at 1000000).time ((2, newer) ∷ (5, older) ∷ []) 5 2 older newer refl refl refl
      refl

delay_doubles_example : delay_seconds 3 ≡ 40
delay_doubles_example = delay_doubles 3

-- A session clock eight hours ahead of UTC, in the afternoon of the UTC date.
pause_delay_example :
    is_due (paused (72000000 + 28800000) (new_row event)).available_at 86000000 ≡ false
pause_delay_example = pause_delay (new_row event) 72000000 28800000 86000000 refl

abbrev plan_event : DomainEvent
plan_event = record {
  data_text = "{}";
  entity_id = 12;
  entity_type = "purchase_plan";
  event_type = "PlanSubmitted";
  recipient = Recipient.supply_chain;
}

abbrev Effect : ℕ → Held → DomainEvent → Db → Db → Type 0
Effect w row e s t =
    (us : List (ℕ × User)) × (recipients e.recipient s ≡ done (us, s))
    × (contents t.notices.rows ≡ announced e us (contents s.notices.rows))
    × ((m : Message) × (find row.id s.outbox.rows ≡ some m)
        × (is_held w m ≡ true)
        × (find row.id t.outbox.rows ≡ some (completed_in_dispatch m)))

domain_event_effect_example :
    Effect 2 (held "domain.event" event_payload 2) plan_event taken_over.db dispatched.db
unfolding run enqueue_outbox is_safe_integer order_by commit
domain_event_effect_example =
    domain_event_effect 2 (held "domain.event" event_payload 2) plan_event taken_over.db
      dispatched.db tt refl
