-- ===== src/Worker/System.antt =====
-- Workers that share a database, with the API (apps/worker/src/server.ts; enqueueOutbox of
-- apps/api/src/platform/outbox.ts). Each step is one act of a worker, its sweep of a reminder, a message that the API enqueues, a write of the
-- API to the other tables, or the end of a worker's process; they come in any order.
pub mod Invariant
pub mod Once
use topology_supply_chain.Common.{
  ℕ, String, ◌≡◌, ◌≢◌, ◌<◌, Bool, true, false, Option, none, some, ◌==◌, if◌then◌else◌,
}
use topology_supply_chain.Sql.{insert}
use topology_supply_chain.Worker.Reminder.{sweep_reminder}
use topology_supply_chain.Worker.Job.{Connection, Result, done, raise, unexpected}
use topology_supply_chain.Worker.Rows.{
  Db, Message, pending, PayloadText, DeduplicationKey, Stamp, iso,
}
use topology_supply_chain.Worker.Lease.{Held}
use topology_supply_chain.Worker.Dispatch.{key_taken}
use topology_supply_chain.Worker.Process.{
  Services, Circumstances, Phase, idle, crashed, holding, scanned, delivered, raised, act,
}

pub record System : Type 0 where
  pub db : Db
  pub phases : ℕ → Phase

abbrev pub set_phase : ℕ → Phase → (ℕ → Phase) → ℕ → Phase
set_phase w p phases v = if v == w then p else phases v

-- One act of a worker.
unfoldable pub run : Services → ℕ → Circumstances → System → System
unfolding act
run services w c s =
    let (p, db) = act w c services (s.phases w) s.db in
    record { db = db; phases = set_phase w p s.phases }

-- OutboxMessage, with the defaults filled in.
pub record NewMessage : Type 0 where
  pub topic : String
  pub aggregate_id : ℕ
  pub deduplication_key : DeduplicationKey
  pub payload : PayloadText
  pub available_at : ℕ
  pub max_attempts : ℕ

abbrev pub new_row : NewMessage → Message
new_row n = record {
  topic = n.topic;
  aggregate_id = n.aggregate_id;
  deduplication_key = n.deduplication_key;
  payload = n.payload;
  status = pending;
  available_at = iso n.available_at;
  attempts = 0;
  max_attempts = n.max_attempts;
  locked_by = none;
  locked_at = none;
  last_error_code = none;
}

-- enqueueOutbox: a key that is taken violates the unique index.
unfoldable pub enqueue_outbox : NewMessage → Db → Result (Unit {0}) × Db
enqueue_outbox n db =
    if key_taken n.deduplication_key db
    then (raise unexpected, db)
    else (done tt, record db { outbox = (insert (new_row n) db.outbox).0 })

-- A worker's sweep of one reminder. A sweep that throws any error but FencePaused also ends the worker (`ends`).
unfoldable pub sweep : Connection → (locked : ℕ → Bool) → ℕ → System → System
unfolding sweep_reminder
sweep c locked now s = record s { db = (sweep_reminder c locked now s.db).1 }

pub data Step (services : Services) (s t : System) : Type 0 where
  acts : (w : ℕ) → (c : Circumstances) → t ≡ run services w c s → Step services s t
  enqueues :
      (n : NewMessage)
      → 0 < n.max_attempts
      → t ≡ record s { db = (enqueue_outbox n s.db).1 }
      → Step services s t
  sweeps :
      (c : Connection)
      → (locked : ℕ → Bool) → (now : ℕ) → t ≡ sweep c locked now s
      → Step services s t
  writes_elsewhere :
      (db : Db) → db.outbox ≡ s.db.outbox → t ≡ record s { db = db } → Step services s t
  ends : (w : ℕ) → t ≡ record s { phases = set_phase w crashed s.phases } → Step services s t

pub data Reach (services : Services) (s : System) : System → Type 0 where
  here : Reach services s s
  next : {t u : System} → Reach services s t → Step services t u → Reach services s u

-- The message that a phase holds.
abbrev pub held_by : Phase → Option Held
held_by idle = none
held_by crashed = none
held_by (holding row) = some row
held_by (scanned row p status) = some row
held_by (delivered row) = some row
held_by (raised row e) = some row
