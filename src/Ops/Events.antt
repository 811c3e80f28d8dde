-- ===== src/Ops/Events.antt =====
-- The audit log, domain events and random identifiers (audit and domainEvent of
-- apps/api/src/platform/operations-support.ts, enqueueOutbox of apps/api/src/platform/outbox.ts). The
-- JSON that an entry or a message carries is left out: no modelled code reads it.
use topology_supply_chain.Common.{
  ℕ, ◌+◌, String, str_eq, Bool, true, false, ◌&&◌, Option, none, some, ◌∷◌, any, ◌==◌,
  if◌then◌else◌,
}
use topology_supply_chain.Platform.Failure.{database, operation_failed}
use topology_supply_chain.Platform.Tx.{Tx, ok, fail}
use topology_supply_chain.Ops.Access.{Command}
use topology_supply_chain.Ops.Store.{Db, EventKey}

-- audit
unfoldable pub audit :
    Command → (action module_name entity_type : String) → (entity_id : ℕ) → Tx Db (Unit {0})
audit c action module_name entity_type entity_id db = ok (
  tt,
  record db {
    audits =
        record {
          action = action;
          module_name = module_name;
          entity_type = entity_type;
          entity_id = entity_id;
          user_id = c.access.user_id;
        }
        ∷ db.audits;
  },
)

same_suffix : Option ℕ → Option ℕ → Bool
same_suffix none none = true
same_suffix none (some n) = false
same_suffix (some m) none = false
same_suffix (some m) (some n) = m == n

same_event : EventKey → EventKey → Bool
unfolding same_suffix
same_event a b =
    str_eq a.event_type b.event_type
    && (str_eq a.aggregate_type b.aggregate_type
        && (a.aggregate_id == b.aggregate_id && same_suffix a.suffix b.suffix))

abbrev event_key : String → String → ℕ → Option ℕ → EventKey
event_key type aggregate_type aggregate_id suffix = record {
  event_type = type;
  aggregate_type = aggregate_type;
  aggregate_id = aggregate_id;
  suffix = suffix;
}

-- domainEvent and enqueueOutbox: the deduplication key of a message is unique.
unfoldable pub domain_event :
    (type aggregate_type : String) → (aggregate_id : ℕ) → (suffix : Option ℕ) → Tx Db (Unit {0})
unfolding same_event
domain_event type aggregate_type aggregate_id suffix db =
    let key = event_key type aggregate_type aggregate_id suffix in
    if any (same_event key) db.outbox
    then fail (database operation_failed)
    else ok (tt, record db { outbox = key ∷ db.outbox })

-- randomUUID(). Each request comes with values of its own, so that nothing ties the values of a request to those that one before it
-- drew, even if its transaction was rolled back.
unfoldable pub draw_uuid : Command → Tx Db String
draw_uuid c db = ok (c.random_uuid db.uuids_drawn, record db { uuids_drawn = db.uuids_drawn + 1 })
