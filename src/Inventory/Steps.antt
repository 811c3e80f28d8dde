-- ===== src/Inventory/Steps.antt =====
-- The steps that only write versions, movements, the audit log and the outbox keep whatever holds of the
-- other tables.
use topology_supply_chain.Common.{ℕ, String, ◌≡◌, sym, ap, Option, [], arith}
use mathlib.Core.Path.{subst}
use topology_supply_chain.Platform.Tx.{ok-state}
use topology_supply_chain.Platform.Keeps.{Keeps, keeps_rules}
use topology_supply_chain.Ops.Store.{Db, Movement, EntityType, historical}
use topology_supply_chain.Ops.Access.{Command, AccessContext}
use topology_supply_chain.Ops.Versions.{lock_version, bump_version}
use topology_supply_chain.Ops.Versions.Laws.{lock_version-frame, bump_version-frame}
use topology_supply_chain.Ops.Events.{audit, domain_event, draw_uuid}
use topology_supply_chain.Inventory.Rows.{insert_movement}
use topology_supply_chain.Inventory.Freeze.{lock_warehouse_freeze, freeze_exists}
use topology_supply_chain.Inventory.Scope.{require_warehouse_scope, require_entity_scope}

-- The database without those tables.
abbrev mask : Db → Db
mask db = record db { versions = []; movements = []; audits = []; outbox = []; uuids_drawn = 0 }

-- A statement about the other tables.
unfoldable pub OnData : (Db → Type 0) → Db → Type 0
OnData Q db = Q (mask db)

module _ (Q : Db → Type 0) where
  pub OnData-same : (db db' : Db) → mask db' ≡ mask db → OnData Q db → OnData Q db'
  unfolding OnData
  OnData-same db db' same s = subst Q (sym same) s

  pub lock_version-OnData : (type : String) (id : ℕ) → Keeps (OnData Q) (lock_version type id)
  lock_version-OnData type id = record {
    at = λ db v db' s h. OnData-same db db' (ap mask (lock_version-frame type id db db' v h)) s;
  }

  pub bump_version-OnData : (type : String) (id v : ℕ) → Keeps (OnData Q) (bump_version type id v)
  bump_version-OnData type id v = record {
    at = λ db n db' s h. OnData-same db db' (ap mask (bump_version-frame type id v db db' n h)) s;
  }

  pub audit-OnData : (c : Command) (a m t : String) (id : ℕ) → Keeps (OnData Q) (audit c a m t id)
  unfolding audit
  audit-OnData c a m t id = record {
    at = λ db v db' s h. OnData-same db db' (sym (ap mask (ok-state h))) s;
  }

  pub domain_event-OnData :
      (t a : String) (id : ℕ) (suffix : Option ℕ) → Keeps (OnData Q) (domain_event t a id suffix)
  unfolding domain_event
  domain_event-OnData t a id suffix = record {
    at = λ db v db' s h. OnData-same db db' (ground arith) s;
  }

  pub draw_uuid-OnData : (c : Command) → Keeps (OnData Q) (draw_uuid c)
  unfolding draw_uuid
  draw_uuid-OnData c = record {
    at = λ db v db' s h. OnData-same db db' (sym (ap mask (ok-state h))) s;
  }

  pub insert_movement-OnData : (m : Movement) → Keeps (OnData Q) (insert_movement m)
  unfolding insert_movement
  insert_movement-OnData m = record { at = λ db v db' s h. OnData-same db db' (ground arith) s }

  pub require_warehouse_scope-OnData :
      (a : AccessContext) (id : ℕ) → Keeps (OnData Q) (require_warehouse_scope a id)
  unfolding require_warehouse_scope
  require_warehouse_scope-OnData a id = search keeps_rules

  pub require_entity_scope-OnData :
      (a : AccessContext) (t : EntityType) (id : Option ℕ)
      → Keeps (OnData Q) (require_entity_scope a t id)
  unfolding require_entity_scope
  require_entity_scope-OnData a historical id = search keeps_rules
  require_entity_scope-OnData a _ id = search keeps_rules

  pub lock_warehouse_freeze-OnData : (id : ℕ) → Keeps (OnData Q) (lock_warehouse_freeze id)
  unfolding lock_warehouse_freeze
  lock_warehouse_freeze-OnData id = lock_version-OnData "warehouse_inventory_freeze" id

  pub freeze_exists-OnData :
      (id : ℕ) (sku : Option String) → Keeps (OnData Q) (freeze_exists id sku)
  unfolding freeze_exists
  freeze_exists-OnData id sku = search (keeps_rules, lock_version-OnData)

pub ruleset data_rules = (
  keeps_rules, lock_version-OnData, bump_version-OnData, audit-OnData, domain_event-OnData,
  draw_uuid-OnData, insert_movement-OnData, require_warehouse_scope-OnData,
  require_entity_scope-OnData, lock_warehouse_freeze-OnData, freeze_exists-OnData,
)
