-- ===== src/Inventory/Reserve.antt =====
-- Reserving stock of a batch for a business entity (reserveInventory of
-- apps/api/src/modules/inventory/writes.ts).
pub mod Laws
use topology_supply_chain.Common.{
  ℕ, String, Bool, true, false, not, ◌&&◌, ◌||◌, Option, none, some, List, [], ◌∷◌, ◌==◌, is_some,
  if◌then◌else◌,
}
use topology_supply_chain.Common.Int.{ℤ, pos, negsuc, ◌+ℤ◌, ◌-ℤ◌, ltb_ℤ, leb_ℤ, min_ℤ, max_ℤ}
use topology_supply_chain.Platform.Failure.{bad, missing, conflict, stale}
use topology_supply_chain.Platform.Tx.{
  Tx, Outcome, ok, fail, pure, throw, gets, or_throw, lift, throw_if, skip, ◌>>=◌, ◌>>◌,
}
use topology_supply_chain.Sql.{find, adjust, update, insert}
use topology_supply_chain.Ops.Access.{Command, require_role}
use topology_supply_chain.Ops.Values.{
  JsValue, undefined, integer, integer_from, optional_integer, is_text,
}
use topology_supply_chain.Ops.Versions.{lock_version}
use topology_supply_chain.Ops.Events.{audit, domain_event}
use topology_supply_chain.Ops.Store.{
  Db, Batch, Reservation, EntityType, purchase_order, production_order, shipment_plan, historical,
  ExpiryStatus, expired_frozen, ReservationStatus,
}
use topology_supply_chain.Inventory.Freeze.{lock_warehouse_freeze, freeze_exists}
use topology_supply_chain.Inventory.Scope.{require_warehouse_scope, require_entity_scope}

-- The body of the request.
pub record ReserveBody : Type 0 where
  pub batch_id : JsValue
  pub entity_type : JsValue
  pub entity_id : JsValue
  pub requested_quantity : JsValue
  pub priority : JsValue

-- oneOf on the entity type
entity_type_of : JsValue → Outcome EntityType
entity_type_of value =
    if is_text "purchase_order" value
    then ok purchase_order
    else if is_text "production_order" value
    then ok production_order
    else if is_text "shipment_plan" value
    then ok shipment_plan
    else if is_text "historical" value
    then ok historical
    else fail (bad "Invalid entityType")

is_historical : EntityType → Bool
is_historical historical = true
is_historical _ = false

is_expired : ExpiryStatus → Bool
is_expired expired_frozen = true
is_expired _ = false

priority_of : JsValue → Outcome ℤ
priority_of undefined = ok (pos 0)
priority_of value = integer_from (negsuc 999) value "Invalid priority"

-- The validated request.
pub record ReserveRequest : Type 0 where
  pub batch_id : ℕ
  pub entity_type : EntityType
  pub entity_id : Option ℕ
  pub requested_quantity : ℕ
  pub priority : ℤ

unfoldable pub read_request : ReserveBody → Tx Db ReserveRequest
unfolding integer optional_integer entity_type_of priority_of is_historical
read_request body = do
  batch_id ← lift (integer 1 body.batch_id "Invalid batchId")
  entity_type ← lift (entity_type_of body.entity_type)
  entity_id ← lift (optional_integer body.entity_id "Invalid entityId")
  requested_quantity ← lift (integer 1 body.requested_quantity "Invalid requestedQuantity")
  priority ← lift (priority_of body.priority)
  throw_if (not (is_historical entity_type) && not (is_some entity_id))
      (bad "Business entity is required")
  pure (record {
    batch_id = batch_id;
    entity_type = entity_type;
    entity_id = entity_id;
    requested_quantity = requested_quantity;
    priority = priority;
  })

-- UPDATE inventory_batches SET available_quantity = available_quantity - ?,
-- locked_quantity = locked_quantity + ? WHERE id = ? AND available_quantity >= ?
abbrev locked_by : ℤ → Batch → Batch
locked_by quantity b = record b {
  available_quantity = b.available_quantity -ℤ quantity;
  locked_quantity = b.locked_quantity +ℤ quantity;
}

unfoldable pub lock_stock : ℕ → ℤ → Tx Db (Unit {0})
lock_stock batch_id quantity db =
    let (batches, affected) =
      update batch_id (λ b. leb_ℤ quantity b.available_quantity) (locked_by quantity) db.batches in
    if affected == 1
    then ok (tt, record db { batches = batches })
    else fail (stale "Inventory changed concurrently")

-- INSERT INTO inventory_reservations
unfoldable pub insert_reservation : Reservation → Tx Db ℕ
insert_reservation r db =
    let (reservations, id) = insert r db.reservations in
    ok (id, record db { reservations = reservations })

pub record ReserveResult : Type 0 where
  pub id : ℕ
  pub batch_id : ℕ
  pub requested_quantity : ℤ
  pub reserved_quantity : ℤ
  pub shortage_quantity : ℤ

-- What of the request can be reserved now.
abbrev reservable : ℤ → Batch → ℤ
reservable requested batch = min_ℤ requested (max_ℤ (pos 0) batch.available_quantity)

-- The row of a reservation.
abbrev new_reservation : Command → ReserveRequest → (reserved : ℤ) → Reservation
new_reservation c q reserved = record {
  batch_id = q.batch_id;
  entity_type = q.entity_type;
  entity_id = q.entity_id;
  requested_quantity = pos q.requested_quantity;
  reserved_quantity = reserved;
  shortage_quantity = pos q.requested_quantity -ℤ reserved;
  priority = q.priority;
  status = ReservationStatus.active;
  created_by = c.access.user_id;
}

-- The writes of a reservation: lock what there is, and record the reservation and the shortage.
unfoldable pub hold : Command → ReserveRequest → Batch → Tx Db ReserveResult
unfolding lock_stock insert_reservation
hold c q batch = do
  let reserved = reservable (pos q.requested_quantity) batch
  if ltb_ℤ (pos 0) reserved then lock_stock q.batch_id reserved else skip
  id ← insert_reservation (new_reservation c q reserved)
  pure (record {
    id = id;
    batch_id = q.batch_id;
    requested_quantity = pos q.requested_quantity;
    reserved_quantity = reserved;
    shortage_quantity = pos q.requested_quantity -ℤ reserved;
  })

-- The batch that the request names, locked against stocktakes and read again.
unfoldable pub locked_batch : ℕ → Tx Db Batch
unfolding lock_warehouse_freeze
locked_batch batch_id = do
  seen ← gets (λ db. find batch_id db.batches.rows)
  first ← or_throw seen (missing "Inventory batch not found")
  lock_warehouse_freeze first.warehouse_id
  again ← gets (λ db. find batch_id db.batches.rows)
  or_throw again (stale "Inventory batch changed concurrently")

-- The checks between the locks and the writes.
unfoldable pub require_reservable : Command → ReserveRequest → Batch → Tx Db (Unit {0})
unfolding require_warehouse_scope require_entity_scope freeze_exists is_expired
require_reservable c q batch = do
  require_warehouse_scope c.access batch.warehouse_id
  require_entity_scope c.access q.entity_type q.entity_id
  frozen ← freeze_exists batch.warehouse_id (some batch.sku)
  throw_if frozen (conflict "Inventory is frozen by an active stocktake")
  throw_if (is_expired batch.expiry_status || ltb_ℤ (pos 0) batch.quarantine_quantity)
      (conflict "Frozen or quarantined inventory cannot be reserved")

-- reserveInventory; a body that is no object is `none`.
unfoldable pub reserve_inventory : Command → Option ReserveBody → Tx Db ReserveResult
unfolding read_request locked_batch require_reservable hold audit domain_event
reserve_inventory c raw = do
  require_role c.access ("admin" ∷ "supply_chain" ∷ "factory" ∷ [])
  body ← or_throw raw (bad "Invalid request body")
  q ← read_request body
  batch ← locked_batch q.batch_id
  require_reservable c q batch
  result ← hold c q batch
  audit c "reserve" "inventory" "inventory_reservation" result.id
  domain_event
      (if ltb_ℤ (pos 0) result.shortage_quantity
        then "InventoryShortageDetected"
        else "InventoryReserved")
      "inventory_reservation" result.id none
  pure result
