-- ===== src/Production/Reserved.antt =====
-- Consuming and releasing the stock that a production order has reserved (consumeReservedInventory and
-- the loop of releaseReservedMaterials of apps/api/src/modules/production-orders/writes.ts). The rows
-- that lockActiveReservations has read and locked are an argument.
pub mod Ready
pub mod Whole
pub mod Laws
mod Tests
use topology_supply_chain.Common.{
  ℕ, String, Bool, true, false, ◌&&◌, List, [], ◌∷◌, ◌==◌, if◌then◌else◌,
}
use topology_supply_chain.Common.Int.{ℤ, pos, ◌+ℤ◌, ◌-ℤ◌, leb_ℤ, eq_ℤ, min_ℤ}
use topology_supply_chain.Platform.Failure.{conflict, stale}
use topology_supply_chain.Platform.Tx.{Tx, ok, fail, pure, throw_if, skip, ◌>>=◌, ◌>>◌}
use topology_supply_chain.Sql.{update}
use topology_supply_chain.Ops.Access.{Command}
use topology_supply_chain.Ops.Events.{draw_uuid}
use topology_supply_chain.Ops.Store.{
  Db, Batch, Reservation, ReservationStatus, active, released, consumed, Movement, MovementType,
  production_consumption, production_release, SourceKey, consumption_key, release_key,
}
use topology_supply_chain.Inventory.Rows.{insert_movement}

-- A row that lockActiveReservations returns.
pub record PoolRow : Type 0 where
  pub id : ℕ
  pub batch_id : ℕ
  pub reserved_quantity : ℤ
  pub warehouse_id : ℕ
  pub sku : String

abbrev pub is_active : ReservationStatus → Bool
is_active active = true
is_active _ = false

-- SET reserved_quantity = reserved_quantity - ?, status = CASE WHEN reserved_quantity = 0 …: an
-- assignment of MySQL reads what the assignments before it wrote.
abbrev pub drawn_on : ℤ → Reservation → Reservation
drawn_on take r = record r {
  reserved_quantity = r.reserved_quantity -ℤ take;
  status = if eq_ℤ (r.reserved_quantity -ℤ take) (pos 0) then consumed else active;
}

abbrev pub can_draw : ℤ → Reservation → Bool
can_draw take r = is_active r.status && leb_ℤ take r.reserved_quantity

abbrev pub given_back : Reservation → Reservation
given_back r = record r { reserved_quantity = pos 0; status = released }

abbrev pub holds_still : ℤ → Reservation → Bool
holds_still remaining r = is_active r.status && eq_ℤ r.reserved_quantity remaining

abbrev pub unlocked_by : ℤ → Batch → Batch
unlocked_by take b = record b { locked_quantity = b.locked_quantity -ℤ take }

abbrev pub returned_by : ℤ → Batch → Batch
returned_by q b = record b {
  locked_quantity = b.locked_quantity -ℤ q;
  available_quantity = b.available_quantity +ℤ q;
}

abbrev pub has_locked : ℤ → Batch → Bool
has_locked q b = leb_ℤ q b.locked_quantity

-- An UPDATE of a reservation followed by one of its batch: each has to affect one row.
unfoldable pub update_both :
    ℕ
    → (Reservation → Bool)
    → (Reservation → Reservation)
    → ℕ
    → (Batch → Bool)
    → (Batch → Batch)
    → Tx Db (Unit {0})
update_both id guard f batch_id batch_guard g db =
    let (reservations, affected) = update id guard f db.reservations in
    let (batches, affected_batches) = update batch_id batch_guard g db.batches in
    if affected == 1
    then (if affected_batches == 1
        then ok (tt, record db { reservations = reservations; batches = batches })
        else fail (stale "Inventory changed concurrently"))
    else fail (stale "Reservation changed concurrently")

abbrev pub consumption : Command → PoolRow → ℤ → String → Movement
consumption c row take uuid = record {
  warehouse_id = row.warehouse_id;
  sku = row.sku;
  type = production_consumption;
  quantity = pos 0 -ℤ take;
  source_key = consumption_key uuid;
  created_by = c.access.user_id;
}

abbrev pub release : Command → PoolRow → ℤ → String → Movement
release c row quantity uuid = record {
  warehouse_id = row.warehouse_id;
  sku = row.sku;
  type = production_release;
  quantity = quantity;
  source_key = release_key uuid;
  created_by = c.access.user_id;
}

-- One step of the loop of consumeReservedInventory.
unfoldable pub draw_row : Command → PoolRow → ℤ → Tx Db (Unit {0})
unfolding update_both draw_uuid insert_movement
draw_row c row take = do
  update_both row.id (can_draw take) (drawn_on take) row.batch_id (has_locked take)
      (unlocked_by take)
  uuid ← draw_uuid c
  insert_movement (consumption c row take uuid)

-- The loop: what remains to be consumed.
unfoldable pub draw_rows : Command → List PoolRow → ℤ → Tx Db ℤ
unfolding draw_row
draw_rows c [] remaining = pure remaining
draw_rows c (row ∷ rows) remaining =
    let take = min_ℤ remaining row.reserved_quantity in
    let skipped = draw_rows c rows remaining in
    let drawn = draw_rows c rows (remaining -ℤ take) in
    if eq_ℤ remaining (pos 0)
    then pure remaining
    else if leb_ℤ row.reserved_quantity (pos 0)
    then skipped
    else draw_row c row take >> drawn

-- consumeReservedInventory
unfoldable pub consume_reserved : Command → List PoolRow → ℤ → Tx Db (Unit {0})
unfolding draw_rows
consume_reserved c rows quantity =
    if leb_ℤ quantity (pos 0)
    then skip
    else (draw_rows c rows quantity >>= λ remaining.
        throw_if (if eq_ℤ remaining (pos 0) then false else true)
          (conflict "Insufficient reserved inventory"))

-- One step of the loop of releaseReservedMaterials.
unfoldable pub release_row : Command → PoolRow → Tx Db (Unit {0})
unfolding update_both draw_uuid insert_movement
release_row c row = do
  let q = row.reserved_quantity
  update_both row.id (holds_still q) given_back row.batch_id (has_locked q) (returned_by q)
  uuid ← draw_uuid c
  insert_movement (release c row q uuid)

unfoldable pub release_rows : Command → List PoolRow → ℤ → Tx Db ℤ
unfolding release_row
release_rows c [] total = pure total
release_rows c (row ∷ rows) total =
    let skipped = release_rows c rows total in
    let done = release_rows c rows (total +ℤ row.reserved_quantity) in
    if leb_ℤ row.reserved_quantity (pos 0) then skipped else release_row c row >> done

unfoldable pub is_empty : List PoolRow → Bool
is_empty [] = true
is_empty (row ∷ rows) = false

-- releaseReservedMaterials, from the rows on.
unfoldable pub release_reserved : Command → List PoolRow → Tx Db ℤ
unfolding release_rows is_empty
release_reserved c rows = do
  throw_if (is_empty rows) (conflict "No active reservations to release")
  total ← release_rows c rows (pos 0)
  throw_if (leb_ℤ total (pos 0)) (conflict "No positive reserved quantity to release")
  pure total
