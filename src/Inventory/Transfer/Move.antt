-- ===== src/Inventory/Transfer/Move.antt =====
-- What a transition of a transfer does to the stock: the two branches of transitionTransfer
-- (apps/api/src/modules/inventory/writes.ts).
use topology_supply_chain.Common.{
  ℕ, str_eq, Bool, true, false, not, ◌&&◌, Option, none, some, List, [], ◌∷◌, ltb, ◌==◌,
  if◌then◌else◌,
}
use topology_supply_chain.Common.Int.{ℤ, pos, ◌-ℤ◌, ltb_ℤ, leb_ℤ, eq_ℤ, min_ℤ}
use topology_supply_chain.Platform.Failure.{conflict, stale}
use topology_supply_chain.Platform.Tx.{Tx, ok, fail, gets, throw_if, skip, ◌>>=◌, ◌>>◌}
use topology_supply_chain.Sql.{update, select, order_by}
use topology_supply_chain.Ops.Access.{Command}
use topology_supply_chain.Ops.Store.{
  Db, Batch, Movement, Transfer, TransferStatus, pending_supply_chain, approved, rejected, shipped,
  received, Ownership, company, factory_owned, ExpiryStatus, normal, expired_frozen, transfer_out,
  transfer_in, transfer_key,
}
use topology_supply_chain.Inventory.Rows.{insert_movement, insert_batch}
use topology_supply_chain.Inventory.Transfer.Request.{append}

pub data TransferAction : Type 0 where
  ship receive : TransferAction

-- The guard of a transition, and where it leads.
abbrev pub status_before : TransferAction → TransferStatus
status_before ship = approved
status_before receive = shipped

abbrev pub status_after : TransferAction → TransferStatus
status_after ship = shipped
status_after receive = received

abbrev pub has_status : TransferStatus → TransferStatus → Bool
has_status pending_supply_chain pending_supply_chain = true
has_status approved approved = true
has_status rejected rejected = true
has_status shipped shipped = true
has_status received received = true
has_status _ _ = false

-- UPDATE inventory_transfers SET status = … WHERE id = ? AND status = …
abbrev pub moved : TransferAction → Transfer → Transfer
moved action t = record t { status = status_after action }

unfoldable pub claim : TransferAction → ℕ → Tx Db (Unit {0})
claim action id db =
    let (transfers, affected) =
      update id (λ (t : Transfer). has_status (status_before action) t.status) (moved action)
        db.transfers in
    if affected == 1
    then ok (tt, record db { transfers = transfers })
    else fail (stale "Transfer changed concurrently")

is_company : Ownership → Bool
is_company company = true
is_company factory_owned = false

is_frozen_batch : ExpiryStatus → Bool
is_frozen_batch expired_frozen = true
is_frozen_batch _ = false

-- The WHERE clause of the batches that a shipment may take from.
unfoldable pub is_eligible : Transfer → ℕ × Batch → Bool
unfolding is_company is_frozen_batch
is_eligible t e =
    e.1.warehouse_id == t.from_warehouse_id
    && (str_eq e.1.sku t.sku
        && (is_company e.1.ownership
            && (ltb_ℤ (pos 0) e.1.available_quantity
                && (not (is_frozen_batch e.1.expiry_status)
                    && eq_ℤ e.1.quarantine_quantity (pos 0)))))

-- A date that is NULL comes before all others.
earlier : Option ℕ → Option ℕ → Bool
earlier none none = false
earlier none (some d) = true
earlier (some d) none = false
earlier (some d) (some e) = ltb d e

-- ORDER BY expiry_date ASC, inbound_date ASC, id ASC
unfoldable pub leaves_first : ℕ × Batch → ℕ × Batch → Bool
unfolding earlier
leaves_first a b =
    if earlier a.1.expiry_date b.1.expiry_date
    then true
    else if earlier b.1.expiry_date a.1.expiry_date
    then false
    else if ltb a.1.inbound_date b.1.inbound_date
    then true
    else if ltb b.1.inbound_date a.1.inbound_date
    then false
    else ltb a.0 b.0

unfoldable pub candidates : Transfer → Db → List (ℕ × Batch)
unfolding is_eligible leaves_first
candidates t db = order_by leaves_first (select (is_eligible t) db.batches.rows)

-- The loop over the batches: what is taken from each, and what remains.
unfoldable pub deductions : ℤ → List (ℕ × Batch) → List (ℕ × ℤ) × ℤ
deductions remaining [] = ([], remaining)
deductions remaining ((id, b) ∷ batches) =
    let quantity = min_ℤ remaining b.available_quantity in
    let (rest, left) = deductions (remaining -ℤ quantity) batches in
    if eq_ℤ remaining (pos 0) then ([], remaining) else ((id, quantity) ∷ rest, left)

-- UPDATE inventory_batches SET available_quantity = available_quantity - ?
-- WHERE id = ? AND available_quantity >= ?
abbrev pub taken_from : ℤ → Batch → Batch
taken_from quantity b = record b { available_quantity = b.available_quantity -ℤ quantity }

unfoldable pub deduct : ℕ → ℤ → Tx Db (Unit {0})
deduct id quantity db =
    let (batches, affected) =
      update id (λ b. leb_ℤ quantity b.available_quantity) (taken_from quantity) db.batches in
    if affected == 1
    then ok (tt, record db { batches = batches })
    else fail (stale "Inventory changed concurrently")

unfoldable pub deduct_all : List (ℕ × ℤ) → Tx Db (Unit {0})
unfolding deduct
deduct_all [] = skip
deduct_all ((id, quantity) ∷ ds) = deduct id quantity >> deduct_all ds

-- The movement that records the shipment.
abbrev pub outgoing : Command → ℕ → Transfer → Movement
outgoing c id t = record {
  warehouse_id = t.from_warehouse_id;
  sku = t.sku;
  type = transfer_out;
  quantity = pos 0 -ℤ t.quantity;
  source_key = transfer_key id true;
  created_by = c.access.user_id;
}

-- The writes of the branch of `ship`.
unfoldable pub ship_writes : Command → ℕ → Transfer → List (ℕ × ℤ) → Tx Db (Unit {0})
unfolding claim deduct_all insert_movement
ship_writes c id t ds = do claim ship id; deduct_all ds; insert_movement (outgoing c id t)

-- The plan has to cover the transfer.
unfoldable pub ship_planned : Command → ℕ → Transfer → List (ℕ × ℤ) × ℤ → Tx Db (Unit {0})
unfolding ship_writes
ship_planned c id t plan = do
  throw_if (not (eq_ℤ plan.1 (pos 0))) (conflict "Insufficient available inventory")
  ship_writes c id t plan.0

-- The branch of `ship`.
unfoldable pub ship_transfer : Command → ℕ → Transfer → Tx Db (Unit {0})
unfolding candidates deductions ship_planned
ship_transfer c id t = do
  throw_if (not (has_status approved t.status)) (conflict "Transfer is not approved")
  batches ← gets (candidates t)
  ship_planned c id t (deductions t.quantity batches)

-- The batch that arrives.
unfoldable pub arriving : Command → Transfer → Batch
unfolding append
arriving c t = record {
  batch_no = append t.transfer_no "-IN";
  warehouse_id = t.to_warehouse_id;
  sku = t.sku;
  inbound_date = c.today;
  expiry_date = none;
  available_quantity = t.quantity;
  locked_quantity = pos 0;
  pending_inspection_quantity = pos 0;
  quarantine_quantity = pos 0;
  ownership = company;
  expiry_status = normal;
}

-- The movement that records the arrival.
abbrev pub incoming : Command → ℕ → Transfer → Movement
incoming c id t = record {
  warehouse_id = t.to_warehouse_id;
  sku = t.sku;
  type = transfer_in;
  quantity = t.quantity;
  source_key = transfer_key id false;
  created_by = c.access.user_id;
}

-- The writes of the branch of `receive`.
unfoldable pub receive_writes : Command → ℕ → Transfer → Tx Db (Unit {0})
unfolding claim insert_batch arriving insert_movement
receive_writes c id t = do
  claim receive id
  insert_batch (arriving c t)
  insert_movement (incoming c id t)

-- The branch of `receive`.
unfoldable pub receive_transfer : Command → ℕ → Transfer → Tx Db (Unit {0})
unfolding receive_writes
receive_transfer c id t = do
  throw_if (not (has_status shipped t.status)) (conflict "Only shipped transfers can be received")
  receive_writes c id t

abbrev pub move_stock : Command → TransferAction → ℕ → Transfer → Tx Db (Unit {0})
move_stock c ship id t = ship_transfer c id t
move_stock c receive id t = receive_transfer c id t
