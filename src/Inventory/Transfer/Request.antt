-- ===== src/Inventory/Transfer/Request.antt =====
-- The request of a transfer between warehouses (requestTransfer of
-- apps/api/src/modules/inventory/writes.ts).
pub mod Laws
use topology_supply_chain.Common.{
  ℕ, String, str_eq, Bool, true, false, not, ◌&&◌, ◌||◌, Option, none, some, List, [], ◌∷◌, map,
  ltb, ◌==◌, if◌then◌else◌,
}
use topology_supply_chain.Common.Int.{ℤ, pos, ◌-ℤ◌, ltb_ℤ, leb_ℤ, eq_ℤ, min_ℤ}
use topology_supply_chain.Platform.Failure.{
  bad, missing, conflict, stale, database, operation_failed,
}
use topology_supply_chain.Platform.Tx.{
  Tx, Outcome, ok, fail, pure, throw, gets, or_throw, lift, throw_if, skip, ◌>>=◌, ◌>>◌,
}
use topology_supply_chain.Sql.{find, update, insert, select, order_by, taken}
use topology_supply_chain.Ops.Access.{Command, require_role}
use topology_supply_chain.Ops.Values.{JsValue, integer, string, is_text}
use topology_supply_chain.Ops.Versions.{lock_version, bump_version}
use topology_supply_chain.Ops.Events.{audit, domain_event, draw_uuid}
use topology_supply_chain.Ops.Store.{
  Db, Batch, Transfer, TransferStatus, pending_supply_chain, approved, rejected, shipped, received,
  Ownership, company, factory_owned, ExpiryStatus, normal, expired_frozen, MovementType,
  transfer_out, transfer_in, transfer_key, ApprovalRequest, Warehouse, WarehouseStatus,
}
use topology_supply_chain.Inventory.Rows.{insert_movement, insert_batch}
use topology_supply_chain.Inventory.Freeze.{freeze_exists}
use topology_supply_chain.Inventory.Scope.{require_warehouse_scope}

-- The body of a transfer request.
pub record TransferBody : Type 0 where
  pub from_warehouse_id : JsValue
  pub to_warehouse_id : JsValue
  pub sku : JsValue
  pub quantity : JsValue
  pub reason : JsValue

-- The validated request.
pub record TransferRequest : Type 0 where
  pub from_warehouse_id : ℕ
  pub to_warehouse_id : ℕ
  pub sku : String
  pub quantity : ℕ
  pub reason : String

-- The number of UTF-16 code units of a text is an argument (String.prototype.length).
unfoldable pub read_transfer : (String → ℕ) → TransferBody → Tx Db TransferRequest
unfolding integer string
read_transfer length_of body = do
  from_id ← lift (integer 1 body.from_warehouse_id "Invalid fromWarehouseId")
  to_id ← lift (integer 1 body.to_warehouse_id "Invalid toWarehouseId")
  sku ← lift (string length_of 191 body.sku "Invalid sku")
  quantity ← lift (integer 1 body.quantity "Invalid quantity")
  reason ← lift (string length_of 1000 body.reason "Invalid reason")
  throw_if (from_id == to_id) (bad "Warehouses must differ")
  pure (record {
    from_warehouse_id = from_id;
    to_warehouse_id = to_id;
    sku = sku;
    quantity = quantity;
    reason = reason;
  })

is_active : WarehouseStatus → Bool
is_active WarehouseStatus.active = true
is_active WarehouseStatus.inactive = false

-- Both warehouses exist and are active, and the caller may use the source.
unfoldable pub require_warehouses : Command → TransferRequest → Tx Db (Unit {0})
unfolding require_warehouse_scope is_active
require_warehouses c q = do
  source ← require_warehouse_scope c.access q.from_warehouse_id
  found ← gets (λ db. find q.to_warehouse_id db.warehouses.rows)
  target ← or_throw found (missing "Target warehouse not found")
  throw_if (not (is_active source.status) || not (is_active target.status))
      (conflict "Inactive warehouses cannot be transferred")

-- INSERT INTO inventory_transfers: the transfer number is unique.
unfoldable pub insert_transfer : Transfer → Tx Db ℕ
insert_transfer t db =
    if taken (λ (u : Transfer). str_eq u.transfer_no t.transfer_no) db.transfers.rows
    then fail (database operation_failed)
    else (let (transfers, id) = insert t db.transfers in
        ok (id, record db { transfers = transfers }))

-- INSERT INTO approval_requests: the request number is unique.
unfoldable pub insert_approval : ApprovalRequest → Tx Db ℕ
insert_approval a db =
    if taken (λ (b : ApprovalRequest). str_eq b.request_no a.request_no) db.approvals.rows
    then fail (database operation_failed)
    else (let (approvals, id) = insert a db.approvals in
        ok (id, record db { approvals = approvals }))

-- The template literals, with their texts as they stand in the source.
unfoldable pub append : String → String → String
append String.[] t = t
append (String.◌∷◌ c s) t = String.◌∷◌ c (append s t)

abbrev pub new_transfer : Command → TransferRequest → (transfer_no : String) → Transfer
new_transfer c q transfer_no = record {
  transfer_no = transfer_no;
  from_warehouse_id = q.from_warehouse_id;
  to_warehouse_id = q.to_warehouse_id;
  sku = q.sku;
  quantity = pos q.quantity;
  reason = q.reason;
  status = pending_supply_chain;
  requested_by = c.access.user_id;
}

-- The transfer of the answer.
pub record TransferAnswer : Type 0 where
  pub id : ℕ
  pub transfer_no : String
  pub from_warehouse_id : ℕ
  pub to_warehouse_id : ℕ
  pub sku : String
  pub quantity : ℕ
  pub reason : String
  pub status : TransferStatus

abbrev answer_of : TransferRequest → (id : ℕ) → (transfer_no : String) → TransferAnswer
answer_of q id transfer_no = record {
  id = id;
  transfer_no = transfer_no;
  from_warehouse_id = q.from_warehouse_id;
  to_warehouse_id = q.to_warehouse_id;
  sku = q.sku;
  quantity = q.quantity;
  reason = q.reason;
  status = pending_supply_chain;
}

-- requestTransfer
unfoldable pub request_transfer :
    (String → ℕ) → Command → Option TransferBody → Tx Db TransferAnswer
unfolding read_transfer require_warehouses draw_uuid append insert_transfer lock_version
    insert_approval audit domain_event
request_transfer length_of c raw = do
  require_role c.access ("admin" ∷ "supply_chain" ∷ "factory" ∷ [])
  body ← or_throw raw (bad "Invalid request body")
  q ← read_transfer length_of body
  require_warehouses c q
  uuid ← draw_uuid c
  let transfer_no = append "TR-" uuid
  id ← insert_transfer (new_transfer c q transfer_no)
  lock_version "inventory_transfer" id
  insert_approval (record {
    request_no = append "APR-" transfer_no;
    workflow_type = "warehouse_transfer";
    entity_type = "inventory_transfer";
    entity_id = id;
    pending = true;
    requested_by = c.access.user_id;
  })
  audit c "create" "inventory" "inventory_transfer" id
  domain_event "ApprovalRequested" "inventory_transfer" id none
  pure (answer_of q id transfer_no)
