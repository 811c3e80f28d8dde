-- ===== src/Inventory/Tests.antt =====
-- Runs of the stock operations on a small database, and the theorems at it.
use topology_supply_chain.Common.{◌≡◌, ◌≢◌, ◌↔◌, true}
use topology_supply_chain.Sql.{order_by, select}
use topology_supply_chain.Sql.Laws.{sum_by}
use topology_supply_chain.Common.Int.{eq_ℤ, ◌≤ℤ◌}
use topology_supply_chain.Common.{ℕ, refl, none, some, [], ◌∷◌, arith, ◌==◌, Bool-cases, inl, inr}
use topology_supply_chain.Common.Int.{ℤ, pos, ◌+ℤ◌, ◌-ℤ◌, is_safe_integer}
use topology_supply_chain.Platform.Tx.{Outcome, ok, fail}
use topology_supply_chain.Ops.Store.{Db, Batch, Warehouse, WarehouseStatus, Ownership, ExpiryStatus}
use topology_supply_chain.Ops.Access.{Command, has_role, internal}
use topology_supply_chain.Ops.Values.{JsValue, JsNumber}
use topology_supply_chain.Ops.Samples.{empty}
use topology_supply_chain.Inventory.Stock.{IsStocked}
use topology_supply_chain.Inventory.Reserve.{ReserveBody, ReserveResult, reserve_inventory}
use topology_supply_chain.Ops.Store.{Transfer, TransferStatus}
use topology_supply_chain.Inventory.Transfer.Move.{
  TransferAction, deductions, candidates, is_eligible,
}
use topology_supply_chain.Inventory.Transfer.Plan.{available, plan_covers}
use topology_supply_chain.Inventory.Transfer.Request.{
  TransferBody, TransferAnswer, request_transfer,
}
use topology_supply_chain.Inventory.Transfer.Request.Laws.{request_keeps_account}
use topology_supply_chain.Inventory.Transfer.Transition.{
  TransitionBody, TransitionResult, transition_transfer,
}
use topology_supply_chain.Inventory.Transfer.Conservation.{IsAccounted}
use topology_supply_chain.Inventory.Transfer.Outcome.{
  Transitioned, transition_transfer_lem, transition_once,
}
use topology_supply_chain.Inventory.Reserve.Laws.{reserve_keeps_stock}

abbrev batch : (available locked : ℤ) → Batch
batch available locked = record {
  batch_no = "B-1";
  warehouse_id = 3;
  sku = "PILLOW";
  inbound_date = 20000;
  expiry_date = none;
  available_quantity = available;
  locked_quantity = locked;
  pending_inspection_quantity = pos 0;
  quarantine_quantity = pos 0;
  ownership = Ownership.company;
  expiry_status = ExpiryStatus.normal;
}

abbrev warehouse : Warehouse
warehouse = record { factory_id = some 5; status = WarehouseStatus.active }

abbrev pub stocked : Db
stocked = record empty {
  batches = record { rows = (7, batch (pos 4) (pos 0)) ∷ []; next_id = 8 };
  warehouses = record { rows = (3, warehouse) ∷ []; next_id = 4 };
  execution_orders = record {
    rows = (9, record { order_item_id = 1; factory_id = 5 }) ∷ [];
    next_id = 10;
  };
}

abbrev pub planner : Command
planner = record {
  access = record {
    user_id = 2;
    roles = "supply_chain" ∷ [];
    factory_id = none;
    supplier_id = none;
  };
  random_uuid = λ n. "uuid";
  today = 20100;
}

abbrev number : ℕ → JsValue
number n = JsValue.number (JsNumber.int (pos n))

abbrev pub request : ReserveBody
request = record {
  batch_id = number 7;
  entity_type = JsValue.text "production_order" "production_order" JsNumber.other_number;
  entity_id = number 9;
  requested_quantity = number 6;
  priority = JsValue.undefined;
}

reserve_run : Outcome (ReserveResult × Db)
unfolding reserve_inventory is_safe_integer ◌+ℤ◌ ◌-ℤ◌
reserve_run = reserve_inventory planner (some request) stocked

pub stocked-IsStocked : IsStocked stocked
stocked-IsStocked = record {
  counts = omega arith;
  reserved = tt;
  balanced = λ id. elim (Bool-cases (7 == id)) [ inl e ↦ rw e | inr e ↦ rw e ];
  fresh = omega arith;
}

abbrev reserved : ReserveResult
reserved = record {
  id = 1;
  batch_id = 7;
  requested_quantity = pos 6;
  reserved_quantity = pos 4;
  shortage_quantity = pos 2;
}

-- The database after that reservation.
after_reserve : Db
unfolding reserve_inventory is_safe_integer ◌+ℤ◌ ◌-ℤ◌ reserve_run
after_reserve = elim reserve_run [ ok (r, db) ↦ db | fail e ↦ stocked ]

reserve_keeps_stock_example : IsStocked after_reserve
unfolding reserve_inventory is_safe_integer ◌+ℤ◌ ◌-ℤ◌ reserve_run after_reserve has_role internal
reserve_keeps_stock_example =
    reserve_keeps_stock planner (some request) stocked after_reserve reserved stocked-IsStocked refl

-- A transfer of 3 from the warehouse 3 to the warehouse 6 that is approved.
abbrev transfer : Transfer
transfer = record {
  transfer_no = "TR-1";
  from_warehouse_id = 3;
  to_warehouse_id = 6;
  sku = "PILLOW";
  quantity = pos 3;
  reason = "balance";
  status = TransferStatus.approved;
  requested_by = 2;
}

abbrev pub with_transfer : Db
with_transfer = record stocked { transfers = record { rows = (11, transfer) ∷ []; next_id = 12 } }

pub with_transfer-IsAccounted : IsAccounted (pos 4) with_transfer
unfolding ◌+ℤ◌
with_transfer-IsAccounted = record {
  stocked = stocked-IsStocked;
  quantities = omega arith;
  sum = refl;
}

abbrev pub shipment : TransitionBody
shipment = record { id = number 11; action = JsValue.text "ship" "ship" JsNumber.other_number }

abbrev was_shipped : TransitionResult
was_shipped = record { id = 11; action = TransferAction.ship; version = 2 }

after_shipment : Db
unfolding transition_transfer is_safe_integer ◌+ℤ◌ ◌-ℤ◌ has_role internal order_by
after_shipment = elim (transition_transfer planner (some shipment) with_transfer) [
  | ok (r, db) ↦ db
  | fail e ↦ with_transfer
]

transition_transfer_lem_example : Transitioned (pos 4) with_transfer was_shipped after_shipment
unfolding transition_transfer is_safe_integer ◌+ℤ◌ ◌-ℤ◌ after_shipment has_role internal order_by
transition_transfer_lem_example =
    transition_transfer_lem planner (some shipment) (pos 4) with_transfer after_shipment was_shipped
      with_transfer-IsAccounted refl

plan_covers_example :
    (eq_ℤ (deductions (pos 3) (candidates transfer with_transfer)).1 (pos 0) ≡ true)
    ↔ (pos 3 ≤ℤ sum_by available (select (is_eligible transfer) with_transfer.batches.rows))
plan_covers_example = plan_covers transfer with_transfer (omega arith)

abbrev pub wish : TransferBody
wish = record {
  from_warehouse_id = number 3;
  to_warehouse_id = number 6;
  sku = JsValue.text "PILLOW" "PILLOW" JsNumber.other_number;
  quantity = number 2;
  reason = JsValue.text "more" "more" JsNumber.other_number;
}

abbrev two_warehouses : Db
two_warehouses = record stocked {
  warehouses = record { rows = (3, warehouse) ∷ (6, warehouse) ∷ []; next_id = 7 };
}

two_warehouses-IsAccounted : IsAccounted (pos 4) two_warehouses
unfolding ◌+ℤ◌
two_warehouses-IsAccounted = record { stocked = stocked-IsStocked; quantities = tt; sum = refl }

abbrev asked : TransferAnswer
asked = record {
  id = 1;
  transfer_no = "TR-uuid";
  from_warehouse_id = 3;
  to_warehouse_id = 6;
  sku = "PILLOW";
  quantity = 2;
  reason = "more";
  status = TransferStatus.pending_supply_chain;
}

-- The length of every text is taken to be 4.
after_request : Db
unfolding request_transfer is_safe_integer ◌+ℤ◌ ◌-ℤ◌ has_role internal
after_request = elim (request_transfer (λ s. 4) planner (some wish) two_warehouses) [
  | ok (id, db) ↦ db
  | fail e ↦ two_warehouses
]

request_keeps_account_example : IsAccounted (pos 4) after_request
unfolding request_transfer is_safe_integer ◌+ℤ◌ ◌-ℤ◌ after_request has_role internal
request_keeps_account_example =
    request_keeps_account (λ s. 4) planner (some wish) (pos 4) two_warehouses after_request asked
      two_warehouses-IsAccounted refl

transition_once_example :
    transition_transfer planner (some shipment) after_shipment ≢ ok (was_shipped, with_transfer)
unfolding transition_transfer is_safe_integer ◌+ℤ◌ ◌-ℤ◌ after_shipment has_role internal order_by
transition_once_example =
    transition_once planner planner (some shipment) (some shipment) (pos 4) with_transfer
      after_shipment with_transfer was_shipped was_shipped with_transfer-IsAccounted refl refl refl
