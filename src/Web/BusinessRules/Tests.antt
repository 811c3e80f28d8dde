-- ===== src/Web/BusinessRules/Tests.antt =====
-- The rules of the web application at a batch and at a product.
use topology_supply_chain.Common.{◌≡◌, ◌≤◌, refl, false, none, [], ◌∷◌, arith}
use topology_supply_chain.Common.Int.{pos, ◌+ℤ◌, ◌-ℤ◌, leb_ℤ}
use topology_supply_chain.Platform.Tx.{ok, fail}
use topology_supply_chain.Ops.Access.{Command}
use topology_supply_chain.Ops.Samples.{empty}
use topology_supply_chain.Ops.Store.{Db, Batch, Ownership, ExpiryStatus, EntityType}
use topology_supply_chain.Inventory.Reserve.{ReserveRequest, hold}
use topology_supply_chain.Web.BusinessRules.{calculate_reservation, calculate_expiry_status}
use topology_supply_chain.Web.BusinessRules.Agreement.{reservation_agrees}
use topology_supply_chain.Web.BusinessRules.Expiry.{severity, expiry_worsens}

-- 100 days of life: after 60 of them it is yellow, after 80 red.
expiry_worsens_example : severity ExpiryStatus.yellow ≤ severity ExpiryStatus.red
unfolding calculate_expiry_status ◌+ℤ◌ ◌-ℤ◌
expiry_worsens_example =
    expiry_worsens (pos 0) (pos 100) (pos 60) (pos 80) ExpiryStatus.yellow ExpiryStatus.red refl
      refl (omega arith)

abbrev planner : Command
planner = record {
  access = record {
    user_id = 2;
    roles = "supply_chain" ∷ [];
    factory_id = none;
    supplier_id = none;
  };
  random_uuid = λ n. "uuid";
  today = 20100;
}

abbrev batch : Batch
batch = record {
  batch_no = "B-1";
  warehouse_id = 3;
  sku = "PILLOW";
  inbound_date = 20000;
  expiry_date = none;
  available_quantity = pos 4;
  locked_quantity = pos 0;
  pending_inspection_quantity = pos 0;
  quarantine_quantity = pos 0;
  ownership = Ownership.company;
  expiry_status = ExpiryStatus.normal;
}

abbrev wanted : ReserveRequest
wanted = record {
  batch_id = 7;
  entity_type = EntityType.historical;
  entity_id = none;
  requested_quantity = 6;
  priority = pos 100;
}

abbrev stocked : Db
stocked = record empty { batches = record { rows = (7, batch) ∷ []; next_id = 8 } }

after_hold : Db
unfolding hold ◌+ℤ◌ ◌-ℤ◌
after_hold = elim (hold planner wanted batch stocked) [ ok (r, t) ↦ t | fail e ↦ stocked ]

reservation_agrees_example : (pos 4 ≡ pos 4) × (pos 2 ≡ pos 2) × (false ≡ leb_ℤ (pos 2) (pos 0))
unfolding hold calculate_reservation ◌+ℤ◌ ◌-ℤ◌ after_hold
reservation_agrees_example =
    reservation_agrees planner wanted batch stocked after_hold
      (record {
        id = 1;
        batch_id = 7;
        requested_quantity = pos 6;
        reserved_quantity = pos 4;
        shortage_quantity = pos 2;
      })
      (record { reserved_quantity = pos 4; shortage_quantity = pos 2; can_reserve_in_full = false })
      refl refl
