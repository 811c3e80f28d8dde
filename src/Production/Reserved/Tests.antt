-- ===== src/Production/Reserved/Tests.antt =====
-- The theorems on reserved stock at one batch with one reservation.
use topology_supply_chain.Common.{◌≡◌, refl, none, some, [], ◌∷◌, arith, ◌==◌, Bool-cases, inl, inr}
use topology_supply_chain.Common.Int.{pos, ◌+ℤ◌, ◌-ℤ◌}
use topology_supply_chain.Platform.Tx.{ok, fail}
use topology_supply_chain.Sql.Laws.{sum_by}
use topology_supply_chain.Ops.Store.{
  Db, Batch, Reservation, Ownership, ExpiryStatus, EntityType, ReservationStatus,
}
use topology_supply_chain.Ops.Access.{Command}
use topology_supply_chain.Ops.Samples.{empty}
use topology_supply_chain.Inventory.Stock.{IsStocked}
use topology_supply_chain.Production.Reserved.{PoolRow, consume_reserved, release_reserved}
use topology_supply_chain.Production.Reserved.Ready.{locked_stock}
use topology_supply_chain.Production.Reserved.Whole.{whole_stock}
use topology_supply_chain.Production.Reserved.Laws.{consume_takes_quantity, release_returns_total}

abbrev batch : Batch
batch = record {
  batch_no = "B-1";
  warehouse_id = 3;
  sku = "FOAM";
  inbound_date = 20000;
  expiry_date = none;
  available_quantity = pos 4;
  locked_quantity = pos 5;
  pending_inspection_quantity = pos 0;
  quarantine_quantity = pos 0;
  ownership = Ownership.company;
  expiry_status = ExpiryStatus.normal;
}

abbrev reservation : Reservation
reservation = record {
  batch_id = 7;
  entity_type = EntityType.production_order;
  entity_id = some 9;
  requested_quantity = pos 5;
  reserved_quantity = pos 5;
  shortage_quantity = pos 0;
  priority = pos 0;
  status = ReservationStatus.active;
  created_by = 2;
}

abbrev before : Db
before = record empty {
  batches = record { rows = (7, batch) ∷ []; next_id = 8 };
  reservations = record { rows = (1, reservation) ∷ []; next_id = 2 };
}

abbrev worker : Command
worker = record {
  access = record { user_id = 2; roles = "factory" ∷ []; factory_id = some 5; supplier_id = none };
  random_uuid = λ n. "uuid";
  today = 20100;
}

abbrev row : PoolRow
row = record { id = 1; batch_id = 7; reserved_quantity = pos 5; warehouse_id = 3; sku = "FOAM" }

before-IsStocked : IsStocked before
unfolding ◌+ℤ◌
before-IsStocked = record {
  counts = omega arith;
  reserved = omega arith;
  balanced = λ id. elim (Bool-cases (7 == id)) [ inl e ↦ rw e refl | inr e ↦ rw e refl ];
  fresh = omega arith;
}

after_use : Db
unfolding consume_reserved ◌+ℤ◌ ◌-ℤ◌
after_use = elim (consume_reserved worker (row ∷ []) (pos 2) before) [
  | ok (u, db) ↦ db
  | fail e ↦ before
]

consume_takes_quantity_example :
    IsStocked after_use × (sum_by locked_stock after_use.batches.rows +ℤ pos 2 ≡ pos 5 +ℤ pos 0)
unfolding consume_reserved ◌+ℤ◌ ◌-ℤ◌ after_use
consume_takes_quantity_example =
    consume_takes_quantity worker (row ∷ []) (pos 2) before after_use tt before-IsStocked
      ((reservation, refl, refl), tt) refl refl

after_release : Db
unfolding release_reserved ◌+ℤ◌ ◌-ℤ◌
after_release = elim (release_reserved worker (row ∷ []) before) [
  | ok (n, db) ↦ db
  | fail e ↦ before
]

release_returns_total_example :
    IsStocked after_release
    × (sum_by locked_stock after_release.batches.rows +ℤ pos 5 ≡ pos 5 +ℤ pos 0)
    × (sum_by whole_stock after_release.batches.rows ≡ pos 9)
unfolding release_reserved ◌+ℤ◌ ◌-ℤ◌ after_release
release_returns_total_example =
    release_returns_total worker (row ∷ []) (pos 5) before after_release before-IsStocked
      ((reservation, refl, refl), tt) refl
