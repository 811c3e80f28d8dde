-- ===== src/Inventory/Scope.antt =====
-- Which warehouses and business entities a caller may touch (requireWarehouseScope of
-- apps/api/src/modules/warehouses/support.ts, requireReservationEntityScope of
-- apps/api/src/modules/inventory/writes.ts).
use topology_supply_chain.Common.{
  ℕ, Bool, true, false, not, ◌&&◌, ◌||◌, Option, none, some, any, ◌==◌,
}
use topology_supply_chain.Platform.Failure.{bad, forbid, missing}
use topology_supply_chain.Platform.Tx.{Tx, pure, gets, or_throw, throw_if, ◌>>=◌, ◌>>◌}
use topology_supply_chain.Sql.{find}
use topology_supply_chain.Ops.Access.{AccessContext, internal, is_id, bound_to_factory}
use topology_supply_chain.Ops.Store.{
  Db, Warehouse, EntityType, purchase_order, production_order, shipment_plan, historical,
  ExecutionOrder, DeliveryBatch, OrderItem,
}

owns : AccessContext → Option ℕ → Bool
owns access none = false
owns access (some factory) = is_id access.factory_id factory

-- requireWarehouseScope
unfoldable pub require_warehouse_scope : AccessContext → ℕ → Tx Db Warehouse
unfolding owns
require_warehouse_scope access warehouse_id = do
  found ← gets (λ db. find warehouse_id db.warehouses.rows)
  warehouse ← or_throw found (missing "Warehouse not found")
  throw_if (not (internal access) && not (owns access warehouse.factory_id))
      (forbid "Forbidden warehouse scope")
  pure warehouse

uses_order : AccessContext → Option ExecutionOrder → Bool
unfolding bound_to_factory
uses_order access none = false
uses_order access (some eo) = bound_to_factory access eo.factory_id

uses_shipment : AccessContext → Db → Option DeliveryBatch → Bool
unfolding uses_order
uses_shipment access db none = false
uses_shipment access db (some d) =
    uses_order access (find d.execution_order_id db.execution_orders.rows)

-- The left joins of a purchase order give a row without an execution order too; only an internal
-- caller passes on such a row.
uses_purchase : AccessContext → Db → ℕ → Bool
uses_purchase access db id =
    any (λ i. i == id) db.purchase_orders
    && (internal access
        || any
            (λ (item : ℕ × OrderItem).
              item.1.purchase_order_id == id
              && any
                  (λ (eo : ℕ × ExecutionOrder).
                    eo.1.order_item_id == item.0 && is_id access.factory_id eo.1.factory_id)
                  db.execution_orders.rows)
            db.order_items.rows)

-- The rows of the scope query are not empty.
allowed : AccessContext → EntityType → ℕ → Db → Bool
unfolding uses_order uses_shipment uses_purchase
allowed access historical id db = true
allowed access production_order id db = uses_order access (find id db.execution_orders.rows)
allowed access shipment_plan id db = uses_shipment access db (find id db.delivery_batches.rows)
allowed access purchase_order id db = uses_purchase access db id

-- requireReservationEntityScope
unfoldable pub require_entity_scope : AccessContext → EntityType → Option ℕ → Tx Db (Unit {0})
unfolding allowed
require_entity_scope access historical entity_id =
    throw_if (not (internal access)) (forbid "Historical reservations require an internal role")
require_entity_scope access entity_type entity_id = do
  id ← or_throw entity_id (bad "Business entity is required")
  ok_row ← gets (allowed access entity_type id)
  throw_if (not ok_row) (forbid "Forbidden reservation entity binding")
