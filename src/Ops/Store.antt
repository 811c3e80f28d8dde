-- ===== src/Ops/Store.antt =====
-- The tables that the operations commands read and write (database/runtime/schema.ts), with the
-- columns that the modelled statements use. A date is the number of its day, so that the order of ISO
-- dates is the order of numbers. Quantities are signed, as their columns are. The times of creation
-- and update, which only the database writes, are left out.
use topology_supply_chain.Common.{ℕ, String, Bool, Option, List}
use topology_supply_chain.Common.Int.{ℤ}
use topology_supply_chain.Sql.{Table}

pub data Ownership : Type 0 where
  company factory_owned : Ownership

pub data ExpiryStatus : Type 0 where
  normal yellow red expired_frozen : ExpiryStatus

-- inventory_batches
pub record Batch : Type 0 where
  pub batch_no : String
  pub warehouse_id : ℕ
  pub sku : String
  pub inbound_date : ℕ
  pub expiry_date : Option ℕ
  pub available_quantity : ℤ
  pub locked_quantity : ℤ
  pub pending_inspection_quantity : ℤ
  pub quarantine_quantity : ℤ
  pub ownership : Ownership
  pub expiry_status : ExpiryStatus

pub data EntityType : Type 0 where
  purchase_order production_order shipment_plan historical : EntityType

pub data ReservationStatus : Type 0 where
  active released consumed : ReservationStatus

-- inventory_reservations
pub record Reservation : Type 0 where
  pub batch_id : ℕ
  pub entity_type : EntityType
  pub entity_id : Option ℕ
  pub requested_quantity : ℤ
  pub reserved_quantity : ℤ
  pub shortage_quantity : ℤ
  pub priority : ℤ
  pub status : ReservationStatus
  pub created_by : ℕ

pub data TransferStatus : Type 0 where
  pending_supply_chain approved rejected shipped received : TransferStatus

-- inventory_transfers
pub record Transfer : Type 0 where
  pub transfer_no : String
  pub from_warehouse_id : ℕ
  pub to_warehouse_id : ℕ
  pub sku : String
  pub quantity : ℤ
  pub reason : String
  pub status : TransferStatus
  pub requested_by : ℕ

pub data MovementType : Type 0 where
  inbound shipment transfer_out transfer_in adjustment : MovementType
  production_consumption production_release inbound_pending_inspection : MovementType
  inspection_pass inspection_fail : MovementType

-- The unique source_key of a movement. Each constructor is one of the source's text templates, with
-- the values that it is filled with.
pub data SourceKey : Type 0 where
  transfer_key : (id : ℕ) → (outward : Bool) → SourceKey  -- transfer:${id}:out, transfer:${id}:in
  consumption_key : String → SourceKey  -- production_consumption:${uuid}
  release_key : String → SourceKey  -- production_release:${uuid}
  receipt_key : ℕ → SourceKey  -- purchase_receipt:${id}

-- inventory_movements
pub record Movement : Type 0 where
  pub warehouse_id : ℕ
  pub sku : String
  pub type : MovementType
  pub quantity : ℤ
  pub source_key : SourceKey
  pub created_by : ℕ

pub data WarehouseStatus : Type 0 where
  active inactive : WarehouseStatus

-- warehouses
pub record Warehouse : Type 0 where
  pub factory_id : Option ℕ
  pub status : WarehouseStatus

pub data StocktakeScope : Type 0 where
  full_warehouse sku_sample batch_scope : StocktakeScope

pub data StocktakeStatus : Type 0 where
  draft frozen first_count recount pending_approval completed : StocktakeStatus

-- stocktakes
pub record Stocktake : Type 0 where
  pub warehouse_id : ℕ
  pub scope : StocktakeScope
  pub status : StocktakeStatus

-- stocktake_counts
pub record StocktakeCount : Type 0 where
  pub stocktake_id : ℕ
  pub sku : String
  pub count_round : ℕ

-- execution_orders: the production orders
pub record ExecutionOrder : Type 0 where
  pub order_item_id : ℕ
  pub factory_id : ℕ

-- delivery_batches: the shipments
pub record DeliveryBatch : Type 0 where
  pub execution_order_id : ℕ

-- order_items
pub record OrderItem : Type 0 where
  pub purchase_order_id : ℕ

-- resource_versions
pub record Version : Type 0 where
  pub resource_type : String
  pub resource_id : ℕ
  pub version : ℕ

-- approval_requests
pub record ApprovalRequest : Type 0 where
  pub request_no : String
  pub workflow_type : String
  pub entity_type : String
  pub entity_id : ℕ
  pub pending : Bool
  pub requested_by : ℕ

-- An entry of the audit log; the JSON of the values before and after is left out.
pub record AuditEntry : Type 0 where
  pub action : String
  pub module_name : String
  pub entity_type : String
  pub entity_id : ℕ
  pub user_id : ℕ

-- The deduplication key of a domain event, r3:${type}:${aggregateType}:${aggregateId}:${suffix}.
pub record EventKey : Type 0 where
  pub event_type : String
  pub aggregate_type : String
  pub aggregate_id : ℕ
  pub suffix : Option ℕ

pub record Db : Type 0 where
  pub batches : Table Batch
  pub reservations : Table Reservation
  pub transfers : Table Transfer
  pub movements : List Movement
  pub warehouses : Table Warehouse
  pub stocktakes : Table Stocktake
  pub stocktake_counts : List StocktakeCount
  pub execution_orders : Table ExecutionOrder
  pub delivery_batches : Table DeliveryBatch
  pub order_items : Table OrderItem
  pub purchase_orders : List ℕ  -- the ids of purchase_orders
  pub approvals : Table ApprovalRequest
  pub versions : List Version
  pub audits : List AuditEntry
  pub outbox : List EventKey
  pub uuids_drawn : ℕ  -- how many values of randomUUID the process has drawn
