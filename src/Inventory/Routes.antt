-- ===== src/Inventory/Routes.antt =====
-- The HTTP routes of the stock commands (route and its registrations in
-- apps/api/src/composition/operations-writes-manifest.ts, with the names and the writer resources of
-- packages/contracts/src/operations-writes.ts).
pub mod Laws
pub mod Account
mod Tests
use topology_supply_chain.Common.{ℕ, false, true, Option, String, List, [], ◌∷◌}
use topology_supply_chain.Platform.Tx.{Tx, Outcome}
use topology_supply_chain.Platform.Header.{Text, Header}
use topology_supply_chain.Platform.Canonical.{Json, keyword}
use topology_supply_chain.Platform.Transaction.{Network}
use topology_supply_chain.Platform.Journal.{Journal}
use topology_supply_chain.Platform.Idempotency.{Codec, ResponseStatus, Response}
use topology_supply_chain.Platform.Commands.{RequestChecks, Operation, execute_operations_command}
use topology_supply_chain.Ops.Store.{Db}
use topology_supply_chain.Ops.Access.{Command}
use topology_supply_chain.Inventory.Transfer.Request.{
  TransferBody, TransferAnswer, request_transfer,
}
use topology_supply_chain.Inventory.Transfer.Transition.{
  TransitionBody, TransitionResult, transition_transfer,
}
use topology_supply_chain.Inventory.Reserve.{ReserveBody, ReserveResult, reserve_inventory}

-- A request, as the platform and as a handler with bodies in `B` read it: the body as JSON and with its fields. It
-- comes with the values of randomUUID and the day (CURRENT_DATE) while it is handled.
pub record HttpRequest (B : Type 0) : Type 0 where
  pub key_header : Header
  pub digest_header : Header
  pub payload : Json
  pub body : Option B
  pub checks : RequestChecks
  pub random_uuid : ℕ → String
  pub today : ℕ

-- OperationsCommandName
pub data RouteName : Type 0 where
  approvals_post inventory_post transfers_post transfers_patch production_orders_post : RouteName
  production_orders_patch purchase_receipts_post quality_inspections_post stocktakes_post
        stocktakes_patch :
      RouteName
  shipments_post returns_post finance_post warehouses_post : RouteName

-- OPERATIONS_COMMANDS
unfoldable pub command_text : RouteName → String
command_text approvals_post = "approvals.decide"
command_text inventory_post = "inventory.reserve"
command_text transfers_post = "inventory.transfer.request"
command_text transfers_patch = "inventory.transfer.transition"
command_text production_orders_post = "manufacturing.order.create"
command_text production_orders_patch = "manufacturing.order.transition"
command_text purchase_receipts_post = "purchase.receive"
command_text quality_inspections_post = "quality.inspection.submit"
command_text stocktakes_post = "inventory.stocktake.open"
command_text stocktakes_patch = "inventory.stocktake.transition"
command_text shipments_post = "logistics.shipment.command"
command_text returns_post = "returns.command"
command_text finance_post = "finance.command"
command_text warehouses_post = "warehouses.command"

-- OPERATIONS_COMMAND_RESOURCES
unfoldable pub command_resource : RouteName → String
command_resource approvals_post = "r3.approvals.commands"
command_resource inventory_post = "r3.inventory.commands"
command_resource transfers_post = "r3.transfers.commands"
command_resource transfers_patch = "r3.transfers.commands"
command_resource production_orders_post = "r3.production-orders.commands"
command_resource production_orders_patch = "r3.production-orders.commands"
command_resource purchase_receipts_post = "r3.purchase-receipts.commands"
command_resource quality_inspections_post = "r3.quality-inspections.commands"
command_resource stocktakes_post = "r3.stocktakes.commands"
command_resource stocktakes_patch = "r3.stocktakes.commands"
command_resource shipments_post = "r3.shipments.commands"
command_resource returns_post = "r3.returns.commands"
command_resource finance_post = "r3.finance.commands"
command_resource warehouses_post = "r3.warehouses.commands"

-- The options that a route gives: the handler runs as the caller.
unfoldable pub route_options :
    {B R : Type 0}
    → RouteName
    → (status : ℕ) → (handler : Command → Option B → Tx Db R) → HttpRequest B
    → Operation Db R
unfolding command_text command_resource
route_options name status handler request = record {
  command = keyword (command_text name);
  fence_resource = keyword (command_resource name);
  payload = request.payload;
  key_header = request.key_header;
  digest_header = request.digest_header;
  response_status = ResponseStatus.fixed status;
  run = λ access.
      handler (record { access = access; random_uuid = request.random_uuid; today = request.today })
        request.body;
}

-- route
unfoldable pub route :
    {B R : Type 0}
    → (decimal : ℕ → Text) → Codec R
    → RouteName
    → (handler : Command → Option B → Tx Db R) → (status : ℕ) → HttpRequest B
    → Network
    → Journal Db
    → Outcome (Response R) × Journal Db
unfolding route_options
route decimal codec name handler status request net j =
    execute_operations_command decimal codec request.checks
      (route_options name status handler request) net j

-- POST /api/v1/inventory
unfoldable pub post_inventory :
    (decimal : ℕ → Text)
    → Codec ReserveResult
    → HttpRequest ReserveBody
    → Network
    → Journal Db
    → Outcome (Response ReserveResult) × Journal Db
unfolding route
post_inventory decimal codec request net j =
    route decimal codec RouteName.inventory_post reserve_inventory 201 request net j

-- POST /api/v1/inventory/transfers
unfoldable pub post_transfers :
    (length_of : String → ℕ) (decimal : ℕ → Text)
    → Codec TransferAnswer
    → HttpRequest TransferBody
    → Network
    → Journal Db
    → Outcome (Response TransferAnswer) × Journal Db
unfolding route
post_transfers length_of decimal codec request net j =
    route decimal codec RouteName.transfers_post (request_transfer length_of) 201 request net j

-- PATCH /api/v1/inventory/transfers
unfoldable pub patch_transfers :
    (decimal : ℕ → Text)
    → Codec TransitionResult
    → HttpRequest TransitionBody
    → Network
    → Journal Db
    → Outcome (Response TransitionResult) × Journal Db
unfolding route
patch_transfers decimal codec request net j =
    route decimal codec RouteName.transfers_patch transition_transfer 200 request net j

-- A request to a route of transfers, and the network that it meets.
pub data TransferCall : Type 0 where
  posted : HttpRequest TransferBody → Network → TransferCall
  patched : HttpRequest TransitionBody → Network → TransferCall

module _ (length_of : String → ℕ) (decimal : ℕ → Text) (answers : Codec TransferAnswer)
    (results : Codec TransitionResult) where
  unfoldable pub after_call : TransferCall → Journal Db → Journal Db
  unfolding post_transfers patch_transfers
  after_call (posted request net) j = (post_transfers length_of decimal answers request net j).1
  after_call (patched request net) j = (patch_transfers decimal results request net j).1

  -- Requests, one after the other, whatever the answers are.
  unfoldable pub after_calls : List TransferCall → Journal Db → Journal Db
  unfolding after_call
  after_calls [] j = j
  after_calls (call ∷ calls) j = after_calls calls (after_call call j)
