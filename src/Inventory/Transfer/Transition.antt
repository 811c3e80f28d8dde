-- ===== src/Inventory/Transfer/Transition.antt =====
-- The transitions of a transfer (transitionTransfer of apps/api/src/modules/inventory/writes.ts).
use topology_supply_chain.Common.{ℕ, String, Option, none, some, [], ◌∷◌, if◌then◌else◌}
use topology_supply_chain.Platform.Failure.{bad, missing, conflict}
use topology_supply_chain.Platform.Tx.{
  Tx, Outcome, ok, fail, pure, gets, or_throw, lift, throw_if, ◌>>=◌, ◌>>◌,
}
use topology_supply_chain.Sql.{find}
use topology_supply_chain.Ops.Access.{Command, require_role}
use topology_supply_chain.Ops.Values.{JsValue, integer, is_text}
use topology_supply_chain.Ops.Versions.{lock_version, bump_version}
use topology_supply_chain.Ops.Events.{audit, domain_event}
use topology_supply_chain.Ops.Store.{Db, Transfer}
use topology_supply_chain.Inventory.Freeze.{freeze_exists}
use topology_supply_chain.Inventory.Scope.{require_warehouse_scope}
use topology_supply_chain.Inventory.Transfer.Move.{
  TransferAction, ship, receive, move_stock, ship_transfer, receive_transfer,
}

-- The body of a transition.
pub record TransitionBody : Type 0 where
  pub id : JsValue
  pub action : JsValue

action_of : JsValue → Outcome TransferAction
action_of value =
    if is_text "ship" value
    then ok ship
    else if is_text "receive" value
    then ok receive
    else fail (bad "Invalid action")

pub record TransitionResult : Type 0 where
  pub id : ℕ
  pub action : TransferAction
  pub version : ℕ

abbrev acting_warehouse : TransferAction → Transfer → ℕ
acting_warehouse ship t = t.from_warehouse_id
acting_warehouse receive t = t.to_warehouse_id

abbrev action_name : TransferAction → String
action_name ship = "ship"
action_name receive = "receive"

abbrev event_name : TransferAction → String
event_name ship = "TransferShipped"
event_name receive = "TransferReceived"

-- The checks between the lock and the move.
unfoldable pub require_movable : Command → TransferAction → Transfer → Tx Db (Unit {0})
unfolding require_warehouse_scope freeze_exists
require_movable c action t = do
  require_warehouse_scope c.access (acting_warehouse action t)
  frozen ← freeze_exists (acting_warehouse action t) (some t.sku)
  throw_if frozen (conflict "Inventory is frozen by an active stocktake")

-- What follows the move: the next version, the audit entry and the event.
unfoldable pub finish_transition :
    Command → TransferAction → ℕ → (version : ℕ) → Tx Db TransitionResult
unfolding bump_version audit domain_event
finish_transition c action id version = do
  next ← bump_version "inventory_transfer" id version
  audit c (action_name action) "inventory" "inventory_transfer" id
  domain_event (event_name action) "inventory_transfer" id none
  pure (record { id = id; action = action; version = next })

-- What follows once the version is locked.
unfoldable pub transition_locked :
    Command → TransferAction → ℕ → Transfer → (version : ℕ) → Tx Db TransitionResult
unfolding require_movable ship_transfer receive_transfer finish_transition
transition_locked c action id t version = do
  require_movable c action t
  move_stock c action id t
  finish_transition c action id version

-- What follows once the transfer is read.
unfoldable pub transition_found : Command → TransferAction → ℕ → Transfer → Tx Db TransitionResult
unfolding lock_version transition_locked
transition_found c action id t = do
  version ← lock_version "inventory_transfer" id
  transition_locked c action id t version

-- The checked request: the transfer and the action.
unfoldable pub read_transition : Command → Option TransitionBody → Tx Db (ℕ × TransferAction)
unfolding integer action_of
read_transition c raw = do
  require_role c.access ("admin" ∷ "supply_chain" ∷ "factory" ∷ [])
  body ← or_throw raw (bad "Invalid request body")
  id ← lift (integer 1 body.id "Invalid id")
  action ← lift (action_of body.action)
  pure (id, action)

unfoldable pub transition_by : Command → TransferAction → ℕ → Tx Db TransitionResult
unfolding transition_found
transition_by c action id = do
  found ← gets (λ db. find id db.transfers.rows)
  t ← or_throw found (missing "Transfer not found")
  transition_found c action id t

-- transitionTransfer
unfoldable pub transition_transfer : Command → Option TransitionBody → Tx Db TransitionResult
unfolding read_transition transition_by
transition_transfer c raw = do request ← read_transition c raw; transition_by c request.1 request.0
