-- ===== src/Inventory/Routes/Tests.antt =====
-- A request to reserve stock.
use topology_supply_chain.Common.{ℕ, ◌+◌, true, false, none, some, List, [], ◌∷◌, length}
use topology_supply_chain.Common.Int.{pos}
use topology_supply_chain.Platform.Tx.{ok}
use topology_supply_chain.Platform.Header.{Text, Header}
use topology_supply_chain.Platform.Canonical.{Json, keyword}
use topology_supply_chain.Platform.Transaction.{Network, CommitRace}
use topology_supply_chain.Platform.Transaction.Atomic.{calm}
use topology_supply_chain.Platform.Journal.{Journal, Fence, writer_owner}
use topology_supply_chain.Platform.Idempotency.{Codec}
use topology_supply_chain.Platform.Commands.{RequestChecks}
use topology_supply_chain.Ops.Store.{Db}
use topology_supply_chain.Inventory.Stock.{IsStocked}
use topology_supply_chain.Inventory.Tests.{
  planner, request, stocked, stocked-IsStocked, shipment, wish, with_transfer,
  with_transfer-IsAccounted,
}
use topology_supply_chain.Inventory.Transfer.Conservation.{IsAccounted}
use topology_supply_chain.Inventory.Transfer.Request.{TransferBody, TransferAnswer}
use topology_supply_chain.Inventory.Transfer.Transition.{TransitionBody, TransitionResult}
use topology_supply_chain.Inventory.Routes.Account.{calls_keep_account}
use topology_supply_chain.Inventory.Reserve.{ReserveBody, ReserveResult}
use topology_supply_chain.Inventory.Routes.{HttpRequest, post_inventory, TransferCall, after_calls}
use topology_supply_chain.Inventory.Routes.Laws.{post_inventory_keeps_stock}

abbrev codec : Codec ReserveResult
codec = record {
  stringify = λ r. r.id ∷ [];
  parse = λ t. none;
  quote = λ t. b'"' ∷ t;
  sha256 = λ t. length t ∷ [];
}

abbrev checks : RequestChecks
checks = record {
  same_origin = ok tt;
  csrf = ok tt;
  has_database = true;
  authenticated = ok (record {
    local_preview = false;
    session_id = some (pos 8);
    user_id = pos 2;
    roles = planner.access.roles;
    factory_id = none;
    supplier_id = none;
  });
}

abbrev reserving : HttpRequest ReserveBody
reserving = record {
  key_header = Header.single (keyword "order-2026-000001");
  digest_header = Header.absent;
  payload = Json.null;
  body = some request;
  checks = checks;
  random_uuid = planner.random_uuid;
  today = planner.today;
}

abbrev fence : Fence
fence = record {
  resource = keyword "r3.inventory.commands";
  owner = writer_owner;
  enabled = true;
  generation = 2;
}

abbrev before : Journal Db
before = record { fences = fence ∷ []; commands = []; business = stocked }

abbrev decimal : ℕ → Text
decimal n = (48 + n) ∷ []

-- A network that loses the acknowledgement of a commit that took effect.
abbrev lossy : Network
lossy = record calm { committing = CommitRace.lost true }

post_inventory_keeps_stock_example :
    IsStocked (post_inventory decimal codec reserving lossy before).1.business
post_inventory_keeps_stock_example =
    post_inventory_keeps_stock decimal codec reserving lossy before stocked-IsStocked

abbrev answers : Codec TransferAnswer
answers = record {
  stringify = λ a. a.id ∷ [];
  parse = λ t. none;
  quote = λ t. b'"' ∷ t;
  sha256 = λ t. length t ∷ [];
}

abbrev results : Codec TransitionResult
results = record {
  stringify = λ r. r.id ∷ [];
  parse = λ t. none;
  quote = λ t. b'"' ∷ t;
  sha256 = λ t. length t ∷ [];
}

abbrev transferring : HttpRequest TransferBody
transferring = record {
  key_header = Header.single (keyword "order-2026-000002");
  digest_header = Header.absent;
  payload = Json.null;
  body = some wish;
  checks = checks;
  random_uuid = planner.random_uuid;
  today = planner.today;
}

abbrev shipping : HttpRequest TransitionBody
shipping = record {
  key_header = Header.single (keyword "order-2026-000003");
  digest_header = Header.absent;
  payload = Json.null;
  body = some shipment;
  checks = checks;
  random_uuid = planner.random_uuid;
  today = planner.today;
}

abbrev transfer_fence : Fence
transfer_fence = record fence { resource = keyword "r3.transfers.commands" }

abbrev before_transfers : Journal Db
before_transfers = record { fences = transfer_fence ∷ []; commands = []; business = with_transfer }

-- A transfer is asked for, and another is shipped twice, the first time without an answer.
abbrev calls : List TransferCall
calls =
    TransferCall.posted transferring calm
    ∷ TransferCall.patched shipping lossy
    ∷ TransferCall.patched shipping calm
    ∷ []

calls_keep_account_example :
    IsAccounted
      (pos 4)
      (after_calls (λ s. 4) decimal answers results calls before_transfers).business
calls_keep_account_example =
    calls_keep_account (λ s. 4) decimal answers results (pos 4) calls before_transfers
      with_transfer-IsAccounted
