-- ===== src/Inventory/Routes/Account.antt =====
-- The stock after requests to the routes of transfers
-- (apps/api/src/composition/operations-writes-manifest.ts).
use topology_supply_chain.Common.{ℕ, Option, String, List, [], ◌∷◌}
use topology_supply_chain.Common.Int.{ℤ}
use topology_supply_chain.Platform.Keeps.{Keeps}
use topology_supply_chain.Platform.Header.{Text}
use topology_supply_chain.Platform.Journal.{Journal}
use topology_supply_chain.Platform.Idempotency.{Codec}
use topology_supply_chain.Ops.Store.{Db}
use topology_supply_chain.Ops.Access.{Command}
use topology_supply_chain.Inventory.Transfer.Request.{
  TransferBody, TransferAnswer, request_transfer,
}
use topology_supply_chain.Inventory.Transfer.Request.Laws.{request_keeps_account}
use topology_supply_chain.Inventory.Transfer.Transition.{
  TransitionBody, TransitionResult, transition_transfer,
}
use topology_supply_chain.Inventory.Transfer.Conservation.{IsAccounted}
use topology_supply_chain.Inventory.Transfer.Outcome.{transition_transfer_lem}
use topology_supply_chain.Inventory.Routes.{
  TransferCall, posted, patched, route_options, post_transfers, patch_transfers, after_call,
  after_calls,
}
use topology_supply_chain.Inventory.Routes.Laws.{operation_keeps}

request_transfer-Keeps :
    (length_of : String → ℕ) (c : Command) (raw : Option TransferBody) (total : ℤ)
    → Keeps (IsAccounted total) (request_transfer length_of c raw)
request_transfer-Keeps length_of c raw total = record {
  at = λ s id t a h. request_keeps_account length_of c raw total s t id a h;
}

transition_transfer-Keeps :
    (c : Command) (raw : Option TransitionBody) (total : ℤ)
    → Keeps (IsAccounted total) (transition_transfer c raw)
transition_transfer-Keeps c raw total = record {
  at = λ s r t a h. (transition_transfer_lem c raw total s t r a h).4;
}

module _ (length_of : String → ℕ) (decimal : ℕ → Text) (answers : Codec TransferAnswer)
    (results : Codec TransitionResult) (total : ℤ) where
  call_keeps_account :
      (call : TransferCall) (j : Journal Db)
      → IsAccounted total j.business
      → IsAccounted total (after_call length_of decimal answers results call j).business
  unfolding after_call post_transfers patch_transfers route_options
  call_keeps_account (posted request net) j a =
      operation_keeps (IsAccounted total) answers _
        (λ access. request_transfer-Keeps length_of _ request.body total) net j a decimal
        request.checks
  call_keeps_account (patched request net) j a =
      operation_keeps (IsAccounted total) results _
        (λ access. transition_transfer-Keeps _ request.body total) net j a decimal request.checks

  -- Where the stock is in order, no transfer has a negative quantity, and what the batches have available and what is
  -- on its way add up to a total: so it is after any sequence of requests to the routes of transfers, from any callers,
  -- retried or not, on any networks, and whatever they are answered.
  pub calls_keep_account :
      (calls : List TransferCall) (j : Journal Db)
      → IsAccounted total j.business
      → IsAccounted total (after_calls length_of decimal answers results calls j).business
  unfolding after_calls
  calls_keep_account [] j a = a
  calls_keep_account (call ∷ calls) j a =
      calls_keep_account calls (after_call length_of decimal answers results call j)
        (call_keeps_account call j a)
