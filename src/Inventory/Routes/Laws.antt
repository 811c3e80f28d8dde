-- ===== src/Inventory/Routes/Laws.antt =====
-- The stock after a request to POST /api/v1/inventory
-- (apps/api/src/composition/operations-writes-manifest.ts).
use topology_supply_chain.Common.{ℕ}
use topology_supply_chain.Platform.Tx.{Outcome, ok, fail}
use topology_supply_chain.Platform.Keeps.{Keeps}
use topology_supply_chain.Platform.Header.{Text}
use topology_supply_chain.Platform.Transaction.{Network}
use topology_supply_chain.Platform.Journal.{Journal}
use topology_supply_chain.Platform.Idempotency.{Codec}
use topology_supply_chain.Platform.Idempotency.Invariants.{OnBusiness, execute-Keeps}
use topology_supply_chain.Platform.Commands.{
  RequestChecks, Session, Operation, as_options, access_of, request_scope, run_as,
  execute_operations_command,
}
use topology_supply_chain.Ops.Store.{Db}
use topology_supply_chain.Ops.Access.{AccessContext}
use topology_supply_chain.Inventory.Stock.{IsStocked}
use topology_supply_chain.Inventory.Reserve.{ReserveBody, ReserveResult}
use topology_supply_chain.Inventory.Reserve.Laws.{reserve_keeps_stock}
use topology_supply_chain.Inventory.Routes.{HttpRequest, post_inventory, route_options}

module _ {S R : Type 0} (P : S → Type 0) (codec : Codec R) (o : Operation S R)
    (keeps : (access : AccessContext) → Keeps P (o.run access)) (net : Network) (j : Journal S)
    (p : OnBusiness P j) where
  run_as_keeps : (caller : Outcome (Text × Session)) → OnBusiness P (run_as codec o caller net j).1
  unfolding run_as as_options
  run_as_keeps (fail e) = p
  run_as_keeps (ok (scope, session)) =
      execute-Keeps P codec (as_options o scope session) (λ key digest. keeps (access_of session))
        net j p

  -- What a command keeps of the business state, a request keeps.
  pub operation_keeps :
      (decimal : ℕ → Text) (checks : RequestChecks)
      → OnBusiness P (execute_operations_command decimal codec checks o net j).1
  unfolding execute_operations_command
  operation_keeps decimal checks = run_as_keeps (request_scope decimal checks)

-- Where the stock is in order before a request to reserve stock, it is in order after it, whatever the request, the
-- network and the answer are.
pub post_inventory_keeps_stock :
    (decimal : ℕ → Text) (codec : Codec ReserveResult) (request : HttpRequest ReserveBody)
    (net : Network) (j : Journal Db)
    → IsStocked j.business
    → IsStocked (post_inventory decimal codec request net j).1.business
unfolding post_inventory route_options
post_inventory_keeps_stock decimal codec request net j p =
    operation_keeps IsStocked codec _
      (λ access. record {
        at = λ s r t h k.
            reserve_keeps_stock
              (record { access = access; random_uuid = request.random_uuid; today = request.today })
              request.body s t r h k;
      })
      net j p decimal request.checks
