-- ===== src/Inventory/Transfer/Request/Laws.antt =====
-- What the request of a transfer keeps.
use topology_supply_chain.Common.{ℕ, String, ◌≡◌, Option, arith}
use topology_supply_chain.Common.Int.{ℤ, zero_+ℤ}
use mathlib.Core.Path.{subst}
use topology_supply_chain.Platform.Tx.{ok}
use topology_supply_chain.Platform.Keeps.{Keeps}
use topology_supply_chain.Sql.{insert}
use topology_supply_chain.Ops.Store.{Db, ApprovalRequest}
use topology_supply_chain.Ops.Access.{Command}
use topology_supply_chain.Inventory.Steps.{OnData, data_rules}
use topology_supply_chain.Inventory.Transfer.Conservation.{IsAccounted}
use topology_supply_chain.Inventory.Transfer.Request.{
  TransferBody, TransferAnswer, TransferRequest, read_transfer, require_warehouses, insert_transfer,
  insert_approval, new_transfer, request_transfer,
}

insert_transfer-Keeps :
    (total : ℤ) (c : Command) (q : TransferRequest) (number : String)
    → Keeps (OnData (IsAccounted total)) (insert_transfer (new_transfer c q number))
unfolding insert_transfer OnData
insert_transfer-Keeps total c q number = record {
  at = λ db id db' a h.
      let after : record db { transfers = (insert (new_transfer c q number) db.transfers).0 }
          ≡ db' =
        ground arith in
      subst (IsAccounted total) after (record {
        stocked = a.stocked;
        quantities = (omega arith, a.quantities);
        sum = rw zero_+ℤ a.sum;
      });
}

insert_approval-Keeps :
    (total : ℤ) (a : ApprovalRequest) → Keeps (OnData (IsAccounted total)) (insert_approval a)
unfolding insert_approval OnData
insert_approval-Keeps total r = record {
  at = λ db id db' a h.
      let after : record db { approvals = (insert r db.approvals).0 } ≡ db' = ground arith in
      subst (IsAccounted total) after a;
}

module _ (Q : Db → Type 0) (length_of : String → ℕ) where
  read_transfer-OnData : (b : TransferBody) → Keeps (OnData Q) (read_transfer length_of b)
  unfolding read_transfer
  read_transfer-OnData b = search data_rules depth 9

  require_warehouses-OnData :
      (c : Command) (q : TransferRequest) → Keeps (OnData Q) (require_warehouses c q)
  unfolding require_warehouses
  require_warehouses-OnData c q = search data_rules depth 8

ruleset request_rules = (
  data_rules, insert_transfer-Keeps, insert_approval-Keeps, read_transfer-OnData,
  require_warehouses-OnData,
)

request_transfer-Keeps :
    (length_of : String → ℕ) (c : Command) (raw : Option TransferBody) (total : ℤ)
    → Keeps (OnData (IsAccounted total)) (request_transfer length_of c raw)
unfolding request_transfer
request_transfer-Keeps length_of c raw total = search request_rules depth 14

-- A transfer that is requested moves nothing. Where the stock was in order and no transfer had a negative
-- quantity, it is still so, and what the batches have available and what is on its way add up to the same
-- total as before.
pub request_keeps_account :
    (length_of : String → ℕ) (c : Command) (raw : Option TransferBody) (total : ℤ) (db db' : Db)
    (answer : TransferAnswer)
    → IsAccounted total db
    → request_transfer length_of c raw db ≡ ok (answer, db')
    → IsAccounted total db'
unfolding OnData
request_keeps_account length_of c raw total db db' answer a h =
    (request_transfer-Keeps length_of c raw total).at db answer db' a h
