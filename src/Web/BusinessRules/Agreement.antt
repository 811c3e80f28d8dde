-- ===== src/Web/BusinessRules/Agreement.antt =====
-- The web application's rule for reservations against reserveInventory of apps/api/src/modules/inventory/writes.ts.
use topology_supply_chain.Common.{ℕ, ◌≡◌, ◌∙◌, sym, ap, arith}
use topology_supply_chain.Common.Int.{ℤ, pos, ◌-ℤ◌, leb_ℤ, min_ℤ, int_laws}
use topology_supply_chain.Ops.Values.{int}
use topology_supply_chain.Ops.Store.{Db, Batch}
use topology_supply_chain.Ops.Access.{Command}
use topology_supply_chain.Platform.Tx.{ok}
use topology_supply_chain.Inventory.Reserve.{ReserveRequest, ReserveResult, hold}
use topology_supply_chain.Web.BusinessRules.{ruled, Split, calculate_reservation}

full_lem : (a : ℤ) (q : ℕ) → leb_ℤ (pos q) a ≡ leb_ℤ (pos q -ℤ min_ℤ a (pos q)) (pos 0)
full_lem a q = grind int_laws

-- Where the web application's rule accepts the quantities, a reservation that the API makes for a locked batch holds and lacks exactly the
-- quantities that the rule calculates, and the rule says that all can be reserved if and only if nothing is lacking.
pub reservation_agrees :
    (c : Command) (q : ReserveRequest) (batch : Batch) (s t : Db) (r : ReserveResult) (p : Split)
    → hold c q batch s ≡ ok (r, t)
    → calculate_reservation (int batch.available_quantity) (int (pos q.requested_quantity))
      ≡ ruled p
    → (r.reserved_quantity ≡ p.reserved_quantity)
      × (r.shortage_quantity ≡ p.shortage_quantity)
      × (p.can_reserve_in_full ≡ leb_ℤ r.shortage_quantity (pos 0))
unfolding hold calculate_reservation
reservation_agrees c q batch s t r p h k =
    let lacks : r.shortage_quantity ≡ p.shortage_quantity = ground arith in
    let calculated : p.shortage_quantity
        ≡ pos q.requested_quantity -ℤ min_ℤ batch.available_quantity (pos q.requested_quantity) =
      ground arith in
    let in_full : p.can_reserve_in_full
        ≡ leb_ℤ (pos q.requested_quantity) batch.available_quantity =
      ground arith in
    (
      ground arith,
      lacks,
      in_full
          ∙ full_lem batch.available_quantity q.requested_quantity
          ∙ ap (λ z. leb_ℤ z (pos 0)) (sym (lacks ∙ calculated)),
    )
