-- ===== src/Inventory/Stock/Insert.antt =====
-- A new batch with nothing locked keeps the stock in order.
use topology_supply_chain.Common.{
  ℕ, ◌+◌, ◌≡◌, refl, sym, ◌∙◌, none, List, [], ◌∷◌, arith, ◌==◌, Bool-cases, inl, inr,
}
use topology_supply_chain.Common.Int.{pos}
use topology_supply_chain.Sql.{Table, find, insert}
use topology_supply_chain.Ops.Store.{Batch, Reservation}
use topology_supply_chain.Inventory.Stock.{NonNeg, Stocked, IdsBelow, locked_of}

IdsBelow-find : {R : Type 0} (n : ℕ) (rows : List (ℕ × R)) → IdsBelow n rows → find n rows ≡ none
IdsBelow-find n [] h = refl
IdsBelow-find n ((i, r) ∷ rows) h = ground (arith, IdsBelow-find n rows h.1)

IdsBelow-suc : {R : Type 0} (n : ℕ) (rows : List (ℕ × R)) → IdsBelow n rows → IdsBelow (n + 1) rows
IdsBelow-suc n [] h = tt
IdsBelow-suc n ((i, r) ∷ rows) h = (omega arith, IdsBelow-suc n rows h.1)

pub Stocked-insert :
    (b : Batch) (batches : Table Batch) (reservations : Table Reservation)
    → NonNeg b
    → b.locked_quantity ≡ pos 0
    → Stocked batches reservations
    → Stocked (insert b batches).0 reservations
Stocked-insert b batches reservations n unlocked s = record {
  counts = (n, s.counts);
  reserved = s.reserved;
  balanced = λ id. elim (Bool-cases (batches.next_id == id)) [
    | inl e ↦
        let fresh : find id batches.rows ≡ none =
          ground (arith, IdsBelow-find batches.next_id batches.rows s.fresh) in
        let nothing : locked_of id batches.rows ≡ pos 0 = rw fresh refl in
        rw (e, unlocked) (sym nothing ∙ s.balanced id)
    | inr e ↦ rw e (s.balanced id)
  ];
  fresh = (omega arith, IdsBelow-suc batches.next_id batches.rows s.fresh);
}
