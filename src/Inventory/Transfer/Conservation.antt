-- ===== src/Inventory/Transfer/Conservation.antt =====
-- Transfers move stock and neither make nor lose any.
use topology_supply_chain.Common.{
  ℕ, ◌≡◌, refl, ap, ◌∙◌, true, some, List, [], ◌∷◌, arith, ◌==◌, if◌then◌else◌, Bool-cases, inl,
  inr,
}
use topology_supply_chain.Common.Int.{ℤ, pos, pos_part, neg_part, ◌+ℤ◌, ◌-ℤ◌, ◌≤ℤ◌, leb_ℤ, int_laws}
use mathlib.Core.Path.{subst}
use topology_supply_chain.Platform.Tx.{skip}
use topology_supply_chain.Platform.Keeps.{keeps_rules}
use topology_supply_chain.Platform.Leads.{Leads, Leads-Keeps, Leads-bind}
use topology_supply_chain.Sql.{Table, find, adjust, insert, update}
use topology_supply_chain.Sql.Laws.{
  update_one, sum_by, sum_by-adjust, AllRows, AllRows-adjust, AllRows-find, find-adjust_self,
}
use topology_supply_chain.Ops.Store.{Db, Batch, Reservation, Transfer, shipped}
use topology_supply_chain.Ops.Access.{Command}
use topology_supply_chain.Inventory.Rows.{insert_batch}
use topology_supply_chain.Inventory.Stock.{NonNeg, Stocked, Stocked-adjust}
use topology_supply_chain.Inventory.Stock.Insert.{Stocked-insert}
use topology_supply_chain.Inventory.Transfer.Plan.{available, total_taken}
use topology_supply_chain.Inventory.Transfer.Move.{
  TransferAction, ship, receive, status_before, has_status, moved, claim, taken_from, deduct,
  deduct_all, arriving,
}

-- What is on its way.
abbrev pub in_transit : Transfer → ℤ
in_transit t = if has_status shipped t.status then t.quantity else pos 0

-- What can be used of the batches, and what is on its way.
abbrev pub stock_and_transit : Db → ℤ
stock_and_transit db = sum_by available db.batches.rows +ℤ sum_by in_transit db.transfers.rows

abbrev pub HasQuantity : Transfer → Type 0
HasQuantity t = pos 0 ≤ℤ t.quantity

-- The stock is in order, no transfer has a negative quantity, and there is `total` of stock.
pub record Account (total : ℤ) (batches : Table Batch) (reservations : Table Reservation)
    (transfers : Table Transfer) : Type 0 where
  pub stocked : Stocked batches reservations
  pub quantities : AllRows HasQuantity transfers.rows
  pub sum : sum_by available batches.rows +ℤ sum_by in_transit transfers.rows ≡ total

abbrev pub IsAccounted : ℤ → Db → Type 0
IsAccounted total db = Account total db.batches db.reservations db.transfers

-- That, and the transfer `id` is `t`.
pub record Held (id : ℕ) (t : Transfer) (total : ℤ) (batches : Table Batch)
    (reservations : Table Reservation) (transfers : Table Transfer) : Type 0 where
  pub accounted : Account total batches reservations transfers
  pub found : find id transfers.rows ≡ some t

abbrev pub Holding : ℕ → Transfer → ℤ → Db → Type 0
Holding id t total db = Held id t total db.batches db.reservations db.transfers

-- The transfer after its transition: what is on its way changes by what it carries.
abbrev pub claimed_by : TransferAction → ℤ → ℤ → ℤ
claimed_by ship total q = total +ℤ q
claimed_by receive total q = total -ℤ q

in_transit-moved :
    (a : TransferAction) (t : Transfer)
    → has_status (status_before a) t.status ≡ true
    → in_transit (moved a t) ≡ claimed_by a (in_transit t) t.quantity
in_transit-moved ship t h = grind int_laws
in_transit-moved receive t h = grind int_laws

claimed-sum :
    (a : TransferAction) (t : Transfer) (stock before after total : ℤ)
    → has_status (status_before a) t.status ≡ true
    → after +ℤ in_transit t ≡ before +ℤ in_transit (moved a t)
    → stock +ℤ before ≡ total
    → stock +ℤ after ≡ claimed_by a total t.quantity
claimed-sum ship t stock before after total h e k =
    let change : after +ℤ in_transit t ≡ before +ℤ (in_transit t +ℤ t.quantity) =
      e ∙ ap (λ x. before +ℤ x) (in_transit-moved ship t h) in
    omega (int_laws, ap pos_part change, ap neg_part change, ap pos_part k, ap neg_part k)
claimed-sum receive t stock before after total h e k =
    let change : after +ℤ in_transit t ≡ before +ℤ (in_transit t -ℤ t.quantity) =
      e ∙ ap (λ x. before +ℤ x) (in_transit-moved receive t h) in
    omega (int_laws, ap pos_part change, ap neg_part change, ap pos_part k, ap neg_part k)

pub claim-Leads :
    (a : TransferAction) (id : ℕ) (t : Transfer) (total : ℤ)
    → Leads (Holding id t total) (claim a id) (λ u db.
      Holding id (moved a t) (claimed_by a total t.quantity) db
      × (has_status (status_before a) t.status ≡ true))
unfolding claim
claim-Leads a id t total = record {
  at = λ db u db' h e.
      elim (Bool-cases (
        (update id (λ (x : Transfer). has_status (status_before a) x.status) (moved a)
          db.transfers).1
        == 1)) [
          | inl one ↦
              let (x, found, was, rows) =
                update_one id (λ (x : Transfer). has_status (status_before a) x.status) (moved a)
                  db.transfers one in
              let same : x ≡ t = cc (found, h.found) in
              let status : has_status (status_before a) t.status ≡ true =
                subst (λ y. has_status (status_before a) y.status ≡ true) same was in
              let after : record db {
                transfers = record db.transfers { rows = adjust id (moved a) db.transfers.rows };
              }
                  ≡ db' =
                cc (rw one at e, rows) in
              subst
                (λ d.
                  Holding id (moved a t) (claimed_by a total t.quantity) d
                  × (has_status (status_before a) t.status ≡ true))
                after
                (
                  record {
                    accounted = record {
                      stocked = h.accounted.stocked;
                      quantities =
                          AllRows-adjust HasQuantity id (moved a) db.transfers.rows
                            h.accounted.quantities
                            (λ r k.
                              AllRows-find HasQuantity id db.transfers.rows h.accounted.quantities
                                k);
                      sum =
                          claimed-sum a t (sum_by available db.batches.rows)
                            (sum_by in_transit db.transfers.rows) _ total status
                            (sum_by-adjust in_transit id (moved a) db.transfers.rows t h.found)
                            h.accounted.sum;
                    };
                    found = find-adjust_self id (moved a) db.transfers.rows h.found;
                  },
                  status,
                )
          | inr other ↦ cc (rw other at e)
        ];
}

taken-Stocked :
    (id : ℕ) (q : ℤ) (batches : Table Batch) (reservations : Table Reservation) {b : Batch}
    → find id batches.rows ≡ some b
    → q ≤ℤ b.available_quantity
    → Stocked batches reservations
    → Stocked (record batches { rows = adjust id (taken_from q) batches.rows }) reservations
taken-Stocked id q batches reservations found fits s =
    let n = AllRows-find NonNeg id batches.rows s.counts found in
    Stocked-adjust id (taken_from q) batches reservations reservations found (omega int_laws)
      s.reserved (λ j. refl) s

taken-sum :
    (q a stock after transit total : ℤ)
    → after +ℤ a ≡ stock +ℤ (a -ℤ q)
    → stock +ℤ transit ≡ total
    → after +ℤ transit ≡ total -ℤ q
taken-sum q a stock after transit total e k =
    omega (int_laws, ap pos_part e, ap neg_part e, ap pos_part k, ap neg_part k)

deduct-Leads :
    (id : ℕ) (t : Transfer) (total : ℤ) (batch : ℕ) (q : ℤ)
    → Leads (Holding id t total) (deduct batch q) (λ u. Holding id t (total -ℤ q))
unfolding deduct
deduct-Leads id t total batch q = record {
  at = λ db u db' h e.
      elim (Bool-cases
        ((update batch (λ b. leb_ℤ q b.available_quantity) (taken_from q) db.batches).1 == 1)) [
          | inl one ↦
              let (b, found, fits, rows) =
                update_one batch (λ (x : Batch). leb_ℤ q x.available_quantity) (taken_from q)
                  db.batches one in
              let after : record db {
                batches = record db.batches { rows = adjust batch (taken_from q) db.batches.rows };
              }
                  ≡ db' =
                cc (rw one at e, rows) in
              subst (Holding id t (total -ℤ q)) after (record {
                accounted = record {
                  stocked =
                      taken-Stocked batch q db.batches db.reservations found (ground arith)
                        h.accounted.stocked;
                  quantities = h.accounted.quantities;
                  sum =
                      taken-sum q b.available_quantity (sum_by available db.batches.rows) _
                        (sum_by in_transit db.transfers.rows) total
                        (sum_by-adjust available batch (taken_from q) db.batches.rows b found)
                        h.accounted.sum;
                };
                found = h.found;
              })
          | inr other ↦ cc (rw other at e)
        ];
}

less_nothing : (a : ℤ) → a -ℤ pos 0 ≡ a
less_nothing a = omega int_laws

less_both : (a b c : ℤ) → (a -ℤ b) -ℤ c ≡ a -ℤ (b +ℤ c)
less_both a b c = omega int_laws

pub deduct_all-Leads :
    (id : ℕ) (t : Transfer) (total : ℤ) (ds : List (ℕ × ℤ))
    → Leads (Holding id t total) (deduct_all ds) (λ u. Holding id t (total -ℤ total_taken ds))
unfolding deduct_all
deduct_all-Leads id t total [] = rw less_nothing (Leads-Keeps skip (search keeps_rules))
deduct_all-Leads id t total ((batch, q) ∷ ds) = rw (← less_both) (
    Leads-bind (deduct batch q) (λ u. deduct_all ds) (deduct-Leads id t total batch q)
      (λ u. deduct_all-Leads id t (total -ℤ q) ds))

added-sum :
    (q stock transit total : ℤ) → stock +ℤ transit ≡ total → (q +ℤ stock) +ℤ transit ≡ total +ℤ q
added-sum q stock transit total k = omega (int_laws, ap pos_part k, ap neg_part k)

pub arrival-Leads :
    (c : Command) (id : ℕ) (t t' : Transfer) (total : ℤ)
    → pos 0 ≤ℤ t.quantity
    → Leads
        (Holding id t' total)
        (insert_batch (arriving c t))
        (λ n. Holding id t' (total +ℤ t.quantity))
unfolding insert_batch arriving
arrival-Leads c id t t' total positive = record {
  at = λ db n db' h e.
      let after : record db { batches = (insert (arriving c t) db.batches).0 } ≡ db' =
        ground arith in
      subst (Holding id t' (total +ℤ t.quantity)) after (record {
        accounted = record {
          stocked =
              Stocked-insert (arriving c t) db.batches db.reservations (omega arith) refl
                h.accounted.stocked;
          quantities = h.accounted.quantities;
          sum = added-sum t.quantity _ _ total h.accounted.sum;
        };
        found = h.found;
      });
}
