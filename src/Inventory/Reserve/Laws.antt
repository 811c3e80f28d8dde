-- ===== src/Inventory/Reserve/Laws.antt =====
-- What a reservation does to the stock.
use topology_supply_chain.Common.{
  ℕ, ◌≡◌, refl, sym, ap, ◌∙◌, false, Option, some, arith, ◌==◌, Bool-cases, inl, inr,
}
use topology_supply_chain.Common.Int.{ℤ, pos, ◌≤ℤ◌, ltb_ℤ, leb_ℤ, int_laws, zero_+ℤ}
use topology_supply_chain.Platform.Tx.{ok, bind-ok, ok-state}
use topology_supply_chain.Platform.Keeps.{Keeps}
use mathlib.Core.Path.{subst}
use topology_supply_chain.Sql.{Table, find, adjust, insert, update}
use topology_supply_chain.Sql.Laws.{update_one, AllRows-find}
use topology_supply_chain.Ops.Store.{Db, Batch, Reservation}
use topology_supply_chain.Ops.Access.{Command}
use topology_supply_chain.Inventory.Stock.{NonNeg, Stocked, IsStocked, Stocked-adjust}
use topology_supply_chain.Inventory.Steps.{OnData, data_rules}
use topology_supply_chain.Inventory.Reserve.{
  read_request, locked_batch, require_reservable, reserve_inventory, ReserveBody, hold,
  ReserveRequest, ReserveResult, lock_stock, locked_by, reservable, new_reservation,
}

-- The lock and the reservation together keep the stock balanced.
lock-Stocked :
    (id : ℕ) (q : ℤ) (batches : Table Batch) (reservations : Table Reservation) (r : Reservation)
    {b : Batch}
    → find id batches.rows ≡ some b
    → pos 0 ≤ℤ q
    → q ≤ℤ b.available_quantity
    → r.batch_id ≡ id
    → r.reserved_quantity ≡ q
    → Stocked batches reservations
    → Stocked
        (record batches { rows = adjust id (locked_by q) batches.rows })
        (insert r reservations).0
lock-Stocked id q batches reservations r {b} found positive fits same_id same_q s =
    let n = AllRows-find NonNeg id batches.rows s.counts found in
    Stocked-adjust id (locked_by q) batches reservations (insert r reservations).0 found
      (omega int_laws) (rw same_q positive, s.reserved)
      (λ j.
        rw (same_id, same_q)
          (elim (Bool-cases (id == j)) [
            | inl e ↦ rw e (omega int_laws)
            | inr e ↦ rw e (omega int_laws)
          ]))
      s

-- A reservation that holds nothing changes no sum.
shortage-Stocked :
    (batches : Table Batch) (reservations : Table Reservation) (r : Reservation)
    → r.reserved_quantity ≡ pos 0
    → Stocked batches reservations
    → Stocked batches (insert r reservations).0
shortage-Stocked batches reservations r none_held s = record {
  counts = s.counts;
  reserved = (rw none_held (omega arith), s.reserved);
  balanced = λ j. rw none_held (elim (Bool-cases (r.batch_id == j)) [
    | inl e ↦ rw e (rw zero_+ℤ (s.balanced j))
    | inr e ↦ rw e (rw zero_+ℤ (s.balanced j))
  ]);
  fresh = s.fresh;
}

-- Nothing is reserved only where nothing is available or asked for.
reservable_nothing :
    (n : ℕ) (b : Batch)
    → ltb_ℤ (pos 0) (reservable (pos n) b) ≡ false
    → reservable (pos n) b ≡ pos 0
reservable_nothing n b h = ground arith

lock_stock-ok :
    (id : ℕ) (q : ℤ) (db db' : Db)
    → lock_stock id q db ≡ ok (tt, db')
    → (b : Batch) × (find id db.batches.rows ≡ some b)
      × (q ≤ℤ b.available_quantity)
      × (db' ≡ record db {
        batches = record db.batches { rows = adjust id (locked_by q) db.batches.rows };
      })
unfolding lock_stock
lock_stock-ok id q db db' h =
    elim (Bool-cases
      ((update id (λ b. leb_ℤ q b.available_quantity) (locked_by q) db.batches).1 == 1)) [
        | inl one ↦
            let (b, found, fits, rows) =
              update_one id (λ (x : Batch). leb_ℤ q x.available_quantity) (locked_by q) db.batches
                one in
            (b, found, ground arith, cc (rw one at h, rows))
        | inr other ↦ cc (rw other at h)
      ]

hold-IsStocked :
    (c : Command) (q : ReserveRequest) (batch : Batch) → Keeps IsStocked (hold c q batch)
unfolding hold
hold-IsStocked c q batch = record {
  at = λ db r db' s h.
      let reserved = reservable (pos q.requested_quantity) batch in
      let row = new_reservation c q reserved in
      elim (Bool-cases (ltb_ℤ (pos 0) reserved)) [
        | inl e ↦
            let (u, mid, locking, rest) =
              bind-ok (lock_stock q.batch_id reserved) _ db (rw e at h) in
            let (b, found, fits, same) = lock_stock-ok q.batch_id reserved db mid locking in
            let write = λ (d : Db). record d { reservations = (insert row d.reservations).0 } in
            subst IsStocked (ap write (sym same) ∙ ok-state rest) (
              lock-Stocked q.batch_id reserved db.batches db.reservations row found (ground arith)
                fits refl refl s)
        | inr e ↦ subst IsStocked (ok-state (rw e at h)) (
            shortage-Stocked db.batches db.reservations row
              (reservable_nothing q.requested_quantity batch e) s)
      ];
}

-- The steps before and after the writes touch no stock.
module _ (Q : Db → Type 0) where
  read_request-OnData : (b : ReserveBody) → Keeps (OnData Q) (read_request b)
  unfolding read_request
  read_request-OnData b = search data_rules depth 9

  locked_batch-OnData : (id : ℕ) → Keeps (OnData Q) (locked_batch id)
  unfolding locked_batch
  locked_batch-OnData id = search data_rules

  require_reservable-OnData :
      (c : Command) (q : ReserveRequest) (b : Batch) → Keeps (OnData Q) (require_reservable c q b)
  unfolding require_reservable
  require_reservable-OnData c q b = search data_rules depth 8

hold-OnData : (c : Command) (q : ReserveRequest) (b : Batch) → Keeps (OnData IsStocked) (hold c q b)
unfolding OnData
hold-OnData c q b = record { at = (hold-IsStocked c q b).at }

ruleset reserve_rules =
    (data_rules, read_request-OnData, locked_batch-OnData, require_reservable-OnData, hold-OnData)

reserve_inventory-OnData :
    (c : Command) (raw : Option ReserveBody) → Keeps (OnData IsStocked) (reserve_inventory c raw)
unfolding reserve_inventory
reserve_inventory-OnData c raw = search reserve_rules depth 10

-- Where the stock is in order (no quantity of a batch is negative, each batch has locked exactly what the
-- reservations of it hold, and the ids of batches are below the next one), a reservation that goes through
-- keeps it so.
pub reserve_keeps_stock :
    (c : Command) (raw : Option ReserveBody) (db db' : Db) (result : ReserveResult)
    → IsStocked db
    → reserve_inventory c raw db ≡ ok (result, db')
    → IsStocked db'
unfolding OnData
reserve_keeps_stock c raw db db' result s h = (reserve_inventory-OnData c raw).at db result db' s h
