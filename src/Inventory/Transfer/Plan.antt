-- ===== src/Inventory/Transfer/Plan.antt =====
-- What the plan of a shipment takes from the batches.
use topology_supply_chain.Common.{
  ℕ, ◌≡◌, ◌∙◌, ◌↔◌, Bool, true, List, [], ◌∷◌, ap, arith, Bool-cases, inl, inr,
}
use topology_supply_chain.Common.Int.{
  ℤ, pos, pos_part, neg_part, max_ℤ, ◌+ℤ◌, ◌-ℤ◌, ◌≤ℤ◌, eq_ℤ, min_ℤ, leb_ℤ, int_laws,
}
use topology_supply_chain.Sql.Laws.{sum_by, AllRows, sum_by-order_by}
use topology_supply_chain.Sql.{select, order_by, insert_ordered}
use topology_supply_chain.Ops.Store.{Db, Batch, Transfer}
use topology_supply_chain.Inventory.Transfer.Move.{
  deductions, candidates, is_eligible, leaves_first,
}

abbrev pub available : Batch → ℤ
available b = b.available_quantity

abbrev pub HasStock : Batch → Type 0
HasStock b = pos 0 ≤ℤ b.available_quantity

abbrev pub total_taken : List (ℕ × ℤ) → ℤ
total_taken [] = pos 0
total_taken ((id, q) ∷ ds) = q +ℤ total_taken ds

add_back : (m r l q : ℤ) → r +ℤ l ≡ q -ℤ m → (m +ℤ r) +ℤ l ≡ q
add_back m r l q h = omega (int_laws, ap pos_part h, ap neg_part h)

-- What is taken and what remains make up what was asked for.
pub deductions-total :
    (quantity : ℤ) (batches : List (ℕ × Batch))
    → total_taken (deductions quantity batches).0 +ℤ (deductions quantity batches).1 ≡ quantity
unfolding deductions
deductions-total quantity [] = omega int_laws
deductions-total quantity ((id, b) ∷ batches) = elim (Bool-cases (eq_ℤ quantity (pos 0))) [
  | inl e ↦ rw e (omega int_laws)
  | inr e ↦
      let ih = deductions-total (quantity -ℤ min_ℤ quantity b.available_quantity) batches in
      rw e (add_back _ _ _ quantity ih)
]

-- The shortage of a plan: what was asked for less what there is, where that is not negative.
shortage : ℤ → ℤ → ℤ
shortage quantity stock = max_ℤ (pos 0) (quantity -ℤ stock)

shortage-step :
    (q a s : ℤ)
    → pos 0 ≤ℤ q
    → pos 0 ≤ℤ a
    → pos 0 ≤ℤ s
    → shortage (q -ℤ min_ℤ q a) s ≡ shortage q (a +ℤ s)
unfolding shortage
shortage-step q a s hq ha hs = elim (Bool-cases (leb_ℤ q a)) [
  | inl e ↦ rw e (grind int_laws)
  | inr e ↦ rw e (grind int_laws)
]

shortage_zero : (q s : ℤ) → (eq_ℤ (shortage q s) (pos 0) ≡ true) ↔ (q ≤ℤ s)
unfolding shortage
shortage_zero q s = (λ h. grind int_laws, λ h. grind int_laws)

stock_nonneg :
    (batches : List (ℕ × Batch)) → AllRows HasStock batches → pos 0 ≤ℤ sum_by available batches
stock_nonneg [] h = omega arith
stock_nonneg ((i, b) ∷ batches) h = let ih = stock_nonneg batches h.1 in omega (int_laws, h.0)

-- The loop leaves exactly the shortage: it fails only where the batches hold too little.
deductions-left :
    (quantity : ℤ) (batches : List (ℕ × Batch))
    → pos 0 ≤ℤ quantity
    → AllRows HasStock batches
    → (deductions quantity batches).1 ≡ shortage quantity (sum_by available batches)
unfolding deductions shortage
deductions-left quantity [] h a = grind int_laws
deductions-left quantity ((id, b) ∷ batches) h a =
    let stock = stock_nonneg batches a.1 in
    elim (Bool-cases (eq_ℤ quantity (pos 0))) [
      | inl e ↦ rw e (grind int_laws)
      | inr e ↦ rw e (
          deductions-left (quantity -ℤ min_ℤ quantity b.available_quantity) batches (grind int_laws)
            a.1
          ∙ shortage-step quantity b.available_quantity (sum_by available batches) h a.0 stock)
    ]

module _ {R : Type 0} (P : R → Type 0) where
  AllRows-insert_ordered :
      (before : ℕ × R → ℕ × R → Bool) (e : ℕ × R) (rows : List (ℕ × R))
      → P e.1
      → AllRows P rows
      → AllRows P (insert_ordered before e rows)
  unfolding insert_ordered
  AllRows-insert_ordered before e [] p a = (p, tt)
  AllRows-insert_ordered before e (d ∷ rows) p a = elim (Bool-cases (before e d)) [
    | inl x ↦ rw x (p, a)
    | inr x ↦ rw x (a.0, AllRows-insert_ordered before e rows p a.1)
  ]

  AllRows-order_by :
      (before : ℕ × R → ℕ × R → Bool) (rows : List (ℕ × R))
      → AllRows P rows
      → AllRows P (order_by before rows)
  unfolding order_by
  AllRows-order_by before [] a = tt
  AllRows-order_by before (e ∷ rows) a =
      AllRows-insert_ordered before e (order_by before rows) a.0 (AllRows-order_by before rows a.1)

eligible_stock : (t : Transfer) (e : ℕ × Batch) → is_eligible t e ≡ true → HasStock e.1
unfolding is_eligible
eligible_stock t e h = ground arith

eligible-HasStock :
    (t : Transfer) (rows : List (ℕ × Batch)) → AllRows HasStock (select (is_eligible t) rows)
eligible-HasStock t [] = tt
eligible-HasStock t (e ∷ rows) = elim (Bool-cases (is_eligible t e)) [
  | inl x ↦ rw x (eligible_stock t e x, eligible-HasStock t rows)
  | inr x ↦ rw x (eligible-HasStock t rows)
]

-- The plan of a shipment covers the transfer exactly where the batches that it may take from hold
-- enough together, for a transfer whose quantity is not negative.
pub plan_covers :
    (t : Transfer) (db : Db)
    → pos 0 ≤ℤ t.quantity
    → (eq_ℤ (deductions t.quantity (candidates t db)).1 (pos 0) ≡ true)
      ↔ (t.quantity ≤ℤ sum_by available (select (is_eligible t) db.batches.rows))
unfolding candidates
plan_covers t db positive =
    let rows = select (is_eligible t) db.batches.rows in
    let left : (deductions t.quantity (order_by leaves_first rows)).1
        ≡ shortage t.quantity (sum_by available rows) =
      deductions-left t.quantity (order_by leaves_first rows) positive
        (AllRows-order_by HasStock leaves_first rows (eligible-HasStock t db.batches.rows))
      ∙ ap (shortage t.quantity) (sum_by-order_by available leaves_first rows) in
    rw left (shortage_zero t.quantity (sum_by available rows))
