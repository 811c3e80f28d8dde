-- ===== src/Inventory/Stock.antt =====
-- The stock invariant: no quantity of a batch is negative, and what a batch has locked is what the
-- reservations of that batch hold.
pub mod Insert
use topology_supply_chain.Common.{
  ℕ, ◌<◌, ◌≡◌, sym, ◌∙◌, true, Option, none, some, List, [], ◌∷◌, arith, ◌==◌, if◌then◌else◌,
  Bool-cases, inl, inr,
}
use topology_supply_chain.Common.Int.{ℤ, pos, ◌+ℤ◌, ◌≤ℤ◌, +ℤ_cancel, +ℤ_zero}
use mathlib.Core.Path.{subst}
use topology_supply_chain.Sql.{Table, find, adjust}
use topology_supply_chain.Sql.Laws.{sum_by, AllRows, AllRows-adjust, find-adjust}
use topology_supply_chain.Ops.Store.{Db, Batch, Reservation}

abbrev pub NonNeg : Batch → Type 0
NonNeg b =
    (pos 0 ≤ℤ b.available_quantity)
    × (pos 0 ≤ℤ b.locked_quantity)
    × (pos 0 ≤ℤ b.pending_inspection_quantity)
    × (pos 0 ≤ℤ b.quarantine_quantity)

-- What a reservation holds of a batch.
abbrev pub held : ℕ → Reservation → ℤ
held id r = if r.batch_id == id then r.reserved_quantity else pos 0

abbrev locked : Option Batch → ℤ
locked none = pos 0
locked (some b) = b.locked_quantity

abbrev pub locked_of : ℕ → List (ℕ × Batch) → ℤ
locked_of id rows = locked (find id rows)

abbrev pub HoldsNonNeg : Reservation → Type 0
HoldsNonNeg r = pos 0 ≤ℤ r.reserved_quantity

-- Every id in use is below the next one.
abbrev pub IdsBelow : {R : Type 0} → ℕ → List (ℕ × R) → Type 0
IdsBelow n [] = Unit
IdsBelow n ((i, r) ∷ rows) = (i < n) × IdsBelow n rows

pub IdsBelow-adjust :
    {R : Type 0} (n id : ℕ) (f : R → R) (rows : List (ℕ × R))
    → IdsBelow n rows
    → IdsBelow n (adjust id f rows)
IdsBelow-adjust n id f [] h = tt
IdsBelow-adjust n id f ((i, r) ∷ rows) h = elim (Bool-cases (i == id)) [
  | inl e ↦ rw e h
  | inr e ↦ rw e (h.0, IdsBelow-adjust n id f rows h.1)
]

pub locked_of-adjust :
    (id j : ℕ) (f : Batch → Batch) (rows : List (ℕ × Batch)) {b : Batch}
    → find id rows ≡ some b
    → locked_of j (adjust id f rows) ≡ (if id == j then (f b).locked_quantity else locked_of j rows)
locked_of-adjust id j f rows {b} h = rw find-adjust (elim (Bool-cases (id == j)) [
  | inl e ↦ let same : find j rows ≡ some b = ground arith in rw (e, same)
  | inr e ↦ rw e
])

pub locked_of_found :
    (id j : ℕ) (rows : List (ℕ × Batch)) {b : Batch}
    → find id rows ≡ some b
    → (id == j) ≡ true
    → locked_of j rows ≡ b.locked_quantity
locked_of_found id j rows {b} h e = let same : find j rows ≡ some b = ground arith in rw same

-- The invariant, of the two tables that it is about.
pub record Stocked (batches : Table Batch) (reservations : Table Reservation) : Type 0 where
  pub counts : AllRows NonNeg batches.rows
  pub reserved : AllRows HoldsNonNeg reservations.rows
  pub balanced : (id : ℕ) → locked_of id batches.rows ≡ sum_by (held id) reservations.rows
  pub fresh : IdsBelow batches.next_id batches.rows

abbrev pub IsStocked : Db → Type 0
IsStocked db = Stocked db.batches db.reservations

-- The batch row `b` becomes `f b`, and what the reservations hold of it changes by the same amount.
module _ (id : ℕ) (f : Batch → Batch) (batches : Table Batch)
    (reservations reservations' : Table Reservation) {b : Batch}
    (found : find id batches.rows ≡ some b) where
  pub Stocked-adjust :
      NonNeg (f b)
      → AllRows HoldsNonNeg reservations'.rows
      → ((j : ℕ)
          → sum_by (held j) reservations'.rows +ℤ (if id == j then b.locked_quantity else pos 0)
            ≡ sum_by (held j) reservations.rows
              +ℤ (if id == j then (f b).locked_quantity else pos 0))
      → Stocked batches reservations
      → Stocked (record batches { rows = adjust id f batches.rows }) reservations'
  Stocked-adjust n rs moved s = record {
    counts =
        AllRows-adjust NonNeg id f batches.rows s.counts
          λ r e. let same : b ≡ r = cc in subst (λ x. NonNeg (f x)) same n;
    reserved = rs;
    balanced = λ j. rw (locked_of-adjust id j f batches.rows found) (elim (Bool-cases (id == j)) [
      | inl e ↦
          let same : sum_by (held j) reservations.rows ≡ b.locked_quantity =
            sym (s.balanced j) ∙ locked_of_found id j batches.rows found e in
          rw e (+ℤ_cancel _ b.locked_quantity _ (rw (e, same) at (moved j)))
      | inr e ↦ rw e (s.balanced j ∙ sym (simp +ℤ_zero at (rw e at (moved j))))
    ]);
    fresh = IdsBelow-adjust batches.next_id id f batches.rows s.fresh;
  }
