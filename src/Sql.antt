-- ===== src/Sql.antt =====
-- SQL tables with an auto-increment primary key, as the statements of the source read and write them
-- inside one transaction. The rows that a statement locks stay as they are until the transaction ends,
-- so the statements of one transaction are read one after the other. A statement that violates a
-- unique index fails, and the client reports DATABASE_OPERATION_FAILED.
pub mod Laws
pub mod Order
use topology_supply_chain.Common.{
  ℕ, ◌+◌, Bool, true, false, ◌&&◌, Option, none, some, List, [], ◌∷◌, ◌==◌, if◌then◌else◌,
}

-- Rows by primary key, and the next value of AUTO_INCREMENT.
pub record Table (R : Type 0) : Type 0 where
  pub rows : List (ℕ × R)
  pub next_id : ℕ

module _ {R : Type 0} where
  -- SELECT … WHERE id = ? LIMIT 1
  abbrev pub find : ℕ → List (ℕ × R) → Option R
  find id [] = none
  find id ((i, r) ∷ rows) = if i == id then some r else find id rows

  -- The row of a primary key, rewritten.
  abbrev pub adjust : ℕ → (R → R) → List (ℕ × R) → List (ℕ × R)
  adjust id f [] = []
  adjust id f ((i, r) ∷ rows) = if i == id then (i, f r) ∷ rows else (i, r) ∷ adjust id f rows

  abbrev matches : (R → Bool) → Option R → Bool
  matches guard none = false
  matches guard (some r) = guard r

  -- UPDATE … SET … WHERE id = ? AND guard: the rows, and affectedRows.
  abbrev pub update : ℕ → (R → Bool) → (R → R) → Table R → Table R × ℕ
  update id guard f t =
      if matches guard (find id t.rows) then (record t { rows = adjust id f t.rows }, 1) else (t, 0)

  -- INSERT: the table, and insertId.
  abbrev pub insert : R → Table R → Table R × ℕ
  insert r t = (record { rows = (t.next_id, r) ∷ t.rows; next_id = t.next_id + 1 }, t.next_id)

  -- SELECT … WHERE p, in the table's order.
  abbrev pub select : (ℕ × R → Bool) → List (ℕ × R) → List (ℕ × R)
  select p [] = []
  select p (e ∷ rows) = let rest = select p rows in if p e then e ∷ rest else rest

  unfoldable pub insert_ordered : (ℕ × R → ℕ × R → Bool) → ℕ × R → List (ℕ × R) → List (ℕ × R)
  insert_ordered before e [] = e ∷ []
  insert_ordered before e (d ∷ ds) =
      if before e d then e ∷ d ∷ ds else d ∷ insert_ordered before e ds

  -- ORDER BY
  unfoldable pub order_by : (ℕ × R → ℕ × R → Bool) → List (ℕ × R) → List (ℕ × R)
  unfolding insert_ordered
  order_by before [] = []
  order_by before (e ∷ es) = insert_ordered before e (order_by before es)

  -- Whether a unique index has the value already.
  abbrev pub taken : (R → Bool) → List (ℕ × R) → Bool
  taken same [] = false
  taken same ((i, r) ∷ rows) = if same r then true else taken same rows
