-- ===== src/Sql/Laws.antt =====
-- Sums over the rows of a table, and what an update, an insertion and an order do to them.
use topology_supply_chain.Common.{
  ℕ, ◌≡◌, refl, ◌≢◌, true, none, some, List, [], ◌∷◌, ◌==◌, if◌then◌else◌, arith, Option, Bool,
  ==_refl, All, head?, Bool-cases, Option-cases, inl, inr,
}
use topology_supply_chain.Common.Int.{ℤ, pos, ◌+ℤ◌, int_laws}
use mathlib.Core.Path.{subst}
use topology_supply_chain.Sql.{Table, find, adjust, update, select, order_by, insert_ordered}

module _ {R : Type 0} (m : R → ℤ) where
  -- The sum of a column, or of a term over columns.
  abbrev pub sum_by : List (ℕ × R) → ℤ
  sum_by [] = pos 0
  sum_by ((i, r) ∷ rows) = m r +ℤ sum_by rows

  pub sum_by-adjust :
      (id : ℕ) (f : R → R) (rows : List (ℕ × R)) (r : R)
      → find id rows ≡ some r
      → sum_by (adjust id f rows) +ℤ m r ≡ sum_by rows +ℤ m (f r)
  sum_by-adjust id f [] r h = cc
  sum_by-adjust id f ((i, s) ∷ rows) r h = grind (int_laws, sum_by-adjust id f rows r)

module _ {R : Type 0} where
  abbrev pub map_row : (R → R) → Option R → Option R
  map_row f none = none
  map_row f (some r) = some (f r)

  pub find-adjust :
      (id j : ℕ) (f : R → R) (rows : List (ℕ × R))
      → find j (adjust id f rows) ≡ (if id == j then map_row f (find j rows) else find j rows)
  find-adjust id j f [] = ground arith
  find-adjust id j f ((i, r) ∷ rows) = ground (arith, find-adjust id j f rows)

  pub find-adjust_self :
      (id : ℕ) (f : R → R) (rows : List (ℕ × R)) {r : R}
      → find id rows ≡ some r
      → find id (adjust id f rows) ≡ some (f r)
  find-adjust_self id f rows h = rw find-adjust (rw (h, ==_refl id))

  pub find-adjust_ne :
      (id j : ℕ) (f : R → R) (rows : List (ℕ × R))
      → id ≢ j
      → find j (adjust id f rows) ≡ find j rows
  find-adjust_ne id j f [] h = refl
  find-adjust_ne id j f ((i, r) ∷ rows) h = ground (arith, find-adjust_ne id j f rows h)

  -- Every row has the property.
  abbrev pub AllRows : (R → Type 0) → List (ℕ × R) → Type 0
  AllRows P [] = Unit
  AllRows P ((i, r) ∷ rows) = P r × AllRows P rows

  pub AllRows-find :
      (P : R → Type 0) (id : ℕ) (rows : List (ℕ × R)) {r : R}
      → AllRows P rows
      → find id rows ≡ some r
      → P r
  AllRows-find P id [] a h = cc
  AllRows-find P id ((i, s) ∷ rows) {r} a h = elim (Bool-cases (i == id)) [
    | inl e ↦ let same : s ≡ r = ground arith in subst P same a.0
    | inr e ↦ AllRows-find P id rows a.1 (rw e at h)
  ]

  pub AllRows-adjust :
      (P : R → Type 0) (id : ℕ) (f : R → R) (rows : List (ℕ × R))
      → AllRows P rows
      → ((r : R) → find id rows ≡ some r → P (f r))
      → AllRows P (adjust id f rows)
  AllRows-adjust P id f [] a h = a
  AllRows-adjust P id f ((i, s) ∷ rows) a h = elim (Bool-cases (i == id)) [
    | inl e ↦ rw e (h s (rw e), a.1)
    | inr e ↦ rw e (a.0, AllRows-adjust P id f rows a.1 (λ r k. h r (rw e k)))
  ]

module _ {R : Type 0} (m : R → ℤ) where
  sum_by-insert_ordered :
      (before : ℕ × R → ℕ × R → Bool) (e : ℕ × R) (rows : List (ℕ × R))
      → sum_by m (insert_ordered before e rows) ≡ m e.1 +ℤ sum_by m rows
  unfolding insert_ordered
  sum_by-insert_ordered before e [] = refl
  sum_by-insert_ordered before e (d ∷ rows) = grind (int_laws, sum_by-insert_ordered before e rows)

  -- An order changes no sum.
  pub sum_by-order_by :
      (before : ℕ × R → ℕ × R → Bool) (rows : List (ℕ × R))
      → sum_by m (order_by before rows) ≡ sum_by m rows
  unfolding order_by
  sum_by-order_by before [] = refl
  sum_by-order_by before (e ∷ rows) = rw (sum_by-insert_ordered, sum_by-order_by before rows)

module _ {R : Type 0} (id : ℕ) (guard : R → Bool) (f : R → R) (t : Table R) where
  -- An UPDATE by primary key that affects one row has found the row, and the row passed its guard.
  pub update_one :
      ((update id guard f t).1 == 1) ≡ true
      → (r : R) × (find id t.rows ≡ some r)
        × (guard r ≡ true)
        × ((update id guard f t).0 ≡ record t { rows = adjust id f t.rows })
  update_one h = elim (Option-cases (find id t.rows)) [
    | inl e ↦ cc (rw e at h)
    | inr (r, e) ↦ elim (Bool-cases (guard r)) [
      | inl g ↦ (r, e, g, rw (e, g))
      | inr g ↦ cc (rw (e, g) at h)
    ]
  ]

module _ {R : Type 0} where
  -- The primary key.
  abbrev pub IsUnique : List (ℕ × R) → Type 0
  IsUnique [] = Unit
  IsUnique ((i, r) ∷ rows) = (find i rows ≡ none) × IsUnique rows

  pub adjust-IsUnique :
      (id : ℕ) (f : R → R) (rows : List (ℕ × R)) → IsUnique rows → IsUnique (adjust id f rows)
  adjust-IsUnique id f [] u = u
  adjust-IsUnique id f ((i, r) ∷ rows) u = elim (Bool-cases (i == id)) [
    | inl e ↦ rw e u
    | inr e ↦ rw e (absent_in_adjust i rows u.0, adjust-IsUnique id f rows u.1)
  ]
    where
      absent_in_adjust :
          (i : ℕ) (rows : List (ℕ × R)) → find i rows ≡ none → find i (adjust id f rows) ≡ none
      absent_in_adjust i rows h = rw (find-adjust, h) (ground arith)

  -- The entries of a table, looked up.
  found-cons :
      (i : ℕ) (r : R) (rows : List (ℕ × R)) (es : List (ℕ × R))
      → find i rows ≡ none
      → All (λ e. find e.0 rows ≡ some e.1) es
      → All (λ e. find e.0 ((i, r) ∷ rows) ≡ some e.1) es
  found-cons i r rows [] h a = a
  found-cons i r rows ((j, s) ∷ es) h a = elim (Bool-cases (i == j)) [
    | inl e ↦ let same : i ≡ j = ground arith in cc
    | inr e ↦ (rw e a.0, found-cons i r rows es h a.1)
  ]

  pub All-found : (rows : List (ℕ × R)) → IsUnique rows → All (λ e. find e.0 rows ≡ some e.1) rows
  All-found [] u = u
  All-found ((i, r) ∷ rows) u =
      (rw (==_refl i) refl, found-cons i r rows rows u.0 (All-found rows u.1))

  module _ (P : ℕ × R → Type 0) where
    -- SELECT … WHERE returns rows that pass, and ORDER BY keeps them.
    pub All-select :
        (p : ℕ × R → Bool) (rows : List (ℕ × R))
        → All P rows
        → All (λ e. P e × (p e ≡ true)) (select p rows)
    All-select p [] a = a
    All-select p (e ∷ rows) a = elim (Bool-cases (p e)) [
      | inl h ↦ rw h ((a.0, h), All-select p rows a.1)
      | inr h ↦ rw h (All-select p rows a.1)
    ]

    pub All-insert_ordered :
        (before : ℕ × R → ℕ × R → Bool) (e : ℕ × R) (rows : List (ℕ × R))
        → P e
        → All P rows
        → All P (insert_ordered before e rows)
    unfolding insert_ordered
    All-insert_ordered before e [] h a = (h, a)
    All-insert_ordered before e (d ∷ ds) h a = elim (Bool-cases (before e d)) [
      | inl b ↦ rw b (h, a)
      | inr b ↦ rw b (a.0, All-insert_ordered before e ds h a.1)
    ]

    pub All-order_by :
        (before : ℕ × R → ℕ × R → Bool) (rows : List (ℕ × R))
        → All P rows
        → All P (order_by before rows)
    unfolding order_by
    All-order_by before [] a = a
    All-order_by before (e ∷ rows) a =
        All-insert_ordered before e (order_by before rows) a.0 (All-order_by before rows a.1)

    pub All-head : (rows : List (ℕ × R)) (e : ℕ × R) → All P rows → head? rows ≡ some e → P e
    All-head [] e a h = cc
    All-head (d ∷ ds) e a h = let same : d ≡ e = cc in subst P same a.0
