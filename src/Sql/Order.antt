-- ===== src/Sql/Order.antt =====
-- ORDER BY and SELECT … LIMIT 1: the first row precedes every other.
use topology_supply_chain.Common.{
  ℕ, ◌≡◌, ==_iff, Bool, true, false, some, List, [], ◌∷◌, ◌==◌, All, head?, Bool-cases, inl, inr,
}
use mathlib.Core.Path.{subst}
use topology_supply_chain.Sql.Laws.{All-insert_ordered}
use topology_supply_chain.Sql.{find, select, order_by, insert_ordered}

-- A total order, as a test.
pub record IsOrder {E : Type 0} (before : E → E → Bool) : Type 0 where
  pub same : (a : E) → before a a ≡ true
  pub total : (a b : E) → before a b ≡ false → before b a ≡ true
  pub compose : (a b c : E) → before a b ≡ true → before b c ≡ true → before a c ≡ true

module _ {R : Type 0} where
  -- A row that SELECT passes is among those that it returns.
  pub select_found :
      (P : ℕ × R → Type 0) (p : ℕ × R → Bool) (rows : List (ℕ × R)) (id : ℕ) (r : R)
      → All P (select p rows)
      → find id rows ≡ some r
      → p (id, r) ≡ true
      → P (id, r)
  select_found P p [] id r a h k = cc
  select_found P p ((i, s) ∷ rows) id r a h k = elim (Bool-cases (i == id)) [
    | inr other ↦ elim (Bool-cases (p (i, s))) [
      | inl y ↦ let rest = rw y at a in select_found P p rows id r rest.1 (rw other at h) k
      | inr n ↦ select_found P p rows id r (rw n at a) (rw other at h) k
    ]
    | inl e ↦
        let same_id : i ≡ id = (==_iff i id).0 e in
        let same_row : s ≡ r = cc (rw e at h) in
        let same : ◌≡◌ {A = ℕ × R} (i, s) (id, r) = cc in
        let passes : p (i, s) ≡ true = rw same k in let all = rw passes at a in subst P same all.0
  ]

module _ {R : Type 0} (before : ℕ × R → ℕ × R → Bool) (order : IsOrder before) where
  abbrev IsOrdered : List (ℕ × R) → Type 0
  IsOrdered [] = Unit
  IsOrdered (e ∷ es) = All (λ d. before e d ≡ true) es × IsOrdered es

  precedes-All :
      (e d : ℕ × R) (ds : List (ℕ × R))
      → before e d ≡ true
      → All (λ x. before d x ≡ true) ds
      → All (λ x. before e x ≡ true) ds
  precedes-All e d [] h a = tt
  precedes-All e d (x ∷ ds) h a = (order.compose e d x h a.0, precedes-All e d ds h a.1)

  -- Insertion adds one row.
  insert-All_back :
      (P : ℕ × R → Type 0) (e : ℕ × R) (ds : List (ℕ × R))
      → All P (insert_ordered before e ds)
      → P e × All P ds
  unfolding insert_ordered
  insert-All_back P e [] a = a
  insert-All_back P e (d ∷ ds) a = elim (Bool-cases (before e d)) [
    | inl b ↦ rw b at a
    | inr b ↦
        let rest = rw b at a in
        let (first, others) = insert-All_back P e ds rest.1 in (first, (rest.0, others))
  ]

  insert-IsOrdered :
      (e : ℕ × R) (ds : List (ℕ × R)) → IsOrdered ds → IsOrdered (insert_ordered before e ds)
  unfolding insert_ordered
  insert-IsOrdered e [] s = (tt, tt)
  insert-IsOrdered e (d ∷ ds) s = elim (Bool-cases (before e d)) [
    | inl b ↦ rw b ((b, precedes-All e d ds b s.0), s)
    | inr b ↦ rw b (
      All-insert_ordered (λ x. before d x ≡ true) before e ds (order.total e d b) s.0,
      insert-IsOrdered e ds s.1,
    )
  ]

  order_by-IsOrdered : (rows : List (ℕ × R)) → IsOrdered (order_by before rows)
  unfolding order_by
  order_by-IsOrdered [] = tt
  order_by-IsOrdered (e ∷ rows) =
      insert-IsOrdered e (order_by before rows) (order_by-IsOrdered rows)

  order_by-All_back :
      (P : ℕ × R → Type 0) (rows : List (ℕ × R)) → All P (order_by before rows) → All P rows
  unfolding order_by
  order_by-All_back P [] a = a
  order_by-All_back P (e ∷ rows) a =
      let (first, rest) = insert-All_back P e (order_by before rows) a in
      (first, order_by-All_back P rows rest)

  head_first :
      (ds : List (ℕ × R)) (e : ℕ × R)
      → IsOrdered ds
      → head? ds ≡ some e
      → All (λ x. before e x ≡ true) ds
  head_first [] e s h = tt
  head_first (d ∷ ds) e s h =
      let same : d ≡ e = cc in
      subst (λ x. All (λ y. before x y ≡ true) (d ∷ ds)) same (order.same d, s.0)

  -- The first row of ORDER BY precedes every row.
  pub order_by-head :
      (rows : List (ℕ × R)) (e : ℕ × R)
      → head? (order_by before rows) ≡ some e
      → All (λ x. before e x ≡ true) rows
  order_by-head rows e h =
      order_by-All_back (λ x. before e x ≡ true) rows
        (head_first (order_by before rows) e (order_by-IsOrdered rows) h)
