-- ===== src/Production/Reserved/Ready.antt =====
-- What the steps of consuming and releasing keep: the rows that are still to come match their
-- reservations, the stock is in order, and how much of it is locked is known.
use topology_supply_chain.Common.{
  ℕ, ◌≡◌, refl, sym, ap, ◌∙◌, Bool, true, false, some, List, [], ◌∷◌, arith, ◌==◌, Bool-cases, inl,
  inr,
}
use topology_supply_chain.Common.Int.{
  ℤ, pos, pos_part, neg_part, ◌+ℤ◌, ◌-ℤ◌, ◌≤ℤ◌, leb_ℤ, min_ℤ, int_laws,
}
use mathlib.Core.Path.{subst}
use topology_supply_chain.Platform.Leads.{Leads}
use topology_supply_chain.Sql.{Table, find, adjust, update}
use topology_supply_chain.Sql.Laws.{
  update_one, sum_by, sum_by-adjust, AllRows-adjust, AllRows-find, find-adjust,
}
use topology_supply_chain.Ops.Store.{Db, Batch, Reservation}
use topology_supply_chain.Inventory.Stock.{
  NonNeg, HoldsNonNeg, Stocked, IsStocked, held, Stocked-adjust,
}
use topology_supply_chain.Production.Reserved.{
  PoolRow, can_draw, drawn_on, has_locked, unlocked_by, holds_still, returned_by, update_both,
}

-- The reservation of a row is there, and is one of the row's batch.
abbrev pub Matches : Table Reservation → PoolRow → Type 0
Matches reservations row =
    (r : Reservation) × (find row.id reservations.rows ≡ some r) × (r.batch_id ≡ row.batch_id)

abbrev pub AllMatch : Table Reservation → List PoolRow → Type 0
AllMatch reservations [] = Unit
AllMatch reservations (row ∷ rows) = Matches reservations row × AllMatch reservations rows

Matches-adjust :
    (id : ℕ) (f : Reservation → Reservation) (t : Table Reservation) (row : PoolRow)
    → ((r : Reservation) → (f r).batch_id ≡ r.batch_id)
    → Matches t row
    → Matches (record t { rows = adjust id f t.rows }) row
Matches-adjust id f t row keep (r, found, same) = elim (Bool-cases (id == row.id)) [
  | inl e ↦ (f r, rw find-adjust (rw (e, found) refl), keep r ∙ same)
  | inr e ↦ (r, rw find-adjust (rw e found), same)
]

-- A write that leaves the batch of every reservation as it was keeps the rows in place.
AllMatch-adjust :
    (id : ℕ) (f : Reservation → Reservation) (t : Table Reservation) (rows : List PoolRow)
    → ((r : Reservation) → (f r).batch_id ≡ r.batch_id)
    → AllMatch t rows
    → AllMatch (record t { rows = adjust id f t.rows }) rows
AllMatch-adjust id f t [] keep h = tt
AllMatch-adjust id f t (row ∷ rows) keep h =
    (Matches-adjust id f t row keep h.0, AllMatch-adjust id f t rows keep h.1)

moved_sum : (s s' r r' l q : ℤ) → s' +ℤ r ≡ s +ℤ r' → r' ≡ r -ℤ q → s' +ℤ l ≡ s +ℤ (l -ℤ q)
moved_sum s s' r r' l q h k =
    omega (int_laws, ap pos_part h, ap neg_part h, ap pos_part k, ap neg_part k)

-- A reservation gives up `q`, and its batch unlocks `q`.
both-Stocked :
    (id : ℕ) (f : Reservation → Reservation) (batch_id : ℕ) (g : Batch → Batch) (q : ℤ)
    (batches : Table Batch) (reservations : Table Reservation) {r : Reservation} {b : Batch}
    → find id reservations.rows ≡ some r
    → find batch_id batches.rows ≡ some b
    → r.batch_id ≡ batch_id
    → (f r).batch_id ≡ r.batch_id
    → (f r).reserved_quantity ≡ r.reserved_quantity -ℤ q
    → (g b).locked_quantity ≡ b.locked_quantity -ℤ q
    → pos 0 ≤ℤ (f r).reserved_quantity
    → NonNeg (g b)
    → Stocked batches reservations
    → Stocked
        (record batches { rows = adjust batch_id g batches.rows })
        (record reservations { rows = adjust id f reservations.rows })
both-Stocked id f batch_id g q batches reservations {r} {b} found found_b same keep less less_b left
      n s =
    Stocked-adjust batch_id g batches reservations
      (record reservations { rows = adjust id f reservations.rows }) found_b n
      (AllRows-adjust HoldsNonNeg id f reservations.rows s.reserved
        (λ x e. let known : r ≡ x = cc (found, e) in subst (λ y. HoldsNonNeg (f y)) known left))
      (λ j.
        let moved = sum_by-adjust (held j) id f reservations.rows r found in
        elim (Bool-cases (batch_id == j)) [
          | inl e ↦
              let here : (r.batch_id == j) ≡ true = subst (λ x. (x == j) ≡ true) (sym same) e in
              rw (e, less_b) (moved_sum _ _ _ _ b.locked_quantity q (rw (keep, here) at moved) less)
          | inr e ↦
              let here : (r.batch_id == j) ≡ false = subst (λ x. (x == j) ≡ false) (sym same) e in
              rw e (rw (keep, here) at moved)
        ])
      s

pub drawn_left :
    (take : ℤ) (r : Reservation)
    → can_draw take r ≡ true
    → pos 0 ≤ℤ (drawn_on take r).reserved_quantity
drawn_left take r h = grind int_laws

pub unlocked_left :
    (take : ℤ) (b : Batch) → has_locked take b ≡ true → NonNeg b → NonNeg (unlocked_by take b)
unlocked_left take b h n = (n.0, grind int_laws, n.2, n.3)

pub returned_left :
    (q : ℤ) (b : Batch) → pos 0 ≤ℤ q → has_locked q b ≡ true → NonNeg b → NonNeg (returned_by q b)
returned_left q b positive h n = (omega (int_laws, n.0), grind int_laws, n.2, n.3)

pub given_all :
    (q : ℤ) (r : Reservation) → holds_still q r ≡ true → pos 0 ≡ r.reserved_quantity -ℤ q
given_all q r h = grind int_laws

pub taken_positive :
    (remaining reserved : ℤ)
    → pos 0 ≤ℤ remaining
    → leb_ℤ reserved (pos 0) ≡ false
    → pos 0 ≤ℤ min_ℤ remaining reserved
taken_positive remaining reserved h k = ground arith

pub left_positive : (remaining reserved : ℤ) → pos 0 ≤ℤ remaining -ℤ min_ℤ remaining reserved
left_positive remaining reserved = elim (Bool-cases (leb_ℤ remaining reserved)) [
  | inl e ↦ rw e (omega int_laws)
  | inr e ↦ rw e (grind int_laws)
]

-- What the batches have locked.
abbrev pub locked_stock : Batch → ℤ
locked_stock b = b.locked_quantity

-- The rows that are still to come match, the stock is in order, and `total` is locked.
abbrev pub Ready : List PoolRow → ℤ → Db → Type 0
Ready rows total db =
    IsStocked db × AllMatch db.reservations rows × (sum_by locked_stock db.batches.rows ≡ total)

-- The stock is in order, and of what was locked all but `left` of `asked` has gone.
abbrev pub Drawn : ℤ → ℤ → ℤ → Db → Type 0
Drawn total asked left db =
    IsStocked db × (sum_by locked_stock db.batches.rows +ℤ asked ≡ total +ℤ left)

less_locked :
    (stock after l l' q total : ℤ)
    → after +ℤ l ≡ stock +ℤ l'
    → l' ≡ l -ℤ q
    → stock ≡ total
    → after ≡ total -ℤ q
less_locked stock after l l' q total h k m = omega (
  int_laws,
  ap pos_part h,
  ap neg_part h,
  ap pos_part k,
  ap neg_part k,
  ap pos_part m,
  ap neg_part m,
)

pub drawn_step :
    (stock total asked left q : ℤ)
    → stock +ℤ (asked -ℤ q) ≡ (total -ℤ q) +ℤ left
    → stock +ℤ asked ≡ total +ℤ left
drawn_step stock total asked left q h = omega (int_laws, ap pos_part h, ap neg_part h)

pub released_step :
    (stock total before all q : ℤ)
    → stock +ℤ all ≡ (total -ℤ q) +ℤ (before +ℤ q)
    → stock +ℤ all ≡ total +ℤ before
released_step stock total before all q h = omega (int_laws, ap pos_part h, ap neg_part h)

module _ (row : PoolRow) (guard : Reservation → Bool) (f : Reservation → Reservation)
    (batch_guard : Batch → Bool) (g : Batch → Batch) (q : ℤ)
    (keep : (r : Reservation) → (f r).batch_id ≡ r.batch_id)
    (gives : (r : Reservation)
      → guard r ≡ true
      → ((f r).reserved_quantity ≡ r.reserved_quantity -ℤ q) × (pos 0 ≤ℤ (f r).reserved_quantity))
    (takes : (b : Batch)
      → batch_guard b ≡ true
      → NonNeg b
      → ((g b).locked_quantity ≡ b.locked_quantity -ℤ q) × NonNeg (g b)) where
  pub update_both-Ready :
      (rows : List PoolRow) (total : ℤ)
      → Leads
          (Ready (row ∷ rows) total)
          (update_both row.id guard f row.batch_id batch_guard g)
          (λ u. Ready rows (total -ℤ q))
  unfolding update_both
  update_both-Ready rows total = record {
    at = λ db u db' ready h.
        let s = ready.0 in
        let (r0, found0, same0) = ready.1.0 in
        let rest = ready.1.1 in
        elim (Bool-cases ((update row.id guard f db.reservations).1 == 1)) [
          | inr other ↦ cc (rw other at h)
          | inl one ↦ elim (Bool-cases ((update row.batch_id batch_guard g db.batches).1 == 1)) [
            | inr other ↦ cc (rw (one, other) at h)
            | inl two ↦
                let (r, found, passed, changed) = update_one row.id guard f db.reservations one in
                let (b, found_b, fits, changed_b) =
                  update_one row.batch_id batch_guard g db.batches two in
                let known : r0 ≡ r = cc (found0, found) in
                let same : r.batch_id ≡ row.batch_id =
                  subst (λ x. x.batch_id ≡ row.batch_id) known same0 in
                let n = AllRows-find NonNeg row.batch_id db.batches.rows s.counts found_b in
                let after : record db {
                  reservations = record db.reservations {
                    rows = adjust row.id f db.reservations.rows;
                  };
                  batches = record db.batches { rows = adjust row.batch_id g db.batches.rows };
                }
                    ≡ db' =
                  cc (rw (one, two) at h, changed, changed_b) in
                subst (Ready rows (total -ℤ q)) after (
                  both-Stocked row.id f row.batch_id g q db.batches db.reservations found found_b
                      same (keep r) (gives r passed).0 (takes b fits n).0 (gives r passed).1
                      (takes b fits n).1 s,
                  AllMatch-adjust row.id f db.reservations rows keep rest,
                  less_locked _ _ b.locked_quantity _ q total
                      (sum_by-adjust locked_stock row.batch_id g db.batches.rows b found_b)
                      (takes b fits n).0 ready.2,
                )
          ]
        ];
  }
