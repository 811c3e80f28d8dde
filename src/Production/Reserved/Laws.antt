-- ===== src/Production/Reserved/Laws.antt =====
-- Consuming and releasing keep the stock in order, and take what they say.
use topology_supply_chain.Common.{
  ◌≡◌, refl, ap, ◌∙◌, true, false, List, [], ◌∷◌, arith, if◌then◌else◌,
}
use topology_supply_chain.Common.Int.{
  ℤ, pos, ◌+ℤ◌, ◌-ℤ◌, ◌≤ℤ◌, leb_ℤ, eq_ℤ, min_ℤ, eq_ℤ→eq, +ℤ_zero,
}
use mathlib.Core.Path.{subst}
use topology_supply_chain.Platform.Tx.{ok, ok-state, ok-value, ◌>>=◌, ◌>>◌, pure, throw_if}
use topology_supply_chain.Platform.Failure.{conflict}
use topology_supply_chain.Ops.Events.{draw_uuid}
use topology_supply_chain.Inventory.Rows.{insert_movement}
use topology_supply_chain.Platform.Keeps.{Keeps, Keeps-bind, Keeps-throw_if}
use topology_supply_chain.Platform.Leads.{
  Leads, Leads-Keeps, Leads-bind, Leads-branch, Leads-from, Leads-to, Leads-throw_if,
}
use topology_supply_chain.Sql.Laws.{sum_by}
use topology_supply_chain.Ops.Store.{Db, Movement}
use topology_supply_chain.Ops.Access.{Command}
use topology_supply_chain.Inventory.Stock.{IsStocked}
use topology_supply_chain.Inventory.Steps.{OnData, draw_uuid-OnData, insert_movement-OnData}
use topology_supply_chain.Production.Reserved.{
  PoolRow, consumption, release, is_empty, can_draw, drawn_on, has_locked, unlocked_by, holds_still,
  given_back, returned_by, update_both, draw_row, draw_rows, consume_reserved, release_row,
  release_rows, release_reserved,
}
use topology_supply_chain.Production.Reserved.Whole.{whole_stock, release_reserved-Keeps}
use topology_supply_chain.Production.Reserved.Ready.{
  AllMatch, drawn_left, unlocked_left, returned_left, given_all, taken_positive, left_positive,
  locked_stock, Ready, Drawn, drawn_step, released_step, update_both-Ready,
}

movement-Ready :
    (rows : List PoolRow) (total : ℤ) (m : Movement) → Keeps (Ready rows total) (insert_movement m)
unfolding OnData
movement-Ready rows total m = record { at = (insert_movement-OnData (Ready rows total) m).at }

uuid-Ready :
    (rows : List PoolRow) (total : ℤ) (c : Command) → Keeps (Ready rows total) (draw_uuid c)
unfolding OnData
uuid-Ready rows total c = record { at = (draw_uuid-OnData (Ready rows total) c).at }

draw_row-Ready :
    (c : Command) (row : PoolRow) (take : ℤ) (rows : List PoolRow) (total : ℤ)
    → pos 0 ≤ℤ take
    → Leads (Ready (row ∷ rows) total) (draw_row c row take) (λ u. Ready rows (total -ℤ take))
unfolding draw_row
draw_row-Ready c row take rows total positive =
    Leads-bind
      (update_both row.id (can_draw take) (drawn_on take) row.batch_id (has_locked take)
        (unlocked_by take))
      (λ u. draw_uuid c >>= λ uuid. insert_movement (consumption c row take uuid))
      (update_both-Ready row (can_draw take) (drawn_on take) (has_locked take) (unlocked_by take)
        take (λ r. refl) (λ r h. (refl, drawn_left take r h))
        (λ b h n. (refl, unlocked_left take b h n)) rows total)
      (λ u. Leads-Keeps _ (
        Keeps-bind (draw_uuid c) (λ uuid. insert_movement (consumption c row take uuid))
          (uuid-Ready rows (total -ℤ take) c) (λ uuid. movement-Ready rows (total -ℤ take) _)))

release_row-Ready :
    (c : Command) (row : PoolRow) (rows : List PoolRow) (total : ℤ)
    → pos 0 ≤ℤ row.reserved_quantity
    → Leads
        (Ready (row ∷ rows) total)
        (release_row c row)
        (λ u. Ready rows (total -ℤ row.reserved_quantity))
unfolding release_row
release_row-Ready c row rows total positive =
    let q = row.reserved_quantity in
    Leads-bind
      (update_both row.id (holds_still q) given_back row.batch_id (has_locked q) (returned_by q))
      (λ u. draw_uuid c >>= λ uuid. insert_movement (release c row q uuid))
      (update_both-Ready row (holds_still q) given_back (has_locked q) (returned_by q) q (λ r. refl)
        (λ r h. (given_all q r h, omega arith)) (λ b h n. (refl, returned_left q b positive h n))
        rows total)
      (λ u. Leads-Keeps _ (
        Keeps-bind (draw_uuid c) (λ uuid. insert_movement (release c row q uuid))
          (uuid-Ready rows (total -ℤ q) c) (λ uuid. movement-Ready rows (total -ℤ q) _)))

stopped_draw :
    (rows : List PoolRow) (left total : ℤ) → Leads (Ready rows total) (pure left) (Drawn total left)
stopped_draw rows left total = record {
  at = λ db r db' ready h.
      let same : db ≡ db' = ok-state h in
      let value : left ≡ r = ok-value h in
      subst (Drawn total left r) same (ready.0, rw (ready.2, value) refl);
}

stopped :
    (rows : List PoolRow) (left total : ℤ)
    → Leads (Ready rows total) (pure left) (λ r. Drawn total r left)
stopped rows left total = record {
  at = λ db r db' ready h.
      let same : db ≡ db' = ok-state h in
      let value : left ≡ r = ok-value h in
      subst (Drawn total r left) same (ready.0, rw (ready.2, value) refl);
}

nothing_left :
    (stock asked total left : ℤ)
    → stock +ℤ asked ≡ total +ℤ left
    → eq_ℤ left (pos 0) ≡ true
    → stock +ℤ asked ≡ total
nothing_left stock asked total left h e =
    let none_left : left ≡ pos 0 = eq_ℤ→eq left (pos 0) e in
    h ∙ ap (λ x. total +ℤ x) none_left ∙ +ℤ_zero total

returned :
    (released before : ℤ)
    → Leads
        (Drawn before released (pos 0))
        (pure released)
        (λ all db. IsStocked db × (sum_by locked_stock db.batches.rows +ℤ all ≡ before))
returned released before = record {
  at = λ db r db' d h.
      let same : db ≡ db' = ok-state h in
      let value : released ≡ r = ok-value h in
      subst (λ x. IsStocked x × (sum_by locked_stock x.batches.rows +ℤ r ≡ before)) same
        (d.0, rw (← value) (d.1 ∙ +ℤ_zero before));
}

draw_rows-Drawn :
    (c : Command) (rows : List PoolRow) (remaining total : ℤ)
    → pos 0 ≤ℤ remaining
    → Leads (Ready rows total) (draw_rows c rows remaining) (Drawn total remaining)
unfolding draw_rows
draw_rows-Drawn c [] remaining total positive = stopped_draw [] remaining total
draw_rows-Drawn c (row ∷ rows) remaining total positive =
    let take = min_ℤ remaining row.reserved_quantity in
    Leads-branch (eq_ℤ remaining (pos 0)) (λ done. stopped_draw (row ∷ rows) remaining total)
      (λ more.
        Leads-branch (leb_ℤ row.reserved_quantity (pos 0))
          (λ none_held.
            Leads-from (λ db r. (r.0, r.1.1, r.2))
              (draw_rows-Drawn c rows remaining total positive))
          (λ some_held.
            Leads-bind (draw_row c row take) (λ u. draw_rows c rows (remaining -ℤ take))
              (draw_row-Ready c row take rows total
                (taken_positive remaining row.reserved_quantity positive some_held))
              (λ u.
                Leads-to (λ left db d. (d.0, drawn_step _ total remaining left take d.1))
                  (draw_rows-Drawn c rows (remaining -ℤ take) (total -ℤ take)
                    (left_positive remaining row.reserved_quantity)))))

release_rows-Drawn :
    (c : Command) (rows : List PoolRow) (before total : ℤ)
    → Leads (Ready rows total) (release_rows c rows before) (λ all. Drawn total all before)
unfolding release_rows
release_rows-Drawn c [] before total = stopped [] before total
release_rows-Drawn c (row ∷ rows) before total =
    Leads-branch (leb_ℤ row.reserved_quantity (pos 0))
      (λ none_held. Leads-from (λ db r. (r.0, r.1.1, r.2)) (release_rows-Drawn c rows before total))
      (λ some_held.
        Leads-bind (release_row c row) (λ u. release_rows c rows (before +ℤ row.reserved_quantity))
          (release_row-Ready c row rows total (ground arith))
          (λ u.
            Leads-to (λ all db d. (d.0, released_step _ total before all row.reserved_quantity d.1))
              (release_rows-Drawn c rows (before +ℤ row.reserved_quantity)
                (total -ℤ row.reserved_quantity))))

-- Consuming takes exactly what was asked for out of what is locked, and keeps the stock in order: where
-- the stock was in order, each row names a reservation of its batch, and the quantity is positive.
pub consume_takes_quantity :
    (c : Command) (rows : List PoolRow) (quantity : ℤ) (db db' : Db) (u : Unit {0})
    → IsStocked db
    → AllMatch db.reservations rows
    → leb_ℤ quantity (pos 0) ≡ false
    → consume_reserved c rows quantity db ≡ ok (u, db')
    → IsStocked db'
      × (sum_by locked_stock db'.batches.rows +ℤ quantity ≡ sum_by locked_stock db.batches.rows)
unfolding consume_reserved
consume_takes_quantity c rows quantity db db' u s match positive h =
    let total = sum_by locked_stock db.batches.rows in
    (Leads-bind {Q = λ v d. IsStocked d × (sum_by locked_stock d.batches.rows +ℤ quantity ≡ total)}
        (draw_rows c rows quantity)
        (λ remaining.
          throw_if (if eq_ℤ remaining (pos 0) then false else true)
            (conflict "Insufficient reserved inventory"))
        (draw_rows-Drawn c rows quantity total (ground arith))
        (λ remaining.
          Leads-to (λ v d e. (e.0.0, nothing_left _ quantity total remaining e.0.1 (ground arith)))
            (Leads-throw_if (if eq_ℤ remaining (pos 0) then false else true) _))).at
      db u db' (s, match, refl) (rw positive at h)

released_total :
    (c : Command) (rows : List PoolRow) (total : ℤ) (db db' : Db)
    → IsStocked db
    → AllMatch db.reservations rows
    → release_reserved c rows db ≡ ok (total, db')
    → IsStocked db'
      × (sum_by locked_stock db'.batches.rows +ℤ total ≡ sum_by locked_stock db.batches.rows)
unfolding release_reserved
released_total c rows total db db' s match h =
    let before = sum_by locked_stock db.batches.rows in
    (Leads-bind (throw_if (is_empty rows) (conflict "No active reservations to release")) _
        (Leads-Keeps _ (Keeps-throw_if _ _))
        (λ u.
          Leads-bind (release_rows c rows (pos 0))
            (λ released.
              throw_if (leb_ℤ released (pos 0))
                (conflict "No positive reserved quantity to release")
              >> pure released)
            (release_rows-Drawn c rows (pos 0) before)
            (λ released.
              Leads-bind (throw_if (leb_ℤ released (pos 0)) _) _
                (Leads-Keeps _ (Keeps-throw_if _ _)) (λ v. returned released before)))).at
      db total db' (s, match, refl) h

-- Releasing returns how much it has taken out of what the batches have locked, all of which becomes available again: what they have
-- available and locked together stays the same. It keeps the stock in order. The stock has to be in order, and each row to name a
-- reservation of its batch.
pub release_returns_total :
    (c : Command) (rows : List PoolRow) (total : ℤ) (db db' : Db)
    → IsStocked db
    → AllMatch db.reservations rows
    → release_reserved c rows db ≡ ok (total, db')
    → IsStocked db'
      × (sum_by locked_stock db'.batches.rows +ℤ total ≡ sum_by locked_stock db.batches.rows)
      × (sum_by whole_stock db'.batches.rows ≡ sum_by whole_stock db.batches.rows)
release_returns_total c rows total db db' s match h =
    let done = released_total c rows total db db' s match h in
    (
      done.0,
      done.1,
      (release_reserved-Keeps (sum_by whole_stock db.batches.rows) c rows).at db total db' refl h,
    )
