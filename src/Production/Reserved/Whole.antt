-- ===== src/Production/Reserved/Whole.antt =====
-- Releasing moves stock between what is locked and what is available, and takes none away (releaseReservedMaterials of
-- apps/api/src/modules/production-orders/writes.ts).
use topology_supply_chain.Common.{ℕ, ◌≡◌, ap, ◌∙◌, Bool, List, [], ◌∷◌, ◌==◌, Bool-cases, inl, inr}
use topology_supply_chain.Common.Int.{ℤ, pos_part, neg_part, ◌+ℤ◌, int_laws}
use mathlib.Core.Path.{subst}
use topology_supply_chain.Platform.Keeps.{Keeps, keeps_rules}
use topology_supply_chain.Sql.{adjust, update}
use topology_supply_chain.Sql.Laws.{update_one, sum_by, sum_by-adjust}
use topology_supply_chain.Ops.Store.{Db, Batch, Reservation, Movement}
use topology_supply_chain.Ops.Access.{Command}
use topology_supply_chain.Ops.Events.{draw_uuid}
use topology_supply_chain.Inventory.Rows.{insert_movement}
use topology_supply_chain.Inventory.Steps.{OnData, draw_uuid-OnData, insert_movement-OnData}
use topology_supply_chain.Production.Reserved.{
  PoolRow, returned_by, update_both, release_row, release_rows, release_reserved,
}

-- What a batch has, available or locked.
abbrev pub whole_stock : Batch → ℤ
whole_stock b = b.available_quantity +ℤ b.locked_quantity

abbrev pub HasWhole : ℤ → Db → Type 0
HasWhole total db = sum_by whole_stock db.batches.rows ≡ total

returned_whole : (q : ℤ) (b : Batch) → whole_stock (returned_by q b) ≡ whole_stock b
returned_whole q b = omega int_laws

same_sum : (after before whole : ℤ) → after +ℤ whole ≡ before +ℤ whole → after ≡ before
same_sum after before whole h = omega (int_laws, ap pos_part h, ap neg_part h)

-- A write that leaves what each batch has leaves the sum.
module _ (total : ℤ) where
  update_both-Keeps :
      (id : ℕ) (guard : Reservation → Bool) (f : Reservation → Reservation) (batch_id : ℕ)
      (batch_guard : Batch → Bool) (g : Batch → Batch)
      → ((b : Batch) → whole_stock (g b) ≡ whole_stock b)
      → Keeps (HasWhole total) (update_both id guard f batch_id batch_guard g)
  unfolding update_both
  update_both-Keeps id guard f batch_id batch_guard g same = record {
    at = λ db u db' s h. elim (Bool-cases ((update id guard f db.reservations).1 == 1)) [
      | inr other ↦ cc (rw other at h)
      | inl one ↦ elim (Bool-cases ((update batch_id batch_guard g db.batches).1 == 1)) [
        | inr other ↦ cc (rw (one, other) at h)
        | inl two ↦
            let (b, found, fits, changed) = update_one batch_id batch_guard g db.batches two in
            let after : record db.batches { rows = adjust batch_id g db.batches.rows }
                ≡ db'.batches =
              cc (rw (one, two) at h, changed) in
            subst (λ t. sum_by whole_stock t.rows ≡ total) after
              (same_sum _ _ (whole_stock b)
                  (rw (same b) at (sum_by-adjust whole_stock batch_id g db.batches.rows b found))
                ∙ s)
      ]
    ];
  }

  movement-Keeps : (m : Movement) → Keeps (HasWhole total) (insert_movement m)
  unfolding OnData
  movement-Keeps m = record { at = (insert_movement-OnData (HasWhole total) m).at }

  uuid-Keeps : (c : Command) → Keeps (HasWhole total) (draw_uuid c)
  unfolding OnData
  uuid-Keeps c = record { at = (draw_uuid-OnData (HasWhole total) c).at }

  release_row-Keeps : (c : Command) (row : PoolRow) → Keeps (HasWhole total) (release_row c row)
  unfolding release_row
  release_row-Keeps c row =
      search (keeps_rules, update_both-Keeps, returned_whole, movement-Keeps, uuid-Keeps) depth 9

  release_rows-Keeps :
      (c : Command) (rows : List PoolRow) (sum : ℤ)
      → Keeps (HasWhole total) (release_rows c rows sum)
  unfolding release_rows
  release_rows-Keeps c [] sum = search keeps_rules
  release_rows-Keeps c (row ∷ rows) sum =
      search (keeps_rules, release_row-Keeps, release_rows-Keeps c rows) depth 9

  pub release_reserved-Keeps :
      (c : Command) (rows : List PoolRow) → Keeps (HasWhole total) (release_reserved c rows)
  unfolding release_reserved
  release_reserved-Keeps c rows = search (keeps_rules, release_rows-Keeps) depth 9
