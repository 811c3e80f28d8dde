-- ===== src/Inventory/Transfer/Laws.antt =====
-- What a transition of a transfer guarantees.
use topology_supply_chain.Common.{ℕ, ◌≡◌, ap, true, List, arith, not}
use topology_supply_chain.Common.Int.{
  ℤ, pos, pos_part, neg_part, ◌+ℤ◌, ◌-ℤ◌, ◌≤ℤ◌, eq_ℤ, eq_ℤ→eq, int_laws,
}
use mathlib.Core.Path.{subst}
use topology_supply_chain.Platform.Tx.{throw_if, gets, ◌>>=◌, ◌>>◌}
use topology_supply_chain.Platform.Keeps.{Keeps-throw_if, Keeps-gets}
use topology_supply_chain.Platform.Leads.{
  Leads, Leads-Keeps, Leads-throw_if, Leads-bind, Leads-given, Leads-fact,
}
use topology_supply_chain.Ops.Store.{Db, Batch, Transfer, Movement, approved, shipped}
use topology_supply_chain.Ops.Access.{Command}
use topology_supply_chain.Inventory.Rows.{insert_movement, insert_batch}
use topology_supply_chain.Inventory.Steps.{OnData, insert_movement-OnData}
use topology_supply_chain.Inventory.Transfer.Plan.{total_taken, deductions-total}
use topology_supply_chain.Inventory.Transfer.Move.{
  TransferAction, ship, receive, status_before, has_status, moved, candidates, deductions,
  ship_transfer, receive_transfer, ship_writes, ship_planned, receive_writes, claim, deduct_all,
  outgoing, incoming, arriving, move_stock,
}
use topology_supply_chain.Inventory.Transfer.Conservation.{
  Holding, claim-Leads, deduct_all-Leads, arrival-Leads,
}

-- The transition is made: the status was the one it needs, the transfer has moved, and the total stays.
abbrev pub Moved : TransferAction → ℕ → Transfer → ℤ → Db → Type 0
Moved a id t total db =
    Holding id (moved a t) total db × (has_status (status_before a) t.status ≡ true)

back : (total q : ℤ) → (total +ℤ q) -ℤ q ≡ total
back total q = omega int_laws

forth : (total q : ℤ) → (total -ℤ q) +ℤ q ≡ total
forth total q = omega int_laws

enough : (ds left q : ℤ) → ds +ℤ left ≡ q → eq_ℤ left (pos 0) ≡ true → ds ≡ q
enough ds left q h e =
    let none_left : left ≡ pos 0 = eq_ℤ→eq left (pos 0) e in
    omega (int_laws, ap pos_part (rw none_left at h), ap neg_part (rw none_left at h))

-- The last write, where the total has come back to what it was.
movement-Leads :
    (id : ℕ) (t : Transfer) (total total' : ℤ) (m : Movement)
    → total' ≡ total
    → Leads (Holding id t total') (insert_movement m) (λ u. Holding id t total)
unfolding OnData
movement-Leads id t total total' m same =
    subst (λ x. Leads (Holding id t total') (insert_movement m) (λ u. Holding id t x)) same
      (Leads-Keeps (insert_movement m)
        (record { at = (insert_movement-OnData (Holding id t total') m).at }))

ship_writes-Leads :
    (c : Command) (id : ℕ) (t : Transfer) (total : ℤ) (ds : List (ℕ × ℤ))
    → total_taken ds ≡ t.quantity
    → Leads (Holding id t total) (ship_writes c id t ds) (λ u. Moved ship id t total)
unfolding ship_writes
ship_writes-Leads c id t total ds all_taken =
    let after = total +ℤ t.quantity in
    let same : after -ℤ total_taken ds ≡ total = rw all_taken (back total t.quantity) in
    Leads-bind (claim ship id) (λ u. deduct_all ds >> insert_movement (outgoing c id t))
      (claim-Leads ship id t total)
      (λ u. Leads-given _ λ was. Leads-fact _ was (
        Leads-bind (deduct_all ds) (λ v. insert_movement (outgoing c id t))
          (deduct_all-Leads id (moved ship t) after ds)
          (λ v. movement-Leads id (moved ship t) total (after -ℤ total_taken ds) _ same)))

ship_planned-Leads :
    (c : Command) (id : ℕ) (t : Transfer) (total : ℤ) (batches : List (ℕ × Batch))
    → Leads
        (Holding id t total)
        (ship_planned c id t (deductions t.quantity batches))
        (λ u. Moved ship id t total)
unfolding ship_planned
ship_planned-Leads c id t total batches =
    let plan = deductions t.quantity batches in
    Leads-bind (throw_if (not (eq_ℤ plan.1 (pos 0))) _) (λ u. ship_writes c id t plan.0)
      (Leads-throw_if _ _)
      (λ u. Leads-given _ λ covered. ship_writes-Leads c id t total plan.0 (
        enough (total_taken plan.0) plan.1 t.quantity (deductions-total t.quantity batches)
          (ground arith)))

receive_writes-Leads :
    (c : Command) (id : ℕ) (t : Transfer) (total : ℤ)
    → pos 0 ≤ℤ t.quantity
    → Leads (Holding id t total) (receive_writes c id t) (λ u. Moved receive id t total)
unfolding receive_writes
receive_writes-Leads c id t total positive =
    let after = total -ℤ t.quantity in
    Leads-bind (claim receive id)
      (λ u. insert_batch (arriving c t) >> insert_movement (incoming c id t))
      (claim-Leads receive id t total)
      (λ u. Leads-given _ λ was. Leads-fact _ was (
        Leads-bind (insert_batch (arriving c t)) (λ v. insert_movement (incoming c id t))
          (arrival-Leads c id t (moved receive t) after positive)
          (λ v.
            movement-Leads id (moved receive t) total (after +ℤ t.quantity) _
              (forth total t.quantity))))

pub move_stock-Leads :
    (c : Command) (a : TransferAction) (id : ℕ) (t : Transfer) (total : ℤ)
    → pos 0 ≤ℤ t.quantity
    → Leads (Holding id t total) (move_stock c a id t) (λ u. Moved a id t total)
unfolding ship_transfer receive_transfer
move_stock-Leads c ship id t total positive =
    Leads-bind (throw_if (not (has_status approved t.status)) _)
      (λ u. gets (candidates t) >>= λ batches. ship_planned c id t (deductions t.quantity batches))
      (Leads-Keeps _ (Keeps-throw_if _ _))
      (λ u.
        Leads-bind (gets (candidates t))
          (λ batches. ship_planned c id t (deductions t.quantity batches))
          (Leads-Keeps _ (Keeps-gets (candidates t)))
          (λ batches. ship_planned-Leads c id t total batches))
move_stock-Leads c receive id t total positive =
    Leads-bind (throw_if (not (has_status shipped t.status)) _) (λ u. receive_writes c id t)
      (Leads-Keeps _ (Keeps-throw_if _ _)) (λ u. receive_writes-Leads c id t total positive)
