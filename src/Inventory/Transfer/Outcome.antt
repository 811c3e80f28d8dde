-- ===== src/Inventory/Transfer/Outcome.antt =====
-- What a transition that goes through has done.
use topology_supply_chain.Common.{ℕ, ◌≡◌, refl, ◌∙◌, true, Option, some, arith}
use topology_supply_chain.Common.Int.{ℤ, pos, ◌≤ℤ◌}
use mathlib.Core.Path.{subst}
use topology_supply_chain.Platform.Tx.{ok, gets, or_throw, ◌>>=◌}
use topology_supply_chain.Platform.Failure.{missing}
use topology_supply_chain.Platform.Keeps.{Keeps, keeps_rules}
use topology_supply_chain.Platform.Leads.{
  Leads, Leads-Keeps, Leads-bind, Leads-gets, Leads-or_throw, Leads-given,
}
use topology_supply_chain.Sql.{find}
use topology_supply_chain.Sql.Laws.{AllRows-find}
use topology_supply_chain.Ops.Store.{Db, Transfer}
use topology_supply_chain.Ops.Access.{Command}
use topology_supply_chain.Ops.Versions.{lock_version, bump_version}
use topology_supply_chain.Ops.Events.{audit, domain_event}
use topology_supply_chain.Inventory.Steps.{OnData, data_rules, lock_version-OnData}
use topology_supply_chain.Common.{◌≢◌, false, sym}
use topology_supply_chain.Inventory.Transfer.Move.{
  status_after, ship, receive, TransferAction, status_before, has_status, moved, move_stock,
}
use topology_supply_chain.Inventory.Transfer.Transition.{
  TransitionBody, TransitionResult, require_movable, finish_transition, transition_locked,
  transition_found, transition_by, read_transition, transition_transfer,
}
use topology_supply_chain.Inventory.Transfer.Conservation.{IsAccounted, Holding, HasQuantity}
use topology_supply_chain.Inventory.Transfer.Laws.{Moved, move_stock-Leads}

finished :
    (c : Command) (a : TransferAction) (id version : ℕ) (db db' : Db) (r : TransitionResult)
    → finish_transition c a id version db ≡ ok (r, db')
    → (r.id ≡ id) × (r.action ≡ a)
unfolding finish_transition bump_version audit domain_event
finished c a id version db db' r h = ground arith

module _ (c : Command) (a : TransferAction) (id : ℕ) (t : Transfer) (total : ℤ) where
  lock-Keeps : Keeps (Holding id t total) (lock_version "inventory_transfer" id)
  unfolding OnData
  lock-Keeps = record { at = (lock_version-OnData (Holding id t total) "inventory_transfer" id).at }

  movable-OnData : Keeps (OnData (Holding id t total)) (require_movable c a t)
  unfolding require_movable
  movable-OnData = search data_rules depth 8

  movable-Keeps : Keeps (Holding id t total) (require_movable c a t)
  unfolding OnData
  movable-Keeps = record { at = movable-OnData.at }

  finish-OnData :
      (version : ℕ) → Keeps (OnData (Moved a id t total)) (finish_transition c a id version)
  unfolding finish_transition
  finish-OnData version = search data_rules depth 8

  finish-Leads :
      (version : ℕ)
      → Leads
          (Moved a id t total)
          (finish_transition c a id version)
          (λ r db. Moved a id t total db × ((r.id ≡ id) × (r.action ≡ a)))
  unfolding OnData
  finish-Leads version = record {
    at = λ db r db' m h.
        ((finish-OnData version).at db r db' m h, finished c a id version db db' r h);
  }

  transition_found-Leads :
      pos 0 ≤ℤ t.quantity
      → Leads
          (Holding id t total)
          (transition_found c a id t)
          (λ r db. Moved a id t total db × ((r.id ≡ id) × (r.action ≡ a)))
  unfolding transition_found transition_locked
  transition_found-Leads positive =
      Leads-bind (lock_version "inventory_transfer" id) (transition_locked c a id t)
        (Leads-Keeps _ lock-Keeps)
        (λ version.
          Leads-bind (require_movable c a t)
            (λ u. move_stock c a id t >>= λ v. finish_transition c a id version)
            (Leads-Keeps _ movable-Keeps)
            (λ u.
              Leads-bind (move_stock c a id t) (λ v. finish_transition c a id version)
                (move_stock-Leads c a id t total positive) (λ v. finish-Leads version)))

-- A transition from the state `db`: the transfer had the status that the action needs and has the one it
-- leads to, and the stock is in order with the same total.
abbrev pub Transitioned : ℤ → Db → TransitionResult → Db → Type 0
Transitioned total db r db' =
    (t : Transfer) × (find r.id db.transfers.rows ≡ some t)
    × (has_status (status_before r.action) t.status ≡ true)
    × (find r.id db'.transfers.rows ≡ some (moved r.action t))
    × IsAccounted total db'

module _ (c : Command) (total : ℤ) (db : Db) (accounted : IsAccounted total db) where
  found-Leads :
      (a : TransferAction) (id : ℕ) (t : Transfer)
      → find id db.transfers.rows ≡ some t
      → Leads (λ s. s ≡ db) (transition_found c a id t) (Transitioned total db)
  found-Leads a id t e = record {
    at = λ s r s' same h.
        let done =
          (transition_found-Leads c a id t total
              (AllRows-find HasQuantity id db.transfers.rows accounted.quantities e)).at
            db r s' (record { accounted = accounted; found = e })
            (subst (λ x. transition_found c a id t x ≡ ok (r, s')) same h) in
        (
          t,
          rw done.1.0 e,
          rw done.1.1 done.0.1,
          rw (done.1.0, done.1.1) done.0.0.found,
          done.0.0.accounted,
        );
  }

  read-Leads :
      (id : ℕ)
      → Leads
          (λ s. s ≡ db)
          (gets (λ d. find id d.transfers.rows))
          (λ f s. (s ≡ db) × (find id db.transfers.rows ≡ f))
  read-Leads id = record {
    at = λ s f s' same h.
        let m =
          (Leads-gets {P = λ (x : Db). x ≡ db} (λ (d : Db). find id d.transfers.rows)).at s f s'
            same h in
        (m.0, subst (λ (x : Db). find id x.transfers.rows ≡ f) {x = s'} m.0 m.1);
  }

  by-Leads :
      (a : TransferAction) (id : ℕ)
      → Leads (λ s. s ≡ db) (transition_by c a id) (Transitioned total db)
  unfolding transition_by
  by-Leads a id =
      Leads-bind (gets (λ d. find id d.transfers.rows))
        (λ found. or_throw found (missing "Transfer not found") >>= transition_found c a id)
        (read-Leads id)
        (λ found. Leads-given _ λ seen.
          Leads-bind (or_throw found (missing "Transfer not found")) (transition_found c a id)
            (Leads-or_throw found _)
            (λ t. Leads-given _ λ there. found-Leads a id t (seen ∙ there)))

  read_transition-Keeps :
      (raw : Option TransitionBody) → Keeps (λ s. s ≡ db) (read_transition c raw)
  unfolding read_transition
  read_transition-Keeps raw = search keeps_rules depth 9

-- Where the stock is in order and no transfer has a negative quantity, a transition that goes through takes its transfer from the
-- status that the action needs to the one it leads to, keeps the stock in order and the quantities so, and what
-- the batches have available and what is on its way add up to the same total as before.
pub transition_transfer_lem :
    (c : Command) (raw : Option TransitionBody) (total : ℤ) (db db' : Db) (r : TransitionResult)
    → IsAccounted total db
    → transition_transfer c raw db ≡ ok (r, db')
    → Transitioned total db r db'
unfolding transition_transfer
transition_transfer_lem c raw total db db' r accounted h =
    (Leads-bind (read_transition c raw) (λ request. transition_by c request.1 request.0)
        (Leads-Keeps _ (read_transition-Keeps c total db accounted raw))
        (λ request. by-Leads c total db accounted request.1 request.0)).at
      db r db' refl h

not_again : (a : TransferAction) → has_status (status_before a) (status_after a) ≡ false
not_again ship = refl
not_again receive = refl

-- A transition happens once. Where the stock was in order and no transfer had a negative quantity: after a
-- transition went through, no caller gets the same action on the same transfer through in the state that
-- it left.
pub transition_once :
    (c c' : Command) (raw raw' : Option TransitionBody) (total : ℤ) (db db' db'' : Db)
    (r r' : TransitionResult)
    → IsAccounted total db
    → transition_transfer c raw db ≡ ok (r, db')
    → r'.id ≡ r.id
    → r'.action ≡ r.action
    → transition_transfer c' raw' db' ≢ ok (r', db'')
transition_once c c' raw raw' total db db' db'' r r' accounted h same_id same_action h' =
    let (t, seen, was, left, after) = transition_transfer_lem c raw total db db' r accounted h in
    let (u, seen', was', left', after') =
      transition_transfer_lem c' raw' total db' db'' r' after h' in
    let same : moved r.action t ≡ u = cc (left, seen', same_id) in
    let again : has_status (status_before r.action) (status_after r.action) ≡ true =
      subst (λ x. has_status (status_before r.action) x.status ≡ true) (sym same)
        (rw same_action at was') in
    cc (not_again r.action, again)
