-- ===== src/Worker/Life/Powerless.antt =====
-- Every act of a worker that has lost the lease of the message it holds (the loop of apps/worker/src/server.ts).
use topology_supply_chain.Common.{ℕ, String, ◌≡◌, refl, false, some}
use topology_supply_chain.Sql.{find}
use topology_supply_chain.Worker.Job.{
  Fault, permanent, fence_paused, unexpected, Result, done, raise,
}
use topology_supply_chain.Worker.Rows.{Db, Message, Payload}
use topology_supply_chain.Worker.Lease.{Held, is_held, paused, failed}
use topology_supply_chain.Worker.Fence.{check_fence}
use topology_supply_chain.Worker.Payload.{
  parse_payload, payload_text, positive_id, require_domain_event,
}
use topology_supply_chain.Worker.Providers.{deliver_email, deliver_sms, scan_file}
use topology_supply_chain.Worker.Process.{
  Services, Circumstances, Phase, idle, crashed, holding, scanned, delivered, raised, complete,
  pause, fail, write_off, after_write_off, call, conclude, caught, checked, dispatch_notification,
  dispatch_domain_event, handle, process_message, act, one_row,
}
use topology_supply_chain.Worker.System.{held_by}
use topology_supply_chain.Worker.Process.Topics.{handle_cases}
use topology_supply_chain.Worker.Life.Outbox.{IsSoundTable, IsHeldIn}
use topology_supply_chain.Worker.Life.Lost.{
  transact_lost, autocommit_lost, NeedsLease-domain_event_body, NeedsLease-notification_body,
  NeedsLease-scan_body, NeedsLease-complete_body,
}

module _ (services : Services) (w : ℕ) (c : Circumstances) (row : Held) (s : Db) (m : Message)
    (sound : IsSoundTable s.outbox) (held : IsHeldIn w row s.outbox)
    (found : find row.id s.outbox.rows ≡ some m) (lost_it : is_held w m ≡ false) where
  conclude_same : (r : Result (Unit {0}) × Db) → r.1 ≡ s → (conclude row r).1 ≡ s
  unfolding conclude
  conclude_same (done u, db) h = h
  conclude_same (raise e, db) h = h

  after_write_off_same : (r : Result (Unit {0}) × Db) → r.1 ≡ s → (after_write_off w c r).1 ≡ s
  unfolding after_write_off
  after_write_off_same (done u, db) h = h
  after_write_off_same (raise e, db) h = h

  caught_same :
      {A : Type 0} (r : Result A) (k : A → Db → Phase × Db)
      → ((a : A) → (k a s).1 ≡ s)
      → (caught row r k s).1 ≡ s
  caught_same (raise e) k h = refl
  caught_same (done a) k h = h a

  checked_same :
      {A : Type 0} (r : Result A) (k : A → Db → Result (Unit {0}) × Db)
      → ((a : A) → (k a s).1 ≡ s)
      → (checked r k s).1 ≡ s
  checked_same (raise e) k h = refl
  checked_same (done a) k h = h a

  call_same :
      {A : Type 0} (resource : String) (answer : Result A) (next : A → Phase)
      → (call w c services resource answer next row s).1 ≡ s
  unfolding call
  call_same resource answer next =
      caught_same (check_fence resource s.fences) _
        λ u. caught_same answer (λ a d. (next a, d)) λ a. refl

  dispatch_same : (p : Payload) → (dispatch_domain_event w c services row p s).1 ≡ s
  unfolding dispatch_domain_event
  dispatch_same p = checked_same (require_domain_event services.length_of p) _ λ event.
      transact_lost w row c.connection _ s m (NeedsLease-domain_event_body w row event) sound held
        found lost_it

  notification_same : (p : Payload) → (dispatch_notification w c services row p s).1 ≡ s
  unfolding dispatch_notification
  notification_same p = checked_same (payload_text services.length_of p.recipient_role) _ λ role.
      checked_same (payload_text services.length_of p.type) _ λ type.
        checked_same (positive_id p.approval_id) _ λ id.
          transact_lost w row c.connection _ s m
            (NeedsLease-notification_body w row services.sha256 c.now role type id) sound held found
            lost_it

  handle_same : (p : Payload) → (handle w c services row p s).1 ≡ s
  handle_same p =
      handle_cases (λ r. r.1 ≡ s) w c services row p s
        (call_same "outbox.worker" (deliver_email c.response) (λ a. delivered row))
        (call_same "outbox.worker" (deliver_sms services.sealing_keys services.opens p c.response)
          (λ a. delivered row))
        (λ other. conclude_same (dispatch_notification w c services row p s) (notification_same p))
        (λ other. conclude_same (dispatch_domain_event w c services row p s) (dispatch_same p))
        (λ other. call_same "files.worker" (scan_file c.response) (scanned row p)) refl

  write_off_same : (e : Fault) → (write_off w c row e s).1 ≡ s
  unfolding write_off pause fail
  write_off_same fence_paused =
      autocommit_lost w row c.connection.commits (paused c.session_clock) one_row s m found lost_it
  write_off_same unexpected =
      autocommit_lost w row c.connection.commits (failed c.now row unexpected) one_row s m found
        lost_it
  write_off_same (permanent code) =
      autocommit_lost w row c.connection.commits (failed c.now row (permanent code)) one_row s m
        found lost_it

-- A worker that has lost the lease of the message it holds changes nothing, whatever its next act: the provider's answer
-- may be processed, but no statement of it takes effect.
pub lost_lease :
    (services : Services) (w : ℕ) (c : Circumstances) (phase : Phase) (row : Held) (s : Db)
    (m : Message)
    → IsSoundTable s.outbox
    → IsHeldIn w row s.outbox
    → held_by phase ≡ some row
    → find row.id s.outbox.rows ≡ some m
    → is_held w m ≡ false
    → (act w c services phase s).1 ≡ s
unfolding act process_message complete
lost_lease services w c idle row s m sound held h found lost_it = cc
lost_lease services w c crashed row s m sound held h found lost_it = refl
lost_lease services w c (holding r) row s m sound held h found lost_it =
    let same : r ≡ row = cc in
    rw same (
      caught_same services w c row s m sound held found lost_it (parse_payload row.payload)
        (handle w c services row) (handle_same services w c row s m sound held found lost_it))
lost_lease services w c (scanned r p status) row s m sound held h found lost_it =
    let same : r ≡ row = cc in
    rw same (
      conclude_same services w c row s m sound held found lost_it _ (
        transact_lost w row c.connection _ s m (NeedsLease-scan_body w row p status) sound held
          found lost_it))
lost_lease services w c (delivered r) row s m sound held h found lost_it =
    let same : r ≡ row = cc in
    rw same (
      conclude_same services w c row s m sound held found lost_it _ (
        transact_lost w row c.connection _ s m (NeedsLease-complete_body w row) sound held found
          lost_it))
lost_lease services w c (raised r e) row s m sound held h found lost_it =
    let same : r ≡ row = cc in
    rw same (
      after_write_off_same services w c row s m sound held found lost_it _
        (write_off_same services w c row s m sound held found lost_it e))
