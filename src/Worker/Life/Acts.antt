-- ===== src/Worker/Life/Acts.antt =====
-- Each act of a worker (the loop of apps/worker/src/server.ts) keeps the outbox sound; the message it holds stays the one
-- it has claimed.
use topology_supply_chain.Common.{
  ℕ, String, str_eq, ◌≡◌, refl, sym, true, false, Option, none, some, Bool-cases, inl, inr,
}
use mathlib.Core.Path.{subst}
use topology_supply_chain.Worker.Job.{
  Fault, permanent, fence_paused, unexpected, unknown_topic, Result, done, raise, Answer,
  acknowledged, lost, transact, commit, settle,
}
use topology_supply_chain.Worker.Job.Ensures.{transact-Ensures, autocommit-Ensures}
use topology_supply_chain.Worker.Rows.{Db, Message, Payload}
use topology_supply_chain.Worker.Lease.{Held, paused, failed}
use topology_supply_chain.Worker.Fence.{check_fence}
use topology_supply_chain.Worker.Payload.{
  parse_payload, payload_text, positive_id, require_domain_event,
}
use topology_supply_chain.Worker.Dispatch.{update_held}
use topology_supply_chain.Worker.Providers.{deliver_email, deliver_sms, scan_file}
use topology_supply_chain.Sql.{Table}
use topology_supply_chain.Worker.Process.{
  Services, Circumstances, Phase, idle, crashed, holding, scanned, delivered, raised, claim,
  claim_body, after_claim, complete, pause, fail, write_off, after_write_off, call, conclude,
  dispatch_notification, dispatch_domain_event, caught, checked, handle, process_message, act,
  one_row,
}
use topology_supply_chain.Worker.System.{held_by}
use topology_supply_chain.Worker.Process.Topics.{handle_cases}
use topology_supply_chain.Worker.Life.{
  paused-IsSound, failed-IsSound, Evolves-paused, Evolves-failed,
}
use topology_supply_chain.Worker.Life.Outbox.{
  IsSoundTable, IsHeldIn, IsHeldIn-Evolves, update_held_lem,
}
use topology_supply_chain.Worker.Life.Jobs.{
  KeepsOutbox, order, Ok-domain_event_body, Ok-notification_body, Ok-scan_body, Ok-complete_body,
}
use topology_supply_chain.Worker.Life.Claim.{
  Evolves-final, Preserves, Preserves-same, HoldsNext, claim_body_lem,
}

abbrev IsNotSms : Held → Type 0
IsNotSms row = str_eq row.topic "sms.deliver" ≡ false

-- A phase that follows on the message `row`: it holds the same message, or none.
abbrev pub IsOnward : Held → Phase → Type 0
IsOnward row idle = Unit
IsOnward row crashed = Unit
IsOnward row (holding r) = r ≡ row
IsOnward row (scanned r p status) = (r ≡ row) × IsNotSms r
IsOnward row (delivered r) = r ≡ row
IsOnward row (raised r e) = r ≡ row

-- Only a file scan is in the phase of a scan.
abbrev pub IsPhaseRight : Phase → Type 0
IsPhaseRight (scanned r p status) = IsNotSms r
IsPhaseRight _ = Unit

module _ (w : ℕ) (row : Held) where
  -- What an act on `row` gives.
  pub record Follows (s : Db) (next : Phase × Db) : Type 0 where
    pub outbox : KeepsOutbox w row s next.1
    pub onward : IsOnward row next.0

  stays : (s : Db) (p : Phase) → IsOnward row p → Follows s (p, s)
  stays s p h = record { outbox = (order w row).same s; onward = h }

  conclude-Follows :
      (s : Db) (r : Result (Unit {0}) × Db) → KeepsOutbox w row s r.1 → Follows s (conclude row r)
  unfolding conclude
  conclude-Follows s (done u, db) h = record { outbox = h; onward = tt }
  conclude-Follows s (raise e, db) h = record { outbox = h; onward = refl }

  module _ (c : Circumstances) where
    complete-Follows : (s : Db) → Follows s (conclude row (complete w c row s))
    unfolding complete
    complete-Follows s =
        conclude-Follows s _
          (transact-Ensures (order w row) c.connection _ s (Ok-complete_body w row))

    after_write_off-Follows :
        (s : Db) (r : Result (Unit {0}) × Db)
        → KeepsOutbox w row s r.1
        → Follows s (after_write_off w c r)
    unfolding after_write_off
    after_write_off-Follows s (done u, db) h = record { outbox = h; onward = tt }
    after_write_off-Follows s (raise e, db) h = record { outbox = h; onward = tt }

    pause_keeps : (s : Db) → KeepsOutbox w row s (pause w c row s).1
    unfolding pause
    pause_keeps s =
        autocommit-Ensures (order w row) c.connection c.connection.commits
          (update_held w row.id (paused c.session_clock)) one_row s
          (record {
            at = λ h k.
                update_held_lem s.outbox w row (paused c.session_clock)
                  (λ m held kn sd. (
                    paused-IsSound m sd c.session_clock w held,
                    Evolves-paused m w held c.session_clock,
                  ))
                  h k;
          })

    fail_keeps : (e : Fault) (s : Db) → KeepsOutbox w row s (fail w c row e s).1
    unfolding fail
    fail_keeps e s =
        autocommit-Ensures (order w row) c.connection c.connection.commits
          (update_held w row.id (failed c.now row e)) one_row s
          (record {
            at = λ h k.
                update_held_lem s.outbox w row (failed c.now row e)
                  (λ m held kn sd. (
                    failed-IsSound m sd c.now w row e held kn,
                    Evolves-failed m w held c.now row e,
                  ))
                  h k;
          })

    write_off-Follows :
        (e : Fault) (s : Db) → Follows s (after_write_off w c (write_off w c row e s))
    unfolding write_off
    write_off-Follows fence_paused s = after_write_off-Follows s _ (pause_keeps s)
    write_off-Follows unexpected s = after_write_off-Follows s _ (fail_keeps unexpected s)
    write_off-Follows (permanent code) s =
        after_write_off-Follows s _ (fail_keeps (permanent code) s)

    module _ (services : Services) where
      caught-Follows :
          {A : Type 0} (r : Result A) (k : A → Db → Phase × Db) (s : Db)
          → ((a : A) → Follows s (k a s))
          → Follows s (caught row r k s)
      caught-Follows (raise e) k s h = stays s (raised row e) refl
      caught-Follows (done a) k s h = h a

      checked_keeps :
          {A : Type 0} (r : Result A) (k : A → Db → Result (Unit {0}) × Db) (s : Db)
          → ((a : A) → KeepsOutbox w row s (k a s).1)
          → KeepsOutbox w row s (checked r k s).1
      checked_keeps (raise e) k s h = (order w row).same s
      checked_keeps (done a) k s h = h a

      call-Follows :
          {A : Type 0} (resource : String) (answer : Result A) (next : A → Phase) (s : Db)
          → ((a : A) → IsOnward row (next a))
          → Follows s (call w c services resource answer next row s)
      unfolding call
      call-Follows resource answer next s h =
          caught-Follows (check_fence resource s.fences) _ s
            λ u. caught-Follows answer (λ a d. (next a, d)) s λ a. stays s (next a) (h a)

      dispatch_keeps :
          (p : Payload) (s : Db)
          → IsNotSms row
          → KeepsOutbox w row s (dispatch_domain_event w c services row p s).1
      unfolding dispatch_domain_event
      dispatch_keeps p s h = checked_keeps (require_domain_event services.length_of p) _ s λ event.
          transact-Ensures (order w row) c.connection _ s (Ok-domain_event_body w row h event)

      notification_keeps :
          (p : Payload) (s : Db)
          → IsNotSms row
          → KeepsOutbox w row s (dispatch_notification w c services row p s).1
      unfolding dispatch_notification
      notification_keeps p s h =
          checked_keeps (payload_text services.length_of p.recipient_role) _ s λ role.
            checked_keeps (payload_text services.length_of p.type) _ s λ type.
              checked_keeps (positive_id p.approval_id) _ s λ id.
                transact-Ensures (order w row) c.connection _ s
                  (Ok-notification_body w row services.sha256 c.now h role type id)

      handle-Follows : (p : Payload) (s : Db) → Follows s (handle w c services row p s)
      handle-Follows p s =
          handle_cases (Follows s) w c services row p s
            (call-Follows "outbox.worker" (deliver_email c.response) (λ a. delivered row) s
              λ a. refl)
            (call-Follows "outbox.worker"
              (deliver_sms services.sealing_keys services.opens p c.response) (λ a. delivered row) s
              λ a. refl)
            (λ other.
              conclude-Follows s (dispatch_notification w c services row p s)
                (notification_keeps p s other))
            (λ other.
              conclude-Follows s (dispatch_domain_event w c services row p s)
                (dispatch_keeps p s other))
            (λ other.
              call-Follows "files.worker" (scan_file c.response) (scanned row p) s
                λ a. (refl, other))
            (stays s (raised row (permanent unknown_topic)) refl)

      process_message-Follows : (s : Db) → Follows s (process_message w c services row s)
      unfolding process_message
      process_message-Follows s =
          caught-Follows (parse_payload row.payload) (handle w c services row) s
            λ p. handle-Follows p s

-- Every act of a worker that holds a message.
pub act-Follows :
    (services : Services) (w : ℕ) (c : Circumstances) (phase : Phase) (row : Held) (s : Db)
    → held_by phase ≡ some row
    → IsPhaseRight phase
    → Follows w row s (act w c services phase s)
unfolding act
act-Follows services w c idle row s h k = cc
act-Follows services w c crashed row s h k = cc
act-Follows services w c (holding r) row s h k =
    let same : r ≡ row = cc in
    subst (λ x. Follows w x s (process_message w c services r s)) same
      (process_message-Follows w r c services s)
act-Follows services w c (scanned r p status) row s h k =
    let same : r ≡ row = cc in
    let follows =
      conclude-Follows w r s _
        (transact-Ensures (order w r) c.connection _ s (Ok-scan_body w r k p status)) in
    subst (λ x. Follows w x s (act w c services (scanned r p status) s)) same follows
act-Follows services w c (delivered r) row s h k =
    let same : r ≡ row = cc in
    subst (λ x. Follows w x s (act w c services (delivered r) s)) same (complete-Follows w r c s)
act-Follows services w c (raised r e) row s h k =
    let same : r ≡ row = cc in
    subst (λ x. Follows w x s (act w c services (raised r e) s)) same (write_off-Follows w r c e s)

abbrev pub Next : ℕ → Phase → Table Message → Type 0
Next w p t = IsPhaseRight p × HoldsNext w (held_by p) t

-- The claim of an idle worker.
pub act-idle :
    (services : Services) (w : ℕ) (c : Circumstances) (s : Db)
    → IsSoundTable s.outbox
    → let (p, t) = act w c services idle s in Preserves w s.outbox t.outbox × Next w p t.outbox
unfolding act claim transact after_claim commit
act-idle services w c s sound = elim (Bool-cases c.connection.begins) [
  | inr e ↦ rw e (Preserves-same w s.outbox, (tt, tt))
  | inl e ↦ rw e (go c.connection.commits (claim_body w c.time s) refl)
]
  where
    go :
        (answer : Answer) (r : Result (Option Held × Db))
        → claim_body w c.time s ≡ r
        → Preserves w s.outbox (settle answer s r).1.outbox
          × Next w (after_claim (settle answer s r).0) (settle answer s r).1.outbox
    go answer (raise fence_paused) k = (Preserves-same w s.outbox, (tt, tt))
    go answer (raise unexpected) k = (Preserves-same w s.outbox, (tt, tt))
    go answer (raise (permanent code)) k = (Preserves-same w s.outbox, (tt, tt))
    go acknowledged (done (none, t)) k =
        let (p, n) = claim_body_lem w c.time s t none sound k in (p, (tt, tt))
    go acknowledged (done (some row, t)) k =
        let (p, n) = claim_body_lem w c.time s t (some row) sound k in (p, (tt, n))
    go (lost true) (done (o, t)) k =
        let (p, n) = claim_body_lem w c.time s t o sound k in (p, (tt, tt))
    go (lost false) (done (o, t)) k = (Preserves-same w s.outbox, (tt, tt))

onward-Next :
    (w : ℕ) (row : Held) (p : Phase) (t : Table Message)
    → IsOnward row p
    → IsHeldIn w row t
    → Next w p t
onward-Next w row idle t o h = (tt, tt)
onward-Next w row crashed t o h = (tt, tt)
onward-Next w row (holding r) t o h = (tt, subst (λ x. IsHeldIn w x t) (sym o) h)
onward-Next w row (scanned r p status) t o h = (o.1, subst (λ x. IsHeldIn w x t) (sym o.0) h)
onward-Next w row (delivered r) t o h = (tt, subst (λ x. IsHeldIn w x t) (sym o) h)
onward-Next w row (raised r e) t o h = (tt, subst (λ x. IsHeldIn w x t) (sym o) h)

Follows-Preserves :
    (w : ℕ) (row : Held) (s : Db)
    → IsSoundTable s.outbox
    → IsHeldIn w row s.outbox
    → (next : Phase × Db) → Follows w row s next
    → Preserves w s.outbox next.1.outbox × Next w next.0 next.1.outbox
Follows-Preserves w row s sound known (p, t) f =
    let (sound', evolves) = f.outbox.at sound known in
    (
      record {
        sound = λ _. sound';
        final = Evolves-final s.outbox t.outbox evolves;
        others = λ v r d h. IsHeldIn-Evolves v r s.outbox t.outbox h evolves;
      },
      onward-Next w row p t.outbox f.onward
          (IsHeldIn-Evolves w row s.outbox t.outbox known evolves),
    )

-- Every act of a worker.
pub act_lem :
    (services : Services) (w : ℕ) (c : Circumstances) (phase : Phase) (s : Db)
    → IsSoundTable s.outbox
    → Next w phase s.outbox
    → let (p, t) = act w c services phase s in Preserves w s.outbox t.outbox × Next w p t.outbox
unfolding act
act_lem services w c idle s sound k = act-idle services w c s sound
act_lem services w c crashed s sound k = (Preserves-same w s.outbox, (tt, tt))
act_lem services w c (holding r) s sound (right, known) =
    Follows-Preserves w r s sound known (act w c services (holding r) s)
      (act-Follows services w c (holding r) r s refl right)
act_lem services w c (scanned r p status) s sound (right, known) =
    Follows-Preserves w r s sound known _
      (act-Follows services w c (scanned r p status) r s refl right)
act_lem services w c (delivered r) s sound (right, known) =
    Follows-Preserves w r s sound known _ (act-Follows services w c (delivered r) r s refl right)
act_lem services w c (raised r e) s sound (right, known) =
    Follows-Preserves w r s sound known _ (act-Follows services w c (raised r e) r s refl right)
