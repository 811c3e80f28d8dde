-- ===== src/Worker/Life/Jobs.antt =====
-- The transactions of a worker that holds a message (complete, dispatchDomainEvent, dispatchNotification and the file scan of
-- apps/worker/src/server.ts) keep the outbox sound, and let each row evolve as the statements of a worker do.
use topology_supply_chain.Common.{
  ℕ, String, str_eq, ◌≡◌, refl, sym, Bool, true, false, Option, none, some, List, if◌then◌else◌,
  arith,
}
use mathlib.Core.Path.{subst}
use topology_supply_chain.Worker.Job.{
  Fault, Job, Result, statement, for_each, ◌>>=◌, ◌>>◌, gets, throw_if, skip, lift, throw, pure,
}
use topology_supply_chain.Worker.Job.Ensures.{
  Ensures, IsPreorder, Ensures-pure, Ensures-throw, Ensures-gets, Ensures-lift, Ensures-statement,
  Ensures-test, Ensures-branch, Ensures-throw_if, Ensures-bind, Ensures-for_each,
}
use topology_supply_chain.Worker.Rows.{
  Db, Message, User, DeduplicationKey, email_key, Payload, ScanStatus, Notice,
}
use topology_supply_chain.Worker.Lease.{Held, is_held, completed_in_dispatch, completed_after}
use topology_supply_chain.Worker.Fence.{require_fence}
use topology_supply_chain.Worker.Payload.{
  DomainEvent, Recipient, nobody, supply_chain, user, entity_binding, positive_id,
}
use topology_supply_chain.Worker.Dispatch.{
  update_held, complete_lease, insert_notice, insert_message, notify, recipients, bound_users,
  factory_query, domain_event_body, write_approval, notify_approval, notification_body, record_scan,
  insert_row, scan_body, users_of_role, key_taken, email_message,
}
use topology_supply_chain.Worker.Process.{complete_body, mark_sent}
use topology_supply_chain.Worker.Life.{
  IsSound, IsKnown, Evolves, completed_after-IsSound, completed_in_dispatch-IsSound,
  Evolves-completed_after, Evolves-completed_in_dispatch,
}
use topology_supply_chain.Worker.Life.Outbox.{
  IsSoundTable, TableEvolves, TableEvolves-same, TableEvolves-compose, IsHeldIn, IsHeldIn-Evolves,
  update_held_lem, insert-IsSoundTable, insert-TableEvolves,
}

module _ (w : ℕ) (row : Held) where
  -- What a transaction does to the outbox, while the worker `w` holds `row`.
  pub record KeepsOutbox (s t : Db) : Type 0 where
    pub at :
        IsSoundTable s.outbox
        → IsHeldIn w row s.outbox
        → IsSoundTable t.outbox × TableEvolves s.outbox t.outbox

  same : (s t : Db) → s.outbox ≡ t.outbox → KeepsOutbox s t
  same s t e = record { at = λ h k. rw (← e) (h, TableEvolves-same s.outbox) }

  pub order : IsPreorder KeepsOutbox
  order = record {
    same = λ s. same s s refl;
    compose = λ s t u p q. record {
      at = λ h k.
          let (h', e) = p.at h k in
          let (h'', e') = q.at h' (IsHeldIn-Evolves w row s.outbox t.outbox k e) in
          (h'', TableEvolves-compose s.outbox t.outbox u.outbox e e');
    };
  }

  abbrev pub Ok : {A : Type 0} → Job Db A → Type 0
  Ok m = Ensures KeepsOutbox m

  -- A statement on other tables.
  Ok-elsewhere :
      {A : Type 0} (f : Db → A × Db) → ((s : Db) → (f s).1.outbox ≡ s.outbox) → Ok (statement f)
  Ok-elsewhere f h = Ensures-statement order f λ s. same s (f s).1 (sym (h s))

  Ok-update :
      (f : Message → Message)
      → ((m : Message)
          → is_held w m ≡ true
          → IsKnown row w m
          → IsSound m
          → IsSound (f m) × Evolves m (f m))
      → Ok (statement (update_held w row.id f))
  Ok-update f changes =
      Ensures-statement order (update_held w row.id f)
        λ s. record { at = λ h k. update_held_lem s.outbox w row f changes h k }

  pub Ok-require_fence : (resource : String) → Ok (require_fence resource)
  unfolding require_fence
  Ok-require_fence resource = record { at = λ s a t e. same s t (ground arith) }

  -- The rules of Worker.Job.Ensures, for this relation.
  Ok-pure : {A : Type 0} (a : A) → Ok (pure a)
  Ok-pure a = Ensures-pure order a

  Ok-throw : {A : Type 0} (e : Fault) → Ok (throw {A = A} e)
  Ok-throw e = Ensures-throw order e

  pub Ok-gets : {A : Type 0} (f : Db → A) → Ok (gets f)
  Ok-gets f = Ensures-gets order f

  pub Ok-lift : {A : Type 0} (r : Result A) → Ok (lift r)
  Ok-lift r = Ensures-lift order r

  Ok-throw_if : (b : Bool) (e : Fault) → Ok (throw_if b e)
  Ok-throw_if b e = Ensures-throw_if order b e

  pub Ok-bind :
      {A B : Type 0} (m : Job Db A) (f : A → Job Db B) → Ok m → ((a : A) → Ok (f a)) → Ok (m >>= f)
  Ok-bind m f hm hf = Ensures-bind order m f hm hf

  pub Ok-then : {A B : Type 0} (m : Job Db A) (k : Job Db B) → Ok m → Ok k → Ok (m >> k)
  Ok-then m k hm hk = Ensures-bind order m (λ _. k) hm (λ _. hk)

  Ok-branch : {A : Type 0} (b : Bool) (x y : Job Db A) → Ok x → Ok y → Ok (if b then x else y)
  Ok-branch b x y hx hy = Ensures-branch order b hx hy

  pub Ok-for_each :
      {A : Type 0} (body : A → Job Db (Unit {0})) (xs : List A)
      → ((a : A) → Ok (body a))
      → Ok (for_each body xs)
  Ok-for_each body xs h = Ensures-for_each order body xs h

  Ok-insert_notice : (n : Notice) → Ok (insert_notice n)
  unfolding insert_notice
  Ok-insert_notice n = Ok-elsewhere _ λ s. refl

  ruleset ok_rules = (
    Ok-pure, Ok-throw, Ok-gets, Ok-lift, Ok-throw_if, Ok-bind, Ok-then, Ok-for_each,
    Ok-insert_notice, Ok-require_fence,
  )

  Ok-complete_lease : str_eq row.topic "sms.deliver" ≡ false → Ok (complete_lease w row)
  unfolding complete_lease
  Ok-complete_lease h =
      let completes = Ok-update completed_in_dispatch λ m held k s. (
        completed_in_dispatch-IsSound m s (subst (λ t. str_eq t "sms.deliver" ≡ false) k.topic h),
        Evolves-completed_in_dispatch m w held,
      ) in
      search (ok_rules, completes)

  pub Ok-notify : (e : DomainEvent) (u : ℕ × User) → Ok (notify e u)
  unfolding notify
  Ok-notify e u = search ok_rules

  pub Ok-recipients : (r : Recipient) → Ok (recipients r)
  unfolding recipients bound_users factory_query
  Ok-recipients nobody = Ok-pure _
  Ok-recipients supply_chain = Ok-gets _
  Ok-recipients (user id) = Ok-gets _
  Ok-recipients (entity_binding t id) = record { at = λ s a u e. same s u (ground arith) }

  pub Ok-domain_event_body :
      str_eq row.topic "sms.deliver" ≡ false → (e : DomainEvent) → Ok (domain_event_body w row e)
  unfolding domain_event_body
  Ok-domain_event_body h e =
      Ok-then (require_fence "outbox.worker")
        (recipients e.recipient >>= λ users. for_each (notify e) users >> complete_lease w row)
        (Ok-require_fence "outbox.worker")
        (Ok-bind (recipients e.recipient)
          (λ users. for_each (notify e) users >> complete_lease w row) (Ok-recipients e.recipient)
          λ users.
            Ok-then (for_each (notify e) users) (complete_lease w row)
              (Ok-for_each (notify e) users (Ok-notify e)) (Ok-complete_lease h))

  Ok-insert_message : (m : Message) → IsSound m → Ok (insert_message m)
  unfolding insert_message
  Ok-insert_message m k =
      let inserts : Ok (statement (insert_row m)) = Ensures-statement order (insert_row m) λ s.
        record {
          at = λ h held. (insert-IsSoundTable m s.outbox h k, insert-TableEvolves m s.outbox h);
        } in
      Ensures-test order (key_taken m.deduplication_key) skip (statement (insert_row m))
        (Ok-pure tt) inserts

  module _ (sha256 : DeduplicationKey → String) (now : ℕ) where
    Ok-write_approval :
        (type : String) (approval : ℕ) (key : DeduplicationKey) (u : ℕ × User)
        → Ok (write_approval sha256 now type approval key u)
    unfolding write_approval
    Ok-write_approval type approval key u =
        let mails : (k : ℕ) → Ok (insert_message (email_message key now k)) = λ k.
          Ok-insert_message _ (record {
            bounded = (omega arith, λ p. omega arith, λ p. cc);
            locked_right = (refl, refl);
            private = λ f t. cc;
          }) in
        search (ok_rules, mails) depth 14

    pub Ok-notify_approval :
        (type : String) (approval : ℕ) (u : ℕ × User)
        → Ok (notify_approval sha256 now row type approval u)
    unfolding notify_approval
    Ok-notify_approval type approval (id, u) =
        let key = email_key (sha256 row.deduplication_key) id in
        Ensures-test order (key_taken key) skip
          (write_approval sha256 now type approval key (id, u)) (Ok-pure tt)
          (Ok-write_approval type approval key (id, u))

    pub Ok-notification_body :
        str_eq row.topic "sms.deliver" ≡ false
        → (role type : String) (approval : ℕ)
        → Ok (notification_body sha256 now w row role type approval)
    unfolding notification_body
    Ok-notification_body h role type approval =
        let notifies = notify_approval sha256 now row type approval in
        Ok-then (require_fence "outbox.worker")
          (gets (users_of_role role) >>= λ users. for_each notifies users >> complete_lease w row)
          (Ok-require_fence "outbox.worker")
          (Ok-bind (gets (users_of_role role))
            (λ users. for_each notifies users >> complete_lease w row)
            (Ok-gets (users_of_role role))
            λ users.
              Ok-then (for_each notifies users) (complete_lease w row)
                (Ok-for_each notifies users (Ok-notify_approval type approval))
                (Ok-complete_lease h))

  pub Ok-record_scan : (status : ScanStatus) (file : ℕ) → Ok (record_scan file status)
  unfolding record_scan
  Ok-record_scan status file = record { at = λ s a t e. same s t (ground arith) }

  pub Ok-scan_body :
      str_eq row.topic "sms.deliver" ≡ false
      → (p : Payload) (status : ScanStatus) → Ok (scan_body w row p status)
  unfolding scan_body
  Ok-scan_body h p status =
      let completes = Ok-complete_lease h in
      let records : (file : ℕ) → Ok (record_scan file status) = Ok-record_scan status in
      Ok-then (require_fence "files.worker")
        (lift (positive_id p.file_id) >>= λ file. record_scan file status >> complete_lease w row)
        (Ok-require_fence "files.worker")
        (Ok-bind (lift (positive_id p.file_id))
          (λ file. record_scan file status >> complete_lease w row)
          (Ok-lift (positive_id p.file_id))
          λ file. Ok-then (record_scan file status) (complete_lease w row) (records file) completes)

  Ok-update_held_after : Ok (statement (update_held w row.id completed_after))
  Ok-update_held_after =
      Ok-update completed_after
        λ m held k s. (completed_after-IsSound m s, Evolves-completed_after m w held)

  Ok-mark_sent : (id : Option ℕ) → Ok (mark_sent id)
  unfolding mark_sent
  Ok-mark_sent none = Ok-pure tt
  Ok-mark_sent (some id) = Ok-elsewhere _ λ s. refl

  pub Ok-complete_body : Ok (complete_body w row)
  unfolding complete_body
  Ok-complete_body = search (ok_rules, Ok-update_held_after, Ok-mark_sent, Ok-branch) depth 14
