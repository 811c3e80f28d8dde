-- ===== src/Worker/Life/Lost.antt =====
-- A worker whose lease another worker has taken, or whose message is final, changes nothing
-- (apps/worker/src/server.ts: the `WHERE … locked_by = ?` of each statement and the rollback of each transaction).
use topology_supply_chain.Common.{
  ℕ, String, str_eq, ◌≡◌, refl, true, false, not, some, ◌==◌, Bool-cases, inl, inr, if◌then◌else◌,
}
use topology_supply_chain.Sql.{find}
use topology_supply_chain.Worker.Job.{
  unexpected, Job, Result, done, raise, ◌>>=◌, ◌>>◌, gets, lift, throw_if, skip, statement,
  for_each, Connection, settle, Answer, acknowledged, lost, transact, autocommit,
}
use topology_supply_chain.Worker.Job.Ensures.{bind-done}
use topology_supply_chain.Worker.Rows.{Db, Message, Payload, ScanStatus, DeduplicationKey}
use topology_supply_chain.Worker.Lease.{Held, is_held, completed_in_dispatch, completed_after}
use topology_supply_chain.Worker.Fence.{require_fence}
use topology_supply_chain.Worker.Payload.{DomainEvent, positive_id, parse_payload}
use topology_supply_chain.Worker.Dispatch.{
  update_held, complete_lease, recipients, notify, domain_event_body, users_of_role,
  notify_approval, notification_body, record_scan, scan_body,
}
use topology_supply_chain.Worker.Process.{complete_body, mark_sent, message_id_of}
use topology_supply_chain.Ops.Values.{to_number}
use topology_supply_chain.Worker.Life.Outbox.{IsSoundTable, IsHeldIn, IsHeldIn-Evolves}
use topology_supply_chain.Worker.Life.Jobs.{
  Ok, Ok-require_fence, Ok-recipients, Ok-notify, Ok-for_each, Ok-gets, Ok-lift, Ok-notify_approval,
  Ok-record_scan,
}

module _ (w : ℕ) (row : Held) where
  -- The worker has the lease of the message.
  abbrev pub HasLease : Db → Type 0
  HasLease s = (m : Message) × (find row.id s.outbox.rows ≡ some m) × (is_held w m ≡ true)

  -- A job that returns only where the worker has its lease.
  pub record NeedsLease {A : Type 0} (job : Job Db A) : Type 0 where
    pub at :
        (s : Db) (a : A) (t : Db)
        → IsSoundTable s.outbox
        → IsHeldIn w row s.outbox
        → job s ≡ done (a, t)
        → HasLease s

  -- The lease is needed at the end.
  NeedsLease-last :
      {A B : Type 0} (m : Job Db A) (f : A → Job Db B)
      → Ok w row m
      → ((a : A) → NeedsLease (f a))
      → NeedsLease (m >>= f)
  NeedsLease-last m f ok needs = record {
    at = λ s b t sound (r, found, known) e.
        let (a, u, first, rest) = bind-done m f s e in
        let (sound', evolves) = (ok.at s a u first).at sound (r, found, known) in
        let (n, found', change) = evolves row.id r found in
        let (m', found'', held) =
          (needs a).at u b t sound'
            (IsHeldIn-Evolves w row s.outbox u.outbox (r, found, known) evolves) rest in
        let same : n ≡ m' = cc in
        let late : is_held w n ≡ true = rw same held in
        let (early, count) = change.kept w late in (r, found, early);
  }

  NeedsLease-update :
      (change : Message → Message)
      → NeedsLease (
          statement (update_held w row.id change) >>= λ affected.
          throw_if (not (affected == 1)) unexpected)
  NeedsLease-update change = record {
    at = λ s a t sound (m, found, known) e. elim (Bool-cases (is_held w m)) [
      | inl h ↦ (m, found, h)
      | inr h ↦ cc (rw (found, h) at e)
    ];
  }

  NeedsLease-update_then :
      {A : Type 0} (change : Message → Message) (k : Job Db A)
      → NeedsLease (
          statement (update_held w row.id change) >>= λ affected.
          throw_if (not (affected == 1)) unexpected >> k)
  NeedsLease-update_then change k = record {
    at = λ s a t sound (m, found, known) e. elim (Bool-cases (is_held w m)) [
      | inl h ↦ (m, found, h)
      | inr h ↦ cc (rw (found, h) at e)
    ];
  }

  NeedsLease-complete_lease : NeedsLease (complete_lease w row)
  unfolding complete_lease
  NeedsLease-complete_lease = NeedsLease-update completed_in_dispatch

  pub NeedsLease-domain_event_body : (e : DomainEvent) → NeedsLease (domain_event_body w row e)
  unfolding domain_event_body
  NeedsLease-domain_event_body e =
      NeedsLease-last (require_fence "outbox.worker")
        (λ _. recipients e.recipient >>= λ users. for_each (notify e) users >> complete_lease w row)
        (Ok-require_fence w row "outbox.worker")
        λ _.
          NeedsLease-last (recipients e.recipient)
            (λ users. for_each (notify e) users >> complete_lease w row)
            (Ok-recipients w row e.recipient)
            λ users.
              NeedsLease-last (for_each (notify e) users) (λ _. complete_lease w row)
                (Ok-for_each w row (notify e) users (Ok-notify w row e))
                λ _. NeedsLease-complete_lease

  pub NeedsLease-notification_body :
      (sha256 : DeduplicationKey → String) (now : ℕ) (role type : String) (approval : ℕ)
      → NeedsLease (notification_body sha256 now w row role type approval)
  unfolding notification_body
  NeedsLease-notification_body sha256 now role type approval =
      let notifies = notify_approval sha256 now row type approval in
      NeedsLease-last (require_fence "outbox.worker")
        (λ _.
          gets (users_of_role role) >>= λ users. for_each notifies users >> complete_lease w row)
        (Ok-require_fence w row "outbox.worker")
        λ _.
          NeedsLease-last (gets (users_of_role role))
            (λ users. for_each notifies users >> complete_lease w row)
            (Ok-gets w row (users_of_role role))
            λ users.
              NeedsLease-last (for_each notifies users) (λ _. complete_lease w row)
                (Ok-for_each w row notifies users
                  (Ok-notify_approval w row sha256 now type approval))
                λ _. NeedsLease-complete_lease

  pub NeedsLease-scan_body :
      (p : Payload) (status : ScanStatus) → NeedsLease (scan_body w row p status)
  unfolding scan_body
  NeedsLease-scan_body p status =
      NeedsLease-last (require_fence "files.worker")
        (λ _.
          lift (positive_id p.file_id) >>= λ file. record_scan file status >> complete_lease w row)
        (Ok-require_fence w row "files.worker")
        λ _.
          NeedsLease-last (lift (positive_id p.file_id))
            (λ file. record_scan file status >> complete_lease w row)
            (Ok-lift w row (positive_id p.file_id))
            λ file.
              NeedsLease-last (record_scan file status) (λ _. complete_lease w row)
                (Ok-record_scan w row status file) λ _. NeedsLease-complete_lease

  pub NeedsLease-complete_body : NeedsLease (complete_body w row)
  unfolding complete_body
  NeedsLease-complete_body =
      let ends : Payload → Job Db (Unit {0}) = λ p.
        if str_eq row.topic "email.deliver"
        then mark_sent (message_id_of (to_number p.message_id))
        else skip in
      NeedsLease-last (require_fence "outbox.worker")
        (λ _. lift (parse_payload row.payload) >>= λ p.
          statement (update_held w row.id completed_after) >>= λ affected.
          throw_if (not (affected == 1)) unexpected >> ends p)
        (Ok-require_fence w row "outbox.worker")
        λ _.
          NeedsLease-last (lift (parse_payload row.payload))
            (λ p. statement (update_held w row.id completed_after) >>= λ affected.
              throw_if (not (affected == 1)) unexpected >> ends p)
            (Ok-lift w row (parse_payload row.payload))
            λ p. NeedsLease-update_then completed_after (ends p)

  -- A transaction of a worker that has lost its lease is rolled back.
  pub transact_lost :
      {A : Type 0} (c : Connection) (job : Job Db A) (s : Db) (m : Message)
      → NeedsLease job
      → IsSoundTable s.outbox
      → IsHeldIn w row s.outbox
      → find row.id s.outbox.rows ≡ some m
      → is_held w m ≡ false
      → (transact c job s).1 ≡ s
  unfolding transact
  transact_lost {A} c job s m needs sound held found lost_it = elim (Bool-cases c.begins) [
    | inr e ↦ rw e refl
    | inl e ↦ rw e (go (job s) refl)
  ]
    where
      go : (r : Result (A × Db)) → job s ≡ r → (settle c.commits s r).1 ≡ s
      go (raise f) k = refl
      go (done (a, t)) k =
          let (n, found', has) = needs.at s a t sound held k in
          let same : m ≡ n = cc in let lease : is_held w m ≡ true = rw same has in cc

  -- So is a statement.
  pub autocommit_lost :
      (answer : Answer) (change : Message → Message) (check : ℕ → Result (Unit {0})) (s : Db)
      (m : Message)
      → find row.id s.outbox.rows ≡ some m
      → is_held w m ≡ false
      → (autocommit answer (update_held w row.id change) check s).1 ≡ s
  unfolding autocommit
  autocommit_lost acknowledged change check s m found h = rw (found, h) refl
  autocommit_lost (lost true) change check s m found h = rw (found, h) refl
  autocommit_lost (lost false) change check s m found h = refl
