-- ===== src/Worker/Reminder/Sound.antt =====
-- The sweep of reminders (sweepReminder of apps/worker/src/server.ts) keeps the outbox sound.
use topology_supply_chain.Common.{
  ℕ, String, ◌≡◌, refl, sym, Bool, false, Option, none, some, List, arith, length,
}
use topology_supply_chain.Worker.Job.{
  unexpected, Job, Result, statement, for_each, gets, lift, throw, ◌>>=◌, ◌>>◌, Connection,
}
use topology_supply_chain.Worker.Job.Ensures.{
  Ensures, IsPreorder, Ensures-pure, Ensures-throw, Ensures-gets, Ensures-lift, Ensures-statement,
  Ensures-test, Ensures-branch, Ensures-bind, Ensures-for_each, transact-Ensures,
}
use topology_supply_chain.Worker.Rows.{Db, Message, User, Notice, Reminder}
use topology_supply_chain.Worker.Fence.{require_fence}
use topology_supply_chain.Worker.Dispatch.{insert_notice, insert_row, key_taken}
use topology_supply_chain.Worker.Reminder.{
  json_array, addressed, texts, safe_ids, send_reminders, finish_sweep, warn_exception, remind,
  insert_unique, reminder_message, sweep_row, sweep_candidate, sweep_body, sweep_reminder,
  due_reminder,
}
use topology_supply_chain.Worker.Life.{IsSound}
use topology_supply_chain.Ops.Values.{JsValue}
use topology_supply_chain.Worker.Life.Outbox.{
  IsSoundTable, TableEvolves, TableEvolves-same, TableEvolves-compose, insert-IsSoundTable,
  insert-TableEvolves,
}

-- What a job that holds no message does to the outbox.
pub record KeepsRows (s t : Db) : Type 0 where
  pub at : IsSoundTable s.outbox → IsSoundTable t.outbox × TableEvolves s.outbox t.outbox

same : (s t : Db) → s.outbox ≡ t.outbox → KeepsRows s t
same s t e = record { at = λ h. rw (← e) (h, TableEvolves-same s.outbox) }

order : IsPreorder KeepsRows
order = record {
  same = λ s. same s s refl;
  compose = λ s t u p q. record {
    at = λ h.
        let (h', e) = p.at h in
        let (h'', e') = q.at h' in (h'', TableEvolves-compose s.outbox t.outbox u.outbox e e');
  };
}

abbrev Ok : {A : Type 0} → Job Db A → Type 0
Ok m = Ensures KeepsRows m

Ok-gets : {A : Type 0} (f : Db → A) → Ok (gets f)
Ok-gets f = Ensures-gets order f

Ok-lift : {A : Type 0} (r : Result A) → Ok (lift r)
Ok-lift r = Ensures-lift order r

Ok-bind :
    {A B : Type 0} (m : Job Db A) (f : A → Job Db B) → Ok m → ((a : A) → Ok (f a)) → Ok (m >>= f)
Ok-bind m f hm hf = Ensures-bind order m f hm hf

Ok-elsewhere :
    {A : Type 0} (f : Db → A × Db) → ((s : Db) → (f s).1.outbox ≡ s.outbox) → Ok (statement f)
Ok-elsewhere f h = Ensures-statement order f λ s. same s (f s).1 (sym (h s))

Ok-insert_notice : (n : Notice) → Ok (insert_notice n)
unfolding insert_notice
Ok-insert_notice n = Ok-elsewhere _ λ s. refl

Ok-insert_unique : (m : Message) → IsSound m → Ok (insert_unique m)
unfolding insert_unique
Ok-insert_unique m k =
    let inserts : Ok (statement (insert_row m)) = Ensures-statement order (insert_row m) λ s.
      record { at = λ h. (insert-IsSoundTable m s.outbox h k, insert-TableEvolves m s.outbox h) } in
    Ensures-test order (key_taken m.deduplication_key) (throw unexpected) (statement (insert_row m))
      (Ensures-throw order unexpected) inserts

Ok-remind : (now id : ℕ) (r : Reminder) (u : ℕ × User) → Ok (remind now id r u)
unfolding remind
Ok-remind now id r (user, u) =
    let mails : (k : ℕ) → Ok (insert_unique (reminder_message now id r user k)) = λ k.
      Ok-insert_unique _ (record {
        bounded = (omega arith, λ p. omega arith, λ p. cc);
        locked_right = (refl, refl);
        private = λ f t. cc;
      }) in
    search (Ok-bind, Ok-insert_notice, mails) depth 14

Ok-warn_exception : (now : ℕ) (r : Reminder) → Ok (warn_exception now r)
unfolding warn_exception
Ok-warn_exception now r = Ensures-branch order _ (Ok-elsewhere _ λ s. refl) (Ensures-pure order tt)

Ok-send_reminders :
    (now : ℕ) (row : ℕ × Reminder) (users : List (ℕ × User)) → Ok (send_reminders now row users)
unfolding send_reminders finish_sweep
Ok-send_reminders now (id, r) users =
    let ends : Ok (finish_sweep now id (length users)) = record {
      at = λ s a t e. same s t (ground arith);
    } in
    Ok-bind (warn_exception now r)
      (λ _. for_each (remind now id r) users >> finish_sweep now id (length users))
      (Ok-warn_exception now r)
      λ _.
        Ok-bind (for_each (remind now id r) users) (λ _. finish_sweep now id (length users))
          (Ensures-for_each order (remind now id r) users (Ok-remind now id r)) λ _. ends

Ok-sweep_row : (now : ℕ) (row : ℕ × Reminder) → Ok (sweep_row now row)
unfolding sweep_row
Ok-sweep_row now (id, r) =
    let send : List JsValue → List JsValue → Job Db Bool = λ roles explicit.
      gets (addressed (texts roles) (safe_ids explicit)) >>= send_reminders now (id, r) in
    Ok-bind (lift (json_array r.recipient_roles))
      (λ roles. lift (json_array r.recipient_user_ids) >>= send roles) (Ok-lift _)
      λ roles. Ok-bind (lift (json_array r.recipient_user_ids)) (send roles) (Ok-lift _) λ explicit.
        Ok-bind (gets (addressed (texts roles) (safe_ids explicit))) (send_reminders now (id, r))
          (Ok-gets _) (Ok-send_reminders now (id, r))

Ok-sweep_candidate : (now : ℕ) (o : Option (ℕ × Reminder)) → Ok (sweep_candidate now o)
unfolding sweep_candidate
Ok-sweep_candidate now none = Ensures-pure order false
Ok-sweep_candidate now (some row) = Ok-sweep_row now row

Ok-require_fence : (resource : String) → Ok (require_fence resource)
unfolding require_fence
Ok-require_fence resource = record { at = λ s a t e. same s t (ground arith) }

pub sweep_reminder-KeepsRows :
    (c : Connection) (locked : ℕ → Bool) (now : ℕ) (s : Db)
    → KeepsRows s (sweep_reminder c locked now s).1
unfolding sweep_reminder sweep_body
sweep_reminder-KeepsRows c locked now s = transact-Ensures order c (sweep_body locked now) s (
    Ok-bind (require_fence "reminders.worker")
      (λ _.
        gets (λ db. due_reminder locked now db.reminders.rows) >>= λ row. sweep_candidate now row)
      (Ok-require_fence "reminders.worker")
      λ _.
        Ok-bind (gets (λ db. due_reminder locked now db.reminders.rows))
          (λ row. sweep_candidate now row) (Ok-gets _) (Ok-sweep_candidate now))
