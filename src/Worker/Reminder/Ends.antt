-- ===== src/Worker/Reminder/Ends.antt =====
-- The sweeps of one time end (the first `for` of the loop in apps/worker/src/server.ts).
use topology_supply_chain.Common.{
  ℕ, suc, ◌+◌, ◌≤◌, ◌≡◌, ◌∙◌, refl, sym, ap, Bool, true, false, not, ◌&&◌, Option, none, some, List,
  [], ◌∷◌, length, ◌==◌, if◌then◌else◌, Bool-cases, inl, inr, arith,
}
use mathlib.Core.Path.{subst}
use topology_supply_chain.Sql.{find, adjust, select, order_by}
use topology_supply_chain.Sql.Laws.{
  IsUnique, adjust-IsUnique, All-found, All-select, All-order_by, All-head,
}
use topology_supply_chain.Worker.Job.{
  unexpected, Job, done, statement, for_each, ◌>>=◌, ◌>>◌, gets, lift, throw,
}
use topology_supply_chain.Worker.Job.Ensures.{
  Ensures, IsPreorder, Ensures-pure, Ensures-throw, Ensures-gets, Ensures-lift, Ensures-statement,
  Ensures-branch, Ensures-test, Ensures-bind, Ensures-for_each, bind-done,
}
use topology_supply_chain.Worker.Rows.{Db, Message, Notice, User, Reminder}
use topology_supply_chain.Worker.Fence.{check_fence, require_fence, is_open, fence_of}
use topology_supply_chain.Worker.Dispatch.{insert_notice, insert_row, key_taken}
use topology_supply_chain.Worker.Reminder.{
  is_due_reminder, runs_first, due_reminder, rescheduled, warn_exception, remind, insert_unique,
  json_array, addressed, texts, safe_ids, send_reminders, finish_sweep, sweep_row, sweep_candidate,
  sweep_body,
}
use topology_supply_chain.Ops.Values.{JsValue}

-- How many reminders are due.
unfoldable pub due_count : ℕ → List (ℕ × Reminder) → ℕ
due_count now [] = 0
due_count now ((i, r) ∷ rows) =
    if is_due_reminder now r then suc (due_count now rows) else due_count now rows

-- A reminder that was swept is not due.
swept_lem : (now : ℕ) (r : Reminder) → is_due_reminder now (rescheduled now r) ≡ false
unfolding rescheduled is_due_reminder
swept_lem now r = ground arith

count-adjust :
    (now id : ℕ) (rows : List (ℕ × Reminder)) (r : Reminder)
    → find id rows ≡ some r
    → is_due_reminder now r ≡ true
    → suc (due_count now (adjust id (rescheduled now) rows)) ≡ due_count now rows
unfolding due_count
count-adjust now id [] r h d = cc
count-adjust now id ((i, q) ∷ rows) r h d = elim (Bool-cases (i == id)) [
  | inl e ↦
      let same : q ≡ r = cc (rw e at h) in
      let due : is_due_reminder now q ≡ true = rw same d in rw (e, swept_lem now q, due) refl
  | inr e ↦
      let rest = count-adjust now id rows r (rw e at h) d in
      elim (Bool-cases (is_due_reminder now q)) [
        | inl y ↦ rw (e, y) (ap suc rest)
        | inr n ↦ rw (e, n) rest
      ]
]

due_lem :
    (locked : ℕ → Bool) (now : ℕ) (rows : List (ℕ × Reminder)) (id : ℕ) (r : Reminder)
    → IsUnique rows
    → due_reminder locked now rows ≡ some (id, r)
    → (find id rows ≡ some r) × (is_due_reminder now r ≡ true)
unfolding due_reminder
due_lem locked now rows id r u h =
    let passes : ℕ × Reminder → Bool = λ (i, q). not (locked i) && is_due_reminder now q in
    let here = All-select (λ e. find e.0 rows ≡ some e.1) passes rows (All-found rows u) in
    let sorted =
      All-order_by (λ e. (find e.0 rows ≡ some e.1) × (passes e ≡ true)) runs_first
        (select passes rows) here in
    let (found, passed) =
      All-head (λ e. (find e.0 rows ≡ some e.1) × (passes e ≡ true))
        (order_by runs_first (select passes rows)) (id, r) sorted h in
    (found, ground arith)

-- The statements before the last two leave the reminders alone.
abbrev Same : Db → Db → Type 0
Same s t = s.reminders ≡ t.reminders

order : IsPreorder Same
order = record { same = λ s. refl; compose = λ s t u p q. p ∙ q }

insert_unique-Same : (m : Message) → Ensures Same (insert_unique m)
unfolding insert_unique
insert_unique-Same m =
    Ensures-test order (key_taken m.deduplication_key) (throw unexpected) (statement (insert_row m))
      (Ensures-throw order unexpected) (Ensures-statement order (insert_row m) λ s. refl)

insert_notice-Same : (n : Notice) → Ensures Same (insert_notice n)
unfolding insert_notice
insert_notice-Same n = Ensures-statement order _ λ s. refl

bind-Same :
    {A B : Type 0} (m : Job Db A) (f : A → Job Db B)
    → Ensures Same m
    → ((a : A) → Ensures Same (f a))
    → Ensures Same (m >>= f)
bind-Same m f hm hf = Ensures-bind order m f hm hf

remind-Same : (now id : ℕ) (r : Reminder) (u : ℕ × User) → Ensures Same (remind now id r u)
unfolding remind
remind-Same now id r (user, u) = search (bind-Same, insert_notice-Same, insert_unique-Same) depth 14

warn-Same : (now : ℕ) (r : Reminder) → Ensures Same (warn_exception now r)
unfolding warn_exception
warn-Same now r =
    Ensures-branch order _ (Ensures-statement order _ λ s. refl) (Ensures-pure order tt)

-- The last two rewrite the swept reminder.
finish_lem :
    (now id n : ℕ) (s t : Db) (b : Bool) (r : Reminder)
    → finish_sweep now id n s ≡ done (b, t)
    → find id s.reminders.rows ≡ some r
    → t.reminders.rows ≡ adjust id (rescheduled now) s.reminders.rows
unfolding finish_sweep
finish_lem now id n s t b r h found =
    let after : Db = record s {
      reminders = record s.reminders { rows = adjust id (rescheduled now) s.reminders.rows };
      reminder_audits = (id, n) ∷ s.reminder_audits;
    } in
    let returned = rw found at h in
    let same : after ≡ t = cc in ap (λ d. d.reminders.rows) (sym same)

send_lem :
    (now id : ℕ) (r : Reminder) (users : List (ℕ × User)) (s t : Db) (b : Bool)
    → send_reminders now (id, r) users s ≡ done (b, t)
    → find id s.reminders.rows ≡ some r
    → t.reminders.rows ≡ adjust id (rescheduled now) s.reminders.rows
unfolding send_reminders
send_lem now id r users s t b h found =
    let ends = finish_sweep now id (length users) in
    let (x, s1, warned, rest1) =
      bind-done (warn_exception now r) (λ _. for_each (remind now id r) users >> ends) s h in
    let (y, s2, sent, rest2) = bind-done (for_each (remind now id r) users) (λ _. ends) s1 rest1 in
    let same1 : s.reminders ≡ s1.reminders = (warn-Same now r).at s x s1 warned in
    let same2 : s1.reminders ≡ s2.reminders =
      (Ensures-for_each order (remind now id r) users (remind-Same now id r)).at s1 y s2 sent in
    let here : find id s2.reminders.rows ≡ some r =
      subst (λ q. find id q.rows ≡ some r) (same1 ∙ same2) found in
    finish_lem now id (length users) s2 t b r rest2 here
    ∙ ap (λ q. adjust id (rescheduled now) q.rows) (sym (same1 ∙ same2))

sweep_row_lem :
    (now id : ℕ) (r : Reminder) (s t : Db) (b : Bool)
    → sweep_row now (id, r) s ≡ done (b, t)
    → find id s.reminders.rows ≡ some r
    → t.reminders.rows ≡ adjust id (rescheduled now) s.reminders.rows
unfolding sweep_row
sweep_row_lem now id r s t b h found =
    let send : List JsValue → List JsValue → Job Db Bool = λ roles explicit.
      gets (addressed (texts roles) (safe_ids explicit)) >>= send_reminders now (id, r) in
    let (roles, s1, first, rest1) =
      bind-done (lift (json_array r.recipient_roles))
        (λ roles. lift (json_array r.recipient_user_ids) >>= send roles) s h in
    let (explicit, s2, second, rest2) =
      bind-done (lift (json_array r.recipient_user_ids)) (send roles) s1 rest1 in
    let (users, s3, third, rest3) =
      bind-done (gets (addressed (texts roles) (safe_ids explicit))) (send_reminders now (id, r)) s2
        rest2 in
    let same1 : s.reminders ≡ s1.reminders =
      (Ensures-lift order (json_array r.recipient_roles)).at s roles s1 first in
    let same2 : s1.reminders ≡ s2.reminders =
      (Ensures-lift order (json_array r.recipient_user_ids)).at s1 explicit s2 second in
    let same3 : s2.reminders ≡ s3.reminders =
      (Ensures-gets order (addressed (texts roles) (safe_ids explicit))).at s2 users s3 third in
    let all : s.reminders ≡ s3.reminders = same1 ∙ same2 ∙ same3 in
    send_lem now id r users s3 t b rest3 (subst (λ q. find id q.rows ≡ some r) all found)
    ∙ ap (λ q. adjust id (rescheduled now) q.rows) (sym all)

-- A sweep that handles a reminder lowers the number of reminders that are due by one.
sweep_lowers :
    (locked : ℕ → Bool) (now : ℕ) (s t : Db)
    → IsUnique s.reminders.rows
    → sweep_body locked now s ≡ done (true, t)
    → IsUnique t.reminders.rows
      × (suc (due_count now t.reminders.rows) ≡ due_count now s.reminders.rows)
unfolding sweep_body require_fence check_fence sweep_candidate
sweep_lowers locked now s t u h =
    elim (Bool-cases (is_open (fence_of "reminders.worker" s.fences))) [
      | inr closed ↦ cc (rw closed at h)
      | inl opened ↦ go (due_reminder locked now s.reminders.rows) refl (rw opened at h)
    ]
  where
    go :
        (o : Option (ℕ × Reminder))
        → due_reminder locked now s.reminders.rows ≡ o
        → sweep_candidate now (due_reminder locked now s.reminders.rows) s ≡ done (true, t)
        → IsUnique t.reminders.rows
          × (suc (due_count now t.reminders.rows) ≡ due_count now s.reminders.rows)
    go none e k = cc (rw e at k)
    go (some (id, r)) e k =
        let (found, due) = due_lem locked now s.reminders.rows id r u e in
        let rows = sweep_row_lem now id r s t true (rw e at k) found in
        rw rows (
          adjust-IsUnique id (rescheduled now) s.reminders.rows u,
          count-adjust now id s.reminders.rows r found due,
        )

-- A number of sweeps, one after the other, that each handled a reminder that is due at the time `now`.
pub data Swept (now : ℕ) (s : Db) : ℕ → Db → Type 0 where
  none_yet : Swept now s 0 s
  and_one :
      {k : ℕ} {t u : Db} (locked : ℕ → Bool)
      → Swept now s k t
      → sweep_body locked now t ≡ done (true, u)
      → Swept now s (suc k) u

Swept-IsUnique :
    {now : ℕ} {s : Db} {k : ℕ} {t : Db}
    → IsUnique s.reminders.rows
    → Swept now s k t
    → IsUnique t.reminders.rows
      × (due_count now t.reminders.rows + k ≡ due_count now s.reminders.rows)
Swept-IsUnique u none_yet = (u, omega arith)
Swept-IsUnique u (and_one locked sweeps h) =
    let (unique, count) = Swept-IsUnique u sweeps in
    let (unique', one) = sweep_lowers locked _ _ _ unique h in (unique', omega arith)

-- The sweeps of one time end: where the reminders have different ids, each sweep that handles a reminder lowers the number of
-- reminders that are due by one, so that there are at most as many sweeps as reminders are due before the first.
pub sweeps_end :
    {now : ℕ} {s : Db} {k : ℕ} {t : Db}
    → IsUnique s.reminders.rows
    → Swept now s k t
    → (due_count now t.reminders.rows + k ≡ due_count now s.reminders.rows)
      × (k ≤ due_count now s.reminders.rows)
sweeps_end u sweeps = let (unique, count) = Swept-IsUnique u sweeps in (count, omega arith)
