-- ===== src/Worker/Reminder/Tests.antt =====
-- The theorem on the sweeps at a reminder that is due.
use topology_supply_chain.Common.{◌+◌, ◌≤◌, ◌≡◌, refl, true, false, some, [], ◌∷◌}
use topology_supply_chain.Common.Int.{is_safe_integer}
use topology_supply_chain.Ops.Values.{JsValue, JsNumber}
use topology_supply_chain.Sql.{order_by}
use topology_supply_chain.Worker.Job.{commit, acknowledged}
use topology_supply_chain.Worker.Rows.{Db, Reminder, Recurrence, ReminderStatus, JsonArray}
use topology_supply_chain.Worker.Samples.{fresh}
use topology_supply_chain.Worker.Reminder.{sweep_reminder}
use topology_supply_chain.Worker.Reminder.Ends.{due_count, Swept, sweeps_end}

abbrev invoice : Reminder
invoice = record {
  reminder_type = "invoice_due";
  entity_type = "invoice";
  entity_id = 9;
  business_no = some "INV-9";
  due_at = 500000;
  due_at_text = "1970-01-01T00:08:20.000Z";
  next_run_at = 600000;
  recurrence = Recurrence.daily_overdue;
  recipient_roles =
      JsonArray.items (JsValue.text "supply_chain" "supply_chain" JsNumber.other_number ∷ []);
  recipient_user_ids = JsonArray.items [];
  severity = "normal";
  status = ReminderStatus.active;
}

abbrev before : Db
before = record fresh { reminders = record { rows = (2, invoice) ∷ []; next_id = 3 } }

abbrev after : Db
after =
    (sweep_reminder (record { begins = true; commits = acknowledged }) (λ i. false) 1000000
      before).1

sweeps_end_example : (0 + 1 ≡ 1) × (1 ≤ 1)
unfolding sweep_reminder due_count order_by is_safe_integer commit
sweeps_end_example =
    sweeps_end {now = 1000000} {s = before} {k = 1} {t = after} (refl, tt)
      (Swept.and_one (λ i. false) Swept.none_yet refl)
