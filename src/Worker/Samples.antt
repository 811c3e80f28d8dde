-- ===== src/Worker/Samples.antt =====
-- A small database for the tests: one user, and the three fences, open.
use topology_supply_chain.Common.{String, true, none, [], ◌∷◌}
use topology_supply_chain.Sql.{Table}
use topology_supply_chain.Worker.Rows.{Db, User, Fence}

abbrev pub nothing : {R : Type 0} → Table R
nothing = record { rows = []; next_id = 1 }

abbrev pub fence : String → Fence
fence resource = record { resource = resource; owner = "worker-v1"; enabled = 1; generation = 2 }

abbrev pub planner : User
planner = record {
  email = "p@example.com";
  role = "supply_chain";
  is_active = true;
  factory_id = none;
}

abbrev pub fresh : Db
fresh = record {
  outbox = nothing;
  notices = nothing;
  users = record { rows = (4, planner) ∷ []; next_id = 5 };
  user_roles = [];
  fences = fence "outbox.worker" ∷ fence "files.worker" ∷ fence "reminders.worker" ∷ [];
  plan_items = nothing;
  plan_links = [];
  order_items = [];
  supplier_skus = nothing;
  files = nothing;
  reminders = nothing;
  invoice_exceptions = nothing;
  reminder_audits = [];
  scan_audits = [];
}
