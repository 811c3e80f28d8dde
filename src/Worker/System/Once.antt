-- ===== src/Worker/System/Once.antt =====
-- A message is handled to the end once, whichever workers hold it.
use topology_supply_chain.Common.{ℕ, ◌≡◌, true, false, some, arith}
use mathlib.Core.Path.{subst}
use topology_supply_chain.Sql.{find}
use topology_supply_chain.Worker.Rows.{Message}
use topology_supply_chain.Worker.Lease.{Held, is_held}
use topology_supply_chain.Worker.Process.{Services, Circumstances}
use topology_supply_chain.Worker.System.{System, run, Reach, held_by}
use topology_supply_chain.Worker.Life.{is_final}
use topology_supply_chain.Worker.Life.Outbox.{IsHeldIn}
use topology_supply_chain.Worker.Life.Claim.{HoldsNext}
use topology_supply_chain.Worker.Life.Powerless.{lost_lease}
use topology_supply_chain.Worker.System.Invariant.{
  IsGood, IsStart, IsStart-IsGood, Reach-IsGood, Reach-final,
}

known_row :
    (s : System) (w : ℕ) (row : Held)
    → IsGood s
    → held_by (s.phases w) ≡ some row
    → IsHeldIn w row s.db.outbox
known_row s w row g h = subst (λ o. HoldsNext w o s.db.outbox) h (g.known w).1

-- Where a worker of a good system has lost the lease of the message it holds, none of its acts changes the database.
pub lost_worker :
    (services : Services) (s : System) (w : ℕ) (c : Circumstances) (row : Held) (m : Message)
    → IsGood s
    → held_by (s.phases w) ≡ some row
    → find row.id s.db.outbox.rows ≡ some m
    → is_held w m ≡ false
    → (run services w c s).db ≡ s.db
unfolding run
lost_worker services s w c row m g h found lost_it =
    lost_lease services w c (s.phases w) row s.db m g.sound (known_row s w row g h) h found lost_it

-- A system that is reached from the start has a message that is completed or dead. Whatever steps follow, a worker that still
-- holds this message then changes nothing in the database by its next act: it records no notice or notification, and completes,
-- retries or buries nothing. What it asks of a provider before is not part of the database.
pub finished_once :
    {services : Services} {start s t : System} (w : ℕ) (c : Circumstances) (row : Held)
    (m : Message)
    → IsStart start
    → Reach services start s
    → find row.id s.db.outbox.rows ≡ some m
    → is_final m.status ≡ true
    → Reach services s t
    → held_by (t.phases w) ≡ some row
    → (run services w c t).db ≡ t.db
finished_once {services} {start} {s} {t} w c row m begun r found f later h =
    let good = Reach-IsGood r (IsStart-IsGood start begun) in
    let kept = Reach-final row.id m good later found f in
    lost_worker services t w c row m (Reach-IsGood later good) h kept (ground arith)
