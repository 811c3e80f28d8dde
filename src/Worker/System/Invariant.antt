-- ===== src/Worker/System/Invariant.antt =====
-- What holds of every system of workers that is reached from a good one.
use topology_supply_chain.Common.{
  ℕ, ◌≤◌, ◌<◌, ◌&&◌, Bool, is_some, leb, ◌≡◌, refl, sym, true, false, Option, none, some, [], ◌==◌,
  ==_iff, Bool-cases, inl, inr, arith,
}
use mathlib.Core.Path.{subst}
use topology_supply_chain.Sql.{Table, find, insert}
use topology_supply_chain.Worker.Rows.{Db, Message, redacted}
use topology_supply_chain.Worker.Lease.{Held, is_pending, is_processing}
use topology_supply_chain.Worker.Dispatch.{key_taken}
use topology_supply_chain.Worker.Process.{Services, Circumstances, Phase, idle, crashed}
use topology_supply_chain.Worker.System.{
  System, set_phase, run, NewMessage, new_row, enqueue_outbox, Step, acts, enqueues,
  writes_elsewhere, ends, sweep, sweeps, Reach, here, next, held_by,
}
use topology_supply_chain.Worker.Life.{IsSound, is_final, is_sms}
use topology_supply_chain.Worker.Job.{Connection}
use topology_supply_chain.Worker.Reminder.{sweep_reminder}
use topology_supply_chain.Worker.Reminder.Sound.{sweep_reminder-KeepsRows}
use topology_supply_chain.Worker.Life.Outbox.{
  IsSoundTable, IsHeldIn, IsHeldIn-Evolves, insert-IsSoundTable, insert-TableEvolves,
}
use topology_supply_chain.Worker.Life.Claim.{HoldsNext, Evolves-final}
use topology_supply_chain.Worker.Life.Acts.{Next, act_lem}

-- The outbox is sound, and each worker knows the message it holds.
pub record IsGood (s : System) : Type 0 where
  pub sound : IsSoundTable s.db.outbox
  pub known : (v : ℕ) → Next v (s.phases v) s.db.outbox

-- What every step keeps.
pub record Keeps (s t : System) : Type 0 where
  pub good : IsGood t
  pub final :
      (id : ℕ) (m : Message)
      → find id s.db.outbox.rows ≡ some m
      → is_final m.status ≡ true
      → find id t.db.outbox.rows ≡ some m

-- A worker's knowledge, where the rows it knows stay as it knows them.
Next-kept :
    (v : ℕ) (p : Phase) (s t : Table Message)
    → ((row : Held) → IsHeldIn v row s → IsHeldIn v row t)
    → Next v p s
    → Next v p t
Next-kept v p s t keep (right, known) = (right, go (held_by p) known)
  where
    go : (o : Option Held) → HoldsNext v o s → HoldsNext v o t
    go none k = tt
    go (some row) k = keep row k

run_lem :
    (services : Services) (w : ℕ) (c : Circumstances) (s : System)
    → IsGood s
    → Keeps s (run services w c s)
unfolding run
run_lem services w c s g =
    let (p, n) = act_lem services w c (s.phases w) s.db g.sound (g.known w) in
    record {
      good = record {
        sound = p.sound g.sound;
        known = λ v. elim (Bool-cases (v == w)) [
          | inl e ↦ let same : v ≡ w = (==_iff v w).0 e in rw (e, same) n
          | inr e ↦ rw e (
              Next-kept v (s.phases v) _ _ (λ row. p.others v row (λ same. ground arith))
                (g.known v))
        ];
      };
      final = p.final;
    }

new_row-IsSound : (n : NewMessage) → 0 < n.max_attempts → IsSound (new_row n)
new_row-IsSound n positive = record {
  bounded = (omega arith, λ p. omega arith, λ p. cc);
  locked_right = (refl, refl);
  private = λ f t. cc;
}

enqueue_lem :
    (n : NewMessage) (s : System)
    → 0 < n.max_attempts
    → IsGood s
    → Keeps s (record s { db = (enqueue_outbox n s.db).1 })
unfolding enqueue_outbox
enqueue_lem n s positive g =
    let before = s.db.outbox in
    let after = (insert (new_row n) s.db.outbox).0 in
    let evolves = insert-TableEvolves (new_row n) before g.sound in
    let grown = insert-IsSoundTable (new_row n) before g.sound (new_row-IsSound n positive) in
    elim (Bool-cases (key_taken n.deduplication_key s.db)) [
      | inl e ↦ rw e (record { good = g; final = λ id m h f. h })
      | inr e ↦ rw e (record {
        good = record {
          sound = grown;
          known = λ v.
              Next-kept v (s.phases v) before after
                (λ row h. IsHeldIn-Evolves v row before after h evolves) (g.known v);
        };
        final = Evolves-final before after evolves;
      })
    ]

end_lem :
    (w : ℕ) (s : System) → IsGood s → Keeps s (record s { phases = set_phase w crashed s.phases })
end_lem w s g = record {
  good = record {
    sound = g.sound;
    known = λ v. elim (Bool-cases (v == w)) [ inl e ↦ rw e (tt, tt) | inr e ↦ rw e (g.known v) ];
  };
  final = λ id m h f. h;
}

elsewhere_lem :
    (db : Db) (s : System) → db.outbox ≡ s.db.outbox → IsGood s → Keeps s (record s { db = db })
elsewhere_lem db s e g = record {
  good = record {
    sound = subst IsSoundTable (sym e) g.sound;
    known = λ v. subst (Next v (s.phases v)) (sym e) (g.known v);
  };
  final = λ id m h f. rw e h;
}

sweep_lem :
    (c : Connection) (locked : ℕ → Bool) (now : ℕ) (s : System)
    → IsGood s
    → Keeps s (sweep c locked now s)
unfolding sweep
sweep_lem c locked now s g =
    let after = (sweep_reminder c locked now s.db).1.outbox in
    let (grown, evolves) = (sweep_reminder-KeepsRows c locked now s.db).at g.sound in
    record {
      good = record {
        sound = grown;
        known = λ v.
            Next-kept v (s.phases v) s.db.outbox after
              (λ row h. IsHeldIn-Evolves v row s.db.outbox after h evolves) (g.known v);
      };
      final = Evolves-final s.db.outbox after evolves;
    }

pub Step-Keeps : {services : Services} (s t : System) → Step services s t → IsGood s → Keeps s t
Step-Keeps s t (acts w c e) g = subst (Keeps s) (sym e) (run_lem _ w c s g)
Step-Keeps s t (enqueues n positive e) g = subst (Keeps s) (sym e) (enqueue_lem n s positive g)
Step-Keeps s t (writes_elsewhere db same e) g = subst (Keeps s) (sym e) (elsewhere_lem db s same g)
Step-Keeps s t (sweeps c locked now e) g = subst (Keeps s) (sym e) (sweep_lem c locked now s g)
Step-Keeps s t (ends w e) g = subst (Keeps s) (sym e) (end_lem w s g)

-- Every system that is reached from a good one is good: its rows are sound, and each worker knows the message it
-- holds.
pub Reach-IsGood : {services : Services} {s t : System} → Reach services s t → IsGood s → IsGood t
Reach-IsGood here g = g
Reach-IsGood (next r step) g = (Step-Keeps _ _ step (Reach-IsGood r g)).good

-- A message that is completed or dead keeps its row for good, whatever the workers and the API do: if the system has
-- become another one by any steps from a good one, the row is there as it was.
pub Reach-final :
    {services : Services} {s t : System} (id : ℕ) (m : Message)
    → IsGood s
    → Reach services s t
    → find id s.db.outbox.rows ≡ some m
    → is_final m.status ≡ true
    → find id t.db.outbox.rows ≡ some m
Reach-final id m g here h f = h
Reach-final id m g (next r step) h f =
    (Step-Keeps _ _ step (Reach-IsGood r g)).final id m (Reach-final id m g r h f) f

-- Before the first message is enqueued and the first worker has claimed one.
abbrev pub IsStart : System → Type 0
IsStart s = (s.db.outbox.rows ≡ []) × ((v : ℕ) → s.phases v ≡ idle)

pub IsStart-IsGood : (s : System) → IsStart s → IsGood s
IsStart-IsGood s (empty, idling) = record {
  sound = record {
    unique = rw empty tt;
    keyed = λ id m h. cc (rw empty at h);
    sound = λ id m h. cc (rw empty at h);
  };
  known = λ v. rw (idling v) (tt, tt);
}

-- In every system that is reached from the start, each message has been attempted at most `max_attempts` times, a
-- message that waits has an attempt left, and a message is locked by a worker exactly while it is in processing.
pub attempts_bounded :
    {services : Services} {s t : System} (id : ℕ) (m : Message)
    → IsStart s
    → Reach services s t
    → find id t.db.outbox.rows ≡ some m
    → (m.attempts ≤ m.max_attempts)
      × ((is_pending m.status && leb m.max_attempts m.attempts) ≡ false)
      × (is_processing m.status ≡ is_some m.locked_by)
      × (is_some m.locked_by ≡ is_some m.locked_at)
attempts_bounded id m start r h =
    let sound = (Reach-IsGood r (IsStart-IsGood _ start)).sound.sound id m h in
    (sound.bounded.0, ground (arith, sound.bounded), sound.locked_right.0, sound.locked_right.1)

-- In every system that is reached from the start, the payload of a text message that is completed or dead is
-- redacted: no code outlives its delivery.
pub codes_redacted :
    {services : Services} {s t : System} (id : ℕ) (m : Message)
    → IsStart s
    → Reach services s t
    → find id t.db.outbox.rows ≡ some m
    → is_final m.status ≡ true
    → is_sms m ≡ true
    → m.payload ≡ redacted
codes_redacted id m start r h =
    ((Reach-IsGood r (IsStart-IsGood _ start)).sound.sound id m h).private
