-- ===== src/Worker/Life.antt =====
-- The life of one outbox message under the statements of apps/worker/src/server.ts: what a sound row is, and what a
-- worker's statement may do to a row.
pub mod Outbox
pub mod Jobs
pub mod Claim
pub mod Acts
pub mod Lost
pub mod Powerless
pub mod Progress
pub mod Oldest
pub mod Effect
pub mod Delay
use topology_supply_chain.Common.{
  ℕ, ◌+◌, ◌≤◌, ◌<◌, str_eq, ◌≡◌, ◌∙◌, refl, Bool, true, false, Option, none, some, is_some, arith,
  ◌==◌, leb, ltb, ◌&&◌, ◌||◌, if◌then◌else◌, min, ◌-◌, ◌*◌,
}
use topology_supply_chain.Worker.Job.{Fault}
use topology_supply_chain.Worker.Rows.{
  Message, MessageStatus, pending, processing, completed, dead, PayloadText, redacted,
}
use topology_supply_chain.Worker.Lease.{
  Held, is_held, is_pending, is_processing, locked_by_worker, redact, completed_in_dispatch,
  completed_after, paused, failed, is_dead, is_exhausted, exhausted, is_claimable, claimed,
  locked_before,
}

-- A status that is never left.
abbrev pub is_final : MessageStatus → Bool
is_final completed = true
is_final dead = true
is_final _ = false

abbrev pub is_sms : Message → Bool
is_sms m = str_eq m.topic "sms.deliver"

-- The lock is there while the message is in processing.
abbrev pub IsLockedRight : Message → Type 0
IsLockedRight m =
    (is_processing m.status ≡ is_some m.locked_by) × (is_some m.locked_by ≡ is_some m.locked_at)

abbrev pub IsBounded : Message → Type 0
IsBounded m =
    (m.attempts ≤ m.max_attempts)
    × (is_pending m.status ≡ true → m.attempts < m.max_attempts)
    × (is_processing m.status ≡ true → 0 < m.attempts)

-- The code of a text message is gone once the message is final.
abbrev pub IsPrivate : Message → Type 0
IsPrivate m = is_final m.status ≡ true → is_sms m ≡ true → m.payload ≡ redacted

pub record IsSound (m : Message) : Type 0 where
  pub bounded : IsBounded m
  pub locked_right : IsLockedRight m
  pub private : IsPrivate m

-- What a worker knows of a message it holds, or has lost.
pub record IsKnown (row : Held) (w : ℕ) (m : Message) : Type 0 where
  pub topic : row.topic ≡ m.topic
  pub limit : row.max_attempts ≡ m.max_attempts
  pub count : is_held w m ≡ true → row.attempts ≡ m.attempts

-- What a statement that takes no lease does to a row.
pub record Evolves (m n : Message) : Type 0 where
  pub topic : m.topic ≡ n.topic
  pub limit : m.max_attempts ≡ n.max_attempts
  pub final : is_final m.status ≡ true → m ≡ n
  pub kept : (w : ℕ) → is_held w n ≡ true → (is_held w m ≡ true) × (m.attempts ≡ n.attempts)

module _ (m : Message) (s : IsSound m) where
  pub exhausted-IsSound : IsSound (exhausted m)
  unfolding exhausted redact
  exhausted-IsSound = record {
    bounded = ground (arith, s.bounded);
    locked_right = (refl, refl);
    private = ground arith;
  }

  pub completed_after-IsSound : IsSound (completed_after m)
  unfolding completed_after redact
  completed_after-IsSound = record {
    bounded = ground (arith, s.bounded);
    locked_right = (refl, refl);
    private = ground arith;
  }

  pub completed_in_dispatch-IsSound : is_sms m ≡ false → IsSound (completed_in_dispatch m)
  unfolding completed_in_dispatch
  completed_in_dispatch-IsSound h = record {
    bounded = ground (arith, s.bounded);
    locked_right = (refl, refl);
    private = λ f t. cc;
  }

  pub paused-IsSound : (clock w : ℕ) → is_held w m ≡ true → IsSound (paused clock m)
  unfolding paused
  paused-IsSound clock w h = record {
    bounded = ground (arith, s.bounded);
    locked_right = (refl, refl);
    private = λ f t. cc;
  }

  pub failed-IsSound :
      (now w : ℕ) (row : Held) (e : Fault)
      → is_held w m ≡ true
      → IsKnown row w m
      → IsSound (failed now row e m)
  unfolding failed redact is_dead
  failed-IsSound now w row e h k = record {
    bounded = ground (arith, s.bounded, k.limit, k.count);
    locked_right = ground arith;
    private = ground arith;
  }

  pub claimed-IsSound :
      (w now stale due : ℕ) → is_claimable stale due m ≡ true → IsSound (claimed w now m)
  unfolding claimed is_claimable
  claimed-IsSound w now stale due h = record {
    bounded = ground (arith, s.bounded);
    locked_right = (refl, refl);
    private = λ f t. cc;
  }

-- Each statement of a worker changes a row as `Evolves` says.
module _ (m : Message) where
  pub Evolves-same : Evolves m m
  Evolves-same = record { topic = refl; limit = refl; final = λ f. refl; kept = λ w h. (h, refl) }

  pub Evolves-exhausted : (stale : ℕ) → is_exhausted stale m ≡ true → Evolves m (exhausted m)
  unfolding exhausted is_exhausted
  Evolves-exhausted stale h = record {
    topic = refl;
    limit = refl;
    final = λ f. ground arith;
    kept = λ w k. cc;
  }

  module _ (w : ℕ) (h : is_held w m ≡ true) where
    pub Evolves-completed_after : Evolves m (completed_after m)
    unfolding completed_after
    Evolves-completed_after = record {
      topic = refl;
      limit = refl;
      final = λ f. ground arith;
      kept = λ v k. cc;
    }

    pub Evolves-completed_in_dispatch : Evolves m (completed_in_dispatch m)
    unfolding completed_in_dispatch
    Evolves-completed_in_dispatch = record {
      topic = refl;
      limit = refl;
      final = λ f. ground arith;
      kept = λ v k. cc;
    }

    pub Evolves-paused : (clock : ℕ) → Evolves m (paused clock m)
    unfolding paused
    Evolves-paused clock = record {
      topic = refl;
      limit = refl;
      final = λ f. ground arith;
      kept = λ v k. cc;
    }

    pub Evolves-failed : (now : ℕ) (row : Held) (e : Fault) → Evolves m (failed now row e m)
    unfolding failed
    Evolves-failed now row e = record {
      topic = refl;
      limit = refl;
      final = λ f. ground arith;
      kept = λ v k. ground arith;
    }

pub Evolves-compose : (l m n : Message) → Evolves l m → Evolves m n → Evolves l n
Evolves-compose l m n p q = record {
  topic = cc;
  limit = cc;
  final = λ f. let same = p.final f in same ∙ q.final (rw (← same) f);
  kept = λ w h.
      let (mid, late) = q.kept w h in let (first, early) = p.kept w mid in (first, early ∙ late);
}
