-- ===== src/Worker/Life/Claim.antt =====
-- What claim of apps/worker/src/server.ts does to the outbox, and to what each worker knows of the message it holds.
use topology_supply_chain.Common.{
  ℕ, ◌+◌, ◌-◌, ◌≡◌, ◌≢◌, ◌∙◌, refl, sym, ap, Bool, true, false, not, ◌&&◌, Option, none, some, List,
  arith, ◌==◌, ==_iff, Bool-cases, inl, inr,
}
use mathlib.Core.Path.{subst}
use topology_supply_chain.Sql.{Table, find, adjust, select, order_by}
use topology_supply_chain.Sql.Laws.{
  find-adjust_self, find-adjust_ne, IsUnique, All-found, All-select, All-order_by, All-head,
}
use topology_supply_chain.Worker.Job.{done}
use topology_supply_chain.Worker.Rows.{Db, Message}
use topology_supply_chain.Worker.Lease.{
  Held, as_held, ClaimTime, candidate, lease_ms, claimed, is_claimable, claims_first,
}
use topology_supply_chain.Worker.Fence.{check_fence, require_fence, is_open, fence_of}
use topology_supply_chain.Worker.Process.{claim_body, take_candidate, take_lease}
use topology_supply_chain.Worker.Life.{IsKnown, is_final, claimed-IsSound}
use topology_supply_chain.Worker.Life.Outbox.{
  IsSoundTable, TableEvolves, IsHeldIn, IsHeldIn-Evolves, adjust-IsSoundTable, expired_table,
  expire-TableEvolves, expire-IsSoundTable,
}

-- The row that SELECT chooses is in the table, may be claimed, and is not locked.
pub candidate_lem :
    (t : ClaimTime) (rows : List (ℕ × Message)) (id : ℕ) (m : Message)
    → IsUnique rows
    → candidate t rows ≡ some (id, m)
    → (find id rows ≡ some m)
      × (is_claimable (t.started - lease_ms) t.selecting m ≡ true)
      × (t.locked id ≡ false)
unfolding candidate
candidate_lem t rows id m u h =
    let passes : ℕ × Message → Bool =
      λ (i, r). not (t.locked i) && is_claimable (t.started - lease_ms) t.selecting r in
    let here = All-select (λ e. find e.0 rows ≡ some e.1) passes rows (All-found rows u) in
    let sorted =
      All-order_by (λ e. (find e.0 rows ≡ some e.1) × (passes e ≡ true)) claims_first
        (select passes rows) here in
    let (found, passed) =
      All-head (λ e. (find e.0 rows ≡ some e.1) × (passes e ≡ true))
        (order_by claims_first (select passes rows)) (id, m) sorted h in
    (found, ground arith, ground arith)

-- What an act of the worker `w` keeps, whatever the act.
pub record Preserves (w : ℕ) (s t : Table Message) : Type 0 where
  pub sound : IsSoundTable s → IsSoundTable t
  pub final :
      (id : ℕ) (m : Message)
      → find id s.rows ≡ some m
      → is_final m.status ≡ true
      → find id t.rows ≡ some m
  pub others : (v : ℕ) (row : Held) → v ≢ w → IsHeldIn v row s → IsHeldIn v row t

pub Preserves-same : (w : ℕ) (t : Table Message) → Preserves w t t
Preserves-same w t = record { sound = λ s. s; final = λ id m h f. h; others = λ v row d h. h }

pub Preserves-compose :
    (w : ℕ) (s t u : Table Message) → Preserves w s t → Preserves w t u → Preserves w s u
Preserves-compose w s t u p q = record {
  sound = λ h. q.sound (p.sound h);
  final = λ id m h f. q.final id m (p.final id m h f) f;
  others = λ v row d h. q.others v row d (p.others v row d h);
}

pub Evolves-final :
    (s t : Table Message)
    → TableEvolves s t
    → (id : ℕ) (m : Message) → find id s.rows ≡ some m
    → is_final m.status ≡ true
    → find id t.rows ≡ some m
Evolves-final s t e id m h f = let (n, g, c) = e id m h in g ∙ ap some (sym (c.final f))

expire-Preserves : (w stale : ℕ) (t : Table Message) → Preserves w t (expired_table stale t)
expire-Preserves w stale t = record {
  sound = expire-IsSoundTable stale t;
  final = Evolves-final t (expired_table stale t) (expire-TableEvolves stale t);
  others =
      λ v row d h. IsHeldIn-Evolves v row t (expired_table stale t) h (expire-TableEvolves stale t);
}

abbrev leased : ℕ → ℕ → ℕ → Table Message → Table Message
leased w now id t = record t { rows = adjust id (claimed w now) t.rows }

module _ (w now : ℕ) (t : Table Message) (id : ℕ) (m : Message) (found : find id t.rows ≡ some m)
    (stale due : ℕ) (claimable : is_claimable stale due m ≡ true) where
  claimable-not_final : is_final m.status ≡ false
  unfolding is_claimable
  claimable-not_final = ground arith

  -- Another worker that had this message has lost it.
  lost_by_others : (v : ℕ) (row : Held) → v ≢ w → IsKnown row v m → IsKnown row v (claimed w now m)
  unfolding claimed
  lost_by_others v row d k = record {
    topic = k.topic;
    limit = k.limit;
    count = λ h. absurd (ground arith);
  }

  lease-Preserves : Preserves w t (leased w now id t)
  lease-Preserves = record {
    sound = λ s.
        adjust-IsSoundTable t id (claimed w now) m found s
          (claimed-IsSound m (s.sound id m found) w now stale due claimable);
    final = λ j n g f. elim (Bool-cases (id == j)) [
      | inl e ↦
          let same_id : id ≡ j = (==_iff id j).0 e in
          let same : m ≡ n = cc in let open_still = claimable-not_final in cc
      | inr e ↦ find-adjust_ne id j (claimed w now) t.rows (λ same. ground arith) ∙ g
    ];
    others = λ v row d (n, g, k). elim (Bool-cases (id == row.id)) [
      | inl e ↦
          let same_id : id ≡ row.id = (==_iff id row.id).0 e in
          let same : n ≡ m = cc in
          (
            claimed w now m,
            subst (λ j. find j (leased w now id t).rows ≡ some (claimed w now m)) same_id
                (find-adjust_self id (claimed w now) t.rows found),
            lost_by_others v row d (subst (IsKnown row v) same k),
          )
      | inr e ↦ (n, find-adjust_ne id row.id (claimed w now) t.rows (λ same. ground arith) ∙ g, k)
    ];
  }

  -- The worker knows the message it has claimed.
  lease-IsHeldIn :
      IsHeldIn w (record (as_held id m) { attempts = m.attempts + 1 }) (leased w now id t)
  unfolding claimed
  lease-IsHeldIn = (
    claimed w now m,
    find-adjust_self id (claimed w now) t.rows found,
    record { topic = refl; limit = refl; count = λ h. refl },
  )

abbrev pub HoldsNext : ℕ → Option Held → Table Message → Type 0
HoldsNext w none t = Unit
HoldsNext w (some row) t = IsHeldIn w row t

-- What a chosen row has to satisfy.
abbrev IsChosen : ClaimTime → Option (ℕ × Message) → Table Message → Type 0
IsChosen c none t = Unit
IsChosen c (some (id, m)) t =
    (find id t.rows ≡ some m) × (is_claimable (c.started - lease_ms) c.selecting m ≡ true)

chosen : (c : ClaimTime) (t : Table Message) → IsSoundTable t → IsChosen c (candidate c t.rows) t
chosen c t s = go (candidate c t.rows) refl
  where
    go : (o : Option (ℕ × Message)) → candidate c t.rows ≡ o → IsChosen c o t
    go none e = tt
    go (some (id, m)) e =
        let (found, claimable, free) = candidate_lem c t.rows id m s.unique e in (found, claimable)

take_candidate_lem :
    (w : ℕ) (c : ClaimTime) (o : Option (ℕ × Message)) (s t : Db) (r : Option Held)
    → IsChosen c o s.outbox
    → take_candidate w c.locking o s ≡ done (r, t)
    → Preserves w s.outbox t.outbox × HoldsNext w r t.outbox
unfolding take_candidate take_lease
take_candidate_lem w c none s t r k h =
    let same : s ≡ t = cc in
    let nothing : none ≡ r = cc in
    (
      subst (λ u. Preserves w s.outbox u.outbox) same (Preserves-same w s.outbox),
      subst (λ o. HoldsNext w o t.outbox) nothing tt,
    )
take_candidate_lem w c (some (id, m)) s t r (found, claimable) h =
    let taken = rw found at h in
    let row : Held = record (as_held id m) { attempts = m.attempts + 1 } in
    let after : Db = record s { outbox = leased w c.locking id s.outbox } in
    let same : after ≡ t = cc in
    let held : some row ≡ r = cc in
    subst (λ u. Preserves w s.outbox u.outbox × HoldsNext w r u.outbox) same
      (
        lease-Preserves w c.locking s.outbox id m found _ _ claimable,
        subst (λ o. HoldsNext w o after.outbox) held
            (lease-IsHeldIn w c.locking s.outbox id m found _ _ claimable),
      )

-- The transaction of claim.
pub claim_body_lem :
    (w : ℕ) (c : ClaimTime) (s t : Db) (r : Option Held)
    → IsSoundTable s.outbox
    → claim_body w c s ≡ done (r, t)
    → Preserves w s.outbox t.outbox × HoldsNext w r t.outbox
unfolding claim_body require_fence check_fence
claim_body_lem w c s t r sound h = elim (Bool-cases (is_open (fence_of "outbox.worker" s.fences))) [
  | inr e ↦ cc (rw e at h)
  | inl e ↦
      let stale = c.started - lease_ms in
      let mid : Db = record s { outbox = expired_table stale s.outbox } in
      let fresh = expire-IsSoundTable stale s.outbox sound in
      let (p, next) =
        take_candidate_lem w c (candidate c mid.outbox.rows) mid t r (chosen c mid.outbox fresh)
          (rw e at h) in
      (Preserves-compose w s.outbox mid.outbox t.outbox (expire-Preserves w stale s.outbox) p, next)
]
