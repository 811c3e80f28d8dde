-- ===== src/Worker/Life/Progress.antt =====
-- What claim of apps/worker/src/server.ts returns when there is work.
use topology_supply_chain.Common.{
  ℕ, ◌+◌, ◌-◌, ◌≡◌, ◌≢◌, ◌⊎◌, ==_iff, ◌∙◌, refl, Bool, true, false, not, ◌&&◌, ◌||◌, Option, none,
  some, List, [], ◌∷◌, arith, ◌==◌, head?, Bool-cases, inl, inr,
}
use mathlib.Core.Path.{subst}
use topology_supply_chain.Sql.{Table, find, adjust, select, order_by, insert_ordered}
use topology_supply_chain.Worker.Job.{done, Connection, acknowledged, transact, commit}
use topology_supply_chain.Worker.Rows.{Db, Message, is_due}
use topology_supply_chain.Worker.Lease.{
  Held, as_held, claimed, ClaimTime, candidate, lease_ms, expire, is_exhausted, exhausted,
  is_claimable, claims_first, is_processing, locked_before,
}
use topology_supply_chain.Worker.Fence.{check_fence, require_fence, is_open, fence_of}
use topology_supply_chain.Worker.Process.{
  Circumstances, claim, claim_body, take_candidate, take_lease,
}
use topology_supply_chain.Worker.Life.Claim.{candidate_lem}
use topology_supply_chain.Worker.Life.{IsSound, is_final}
use topology_supply_chain.Worker.Life.Outbox.{
  find-expire, IsSoundTable, expired_table, expire-IsSoundTable,
}

-- The time has come for the message: it is due, and no lease that is still running holds it.
abbrev pub is_ready : (stale now : ℕ) → Message → Bool
is_ready stale now m =
    is_due m.available_at now && (not (is_processing m.status) || locked_before stale m.locked_at)

-- A sound message that is ready and not final can be claimed, or its lease is exhausted.
ready_lem :
    (stale now : ℕ) (m : Message)
    → IsSound m
    → is_ready stale now m ≡ true
    → is_claimable stale now m ≡ false
    → is_exhausted stale m ≡ false
    → is_final m.status ≡ true
unfolding is_claimable is_exhausted
ready_lem stale now m s ready c e = ground (arith, s.bounded, s.locked_right)

pair : {R : Type 0} {i j : ℕ} {r s : R} → i ≡ j → r ≡ s → ◌≡◌ {A = ℕ × R} (i, r) (j, s)
pair e f = cc

-- Rows that SELECT leaves out.
select_none :
    {R : Type 0} (p : ℕ × R → Bool) (rows : List (ℕ × R)) (id : ℕ) (r : R)
    → select p rows ≡ []
    → find id rows ≡ some r
    → p (id, r) ≡ false
select_none p [] id r e h = cc
select_none p ((i, s) ∷ rows) id r e h = elim (Bool-cases (p (i, s))) [
  | inl y ↦ cc (rw y at e)
  | inr n ↦ elim (Bool-cases (i == id)) [
    | inl same ↦
        let same_id : i ≡ id = (==_iff i id).0 same in
        let same_row : s ≡ r = cc (rw same at h) in
        subst (λ e. p e ≡ false) (pair same_id same_row) n
    | inr other ↦ select_none p rows id r (rw n at e) (rw other at h)
  ]
]

insert_some :
    {R : Type 0} (before : ℕ × R → ℕ × R → Bool) (e : ℕ × R) (rows : List (ℕ × R))
    → head? (insert_ordered before e rows) ≢ none
unfolding insert_ordered
insert_some before e [] h = cc
insert_some before e (d ∷ rows) h = ground arith

order_none :
    {R : Type 0} (before : ℕ × R → ℕ × R → Bool) (rows : List (ℕ × R))
    → head? (order_by before rows) ≡ none
    → rows ≡ []
unfolding order_by insert_ordered
order_none before [] h = refl
order_none before (e ∷ rows) h = absurd (insert_some before e (order_by before rows) h)

-- No row of the table after the UPDATE is exhausted.
none_exhausted :
    (stale j : ℕ) (rows : List (ℕ × Message)) (m : Message)
    → find j (expire stale rows) ≡ some m
    → is_exhausted stale m ≡ false
unfolding expire exhausted is_exhausted
none_exhausted stale j [] m h = cc
none_exhausted stale j ((i, n) ∷ rows) m h = elim (Bool-cases (i == j)) [
  | inr other ↦ none_exhausted stale j rows m (rw other at h)
  | inl same ↦ elim (Bool-cases (is_exhausted stale n)) [
    | inl e ↦
        let row : exhausted n ≡ m = cc (rw (same, e) at h) in
        subst (λ x. is_exhausted stale x ≡ false) row refl
    | inr e ↦
        let row : n ≡ m = cc (rw (same, e) at h) in subst (λ x. is_exhausted stale x ≡ false) row e
  ]
]

-- The connection works: it begins, and its commit is acknowledged.
abbrev pub IsWorking : Connection → Type 0
IsWorking c = (c.begins ≡ true) × (c.commits ≡ acknowledged)

-- How the transaction of claim ends where the fence is open.
abbrev Ends : ℕ → ClaimTime → Db → Type 0
Ends w c s =
    ((row : Held) × (t : Db) × (claim_body w c s ≡ done (some row, t)))
    ⊎ ((candidate c (expire (c.started - lease_ms) s.outbox.rows) ≡ none)
        × (claim_body w c s
            ≡ done (none, record s { outbox = expired_table (c.started - lease_ms) s.outbox })))

claim_returns :
    (w : ℕ) (c : ClaimTime) (s : Db)
    → IsSoundTable s.outbox
    → is_open (fence_of "outbox.worker" s.fences) ≡ true
    → Ends w c s
unfolding claim_body require_fence check_fence take_candidate take_lease
claim_returns w c s sound fence = go (candidate c rows) refl
  where
    rows : List (ℕ × Message)
    rows = expire (c.started - lease_ms) s.outbox.rows

    go :
        (o : Option (ℕ × Message))
        → candidate c (expire (c.started - lease_ms) s.outbox.rows) ≡ o
        → Ends w c s
    go none e = inr (e, rw (fence, e) refl)
    go (some (id, m)) e =
        let u = (expire-IsSoundTable (c.started - lease_ms) s.outbox sound).unique in
        let (found, claimable, free) =
          candidate_lem c (expire (c.started - lease_ms) s.outbox.rows) id m u e in
        inl (
          record (as_held id m) { attempts = m.attempts + 1 },
          record s {
            outbox = record (expired_table (c.started - lease_ms) s.outbox) {
              rows = adjust id (claimed w c.locking) (expire (c.started - lease_ms) s.outbox.rows);
            };
          },
          rw (fence, e, found) refl,
        )

-- The transaction, committed.
claim_runs :
    (w : ℕ) (c : Circumstances) (s t : Db) (r : Option Held)
    → IsWorking c.connection
    → claim_body w c.time s ≡ done (r, t)
    → claim w c s ≡ (done r, t)
unfolding claim transact commit
claim_runs w c s t r (begins, commits) h = rw (begins, commits, h) refl

-- A message after the UPDATE of claim is as ready as before, or dead.
expired_ready :
    (stale now id : ℕ) (t : Table Message) (m : Message)
    → find id t.rows ≡ some m
    → is_ready stale now m ≡ true
    → (n : Message) × (find id (expired_table stale t).rows ≡ some n)
      × ((is_ready stale now n ≡ true) ⊎ (is_final n.status ≡ true))
unfolding exhausted
expired_ready stale now id t m found ready = elim (Bool-cases (is_exhausted stale m)) [
  | inl e ↦ (exhausted m, find-expire stale id t.rows ∙ rw (found, e) refl, inr refl)
  | inr e ↦ (m, find-expire stale id t.rows ∙ rw (found, e) refl, inl ready)
]

-- No message is left behind. Where the fence is open, the connection works and no other transaction has locked a row, a message is
-- ready when it is due and no lease that is still running holds it, at the times that claim reads. Then claim returns a
-- message, or it returns none and the ready message is completed or dead.
pub claim_progress :
    (w : ℕ) (c : Circumstances) (s : Db) (id : ℕ) (m : Message)
    → IsSoundTable s.outbox
    → is_open (fence_of "outbox.worker" s.fences) ≡ true
    → IsWorking c.connection
    → ((j : ℕ) → c.time.locked j ≡ false)
    → find id s.outbox.rows ≡ some m
    → is_ready (c.time.started - lease_ms) c.time.selecting m ≡ true
    → ((row : Held) × (t : Db) × (claim w c s ≡ (done (some row), t)))
      ⊎ ((t : Db) × (n : Message) × (claim w c s ≡ (done none, t))
          × (find id t.outbox.rows ≡ some n)
          × (is_final n.status ≡ true))
unfolding candidate
claim_progress w c s id m sound fence working free found ready =
    elim (claim_returns w c.time s sound fence) [
      | inl (row, t, e) ↦ inl (row, t, claim_runs w c s t (some row) working e)
      | inr (empty, e) ↦
          let stale = c.time.started - lease_ms in
          let t : Db = record s { outbox = expired_table stale s.outbox } in
          let passes : ℕ × Message → Bool =
            λ (i, r). not (c.time.locked i) && is_claimable stale c.time.selecting r in
          let left : select passes t.outbox.rows ≡ [] =
            order_none claims_first (select passes t.outbox.rows) empty in
          let (n, here, state) = expired_ready stale c.time.selecting id s.outbox m found ready in
          let out = select_none passes t.outbox.rows id n left here in
          let kept = (expire-IsSoundTable stale s.outbox sound).sound id n here in
          let over : is_final n.status ≡ true = elim state [
            | inr f ↦ f
            | inl still ↦
                ready_lem stale c.time.selecting n kept still (ground (arith, free id))
                  (none_exhausted stale id s.outbox.rows n here)
          ] in
          inr (t, n, claim_runs w c s t none working e, here, over)
    ]
