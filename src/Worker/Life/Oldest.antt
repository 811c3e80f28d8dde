-- ===== src/Worker/Life/Oldest.antt =====
-- Which message claim of apps/worker/src/server.ts chooses.
use topology_supply_chain.Common.{
  ℕ, ◌-◌, ◌/◌, ◌≤◌, ◌≡◌, Bool, true, false, not, ◌&&◌, ◌||◌, ◌<◌, ◌⊎◌, inl, inr, ap, leb,
  Bool-cases, some, List, arith,
}
use topology_supply_chain.Sql.{find, select}
use topology_supply_chain.Sql.Order.{IsOrder, select_found, order_by-head}
use topology_supply_chain.Worker.Rows.{Message, Stamp, iso, datetime, is_due}
use topology_supply_chain.Worker.Lease.{
  ClaimTime, candidate, lease_ms, is_claimable, claims_first, stamp_le,
}

days_grow : (a b : ℕ) → a ≤ b → a / 86400000 ≤ b / 86400000
days_grow a b h = omega arith

stamp_le_same : (a : Stamp) → stamp_le a a ≡ true
unfolding stamp_le is_due
stamp_le_same (iso a) = ground arith
stamp_le_same (datetime a) = ground arith

stamp_le_total : (a b : Stamp) → stamp_le a b ≡ false → stamp_le b a ≡ true
unfolding stamp_le is_due
stamp_le_total (iso a) (iso b) h = ground arith
stamp_le_total (iso a) (datetime b) h = ground arith
stamp_le_total (datetime a) (iso b) h = ground arith
stamp_le_total (datetime a) (datetime b) h = ground arith

stamp_le_compose : (a b c : Stamp) → stamp_le a b ≡ true → stamp_le b c ≡ true → stamp_le a c ≡ true
unfolding stamp_le is_due
stamp_le_compose (iso a) (iso b) (iso c) h k = ground arith
stamp_le_compose (iso a) (iso b) (datetime c) h k = ground (arith, days_grow a b)
stamp_le_compose (iso a) (datetime b) (iso c) h k = ground (arith, days_grow c a)
stamp_le_compose (iso a) (datetime b) (datetime c) h k = ground (arith, days_grow b c)
stamp_le_compose (datetime a) (iso b) (iso c) h k = ground (arith, days_grow b c)
stamp_le_compose (datetime a) (iso b) (datetime c) h k = ground (arith, days_grow c a)
stamp_le_compose (datetime a) (datetime b) (iso c) h k = ground (arith, days_grow a b)
stamp_le_compose (datetime a) (datetime b) (datetime c) h k = ground arith

claims-IsOrder : IsOrder claims_first
unfolding claims_first
claims-IsOrder = record {
  same = λ (i, m). ground (arith, stamp_le_same m.available_at);
  total = λ (i, m) (j, n) h. ground (arith, stamp_le_total m.available_at n.available_at);
  compose = λ (i, m) (j, n) (k, o) h g. ground (
    arith,
    stamp_le_compose m.available_at n.available_at o.available_at,
    stamp_le_compose n.available_at o.available_at m.available_at,
    stamp_le_compose o.available_at m.available_at n.available_at,
  );
}

-- The time of a row lies before that of another, as texts: two ISO times or two DATETIMEs by the time that they show; a DATETIME
-- before an ISO time of the same date, since a blank precedes `T`.
abbrev pub Earlier : Stamp → Stamp → Type 0
Earlier (iso a) (iso b) = a < b
Earlier (datetime a) (datetime b) = a < b
Earlier (datetime a) (iso b) = a / 86400000 ≤ b / 86400000
Earlier (iso a) (datetime b) = a / 86400000 < b / 86400000

-- What the columns of ORDER BY mean.
chosen_first :
    (a b : Stamp) (i j : ℕ)
    → (stamp_le a b && (not (stamp_le b a) || leb i j)) ≡ true
    → Earlier a b ⊎ ((a ≡ b) × (i ≤ j))
unfolding stamp_le is_due
chosen_first (iso a) (iso b) i j h = elim (Bool-cases (leb b a)) [
  | inl e ↦ inr (ap iso (ground arith), ground arith)
  | inr e ↦ inl (ground arith)
]
chosen_first (datetime a) (datetime b) i j h = elim (Bool-cases (leb b a)) [
  | inl e ↦ inr (ap datetime (ground arith), ground arith)
  | inr e ↦ inl (ground arith)
]
chosen_first (datetime a) (iso b) i j h = inl (ground arith)
chosen_first (iso a) (datetime b) i j h = inl (ground arith)

-- Let claim choose a message. Against every other message that may be claimed then and that no other transaction has locked, its
-- available_at is the earlier one, or the two are the same and its id is not the greater.
pub claims_oldest :
    (t : ClaimTime) (rows : List (ℕ × Message)) (id j : ℕ) (m n : Message)
    → candidate t rows ≡ some (id, m)
    → find j rows ≡ some n
    → t.locked j ≡ false
    → is_claimable (t.started - lease_ms) t.selecting n ≡ true
    → Earlier m.available_at n.available_at ⊎ ((m.available_at ≡ n.available_at) × (id ≤ j))
unfolding candidate claims_first
claims_oldest t rows id j m n h found free claimable =
    let passes : ℕ × Message → Bool =
      λ (i, r). not (t.locked i) && is_claimable (t.started - lease_ms) t.selecting r in
    let least = order_by-head claims_first claims-IsOrder (select passes rows) (id, m) h in
    chosen_first m.available_at n.available_at id j
      (select_found (λ x. claims_first (id, m) x ≡ true) passes rows j n least found (ground arith))
