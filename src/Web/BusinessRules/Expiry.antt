-- ===== src/Web/BusinessRules/Expiry.antt =====
-- How the expiry status moves with time (apps/web/app/lib/business-rules.ts).
use topology_supply_chain.Common.{
  ℕ, ◌≡◌, ◌≤◌, Bool, true, arith, Bool-cases, inl, inr, if◌then◌else◌,
}
use topology_supply_chain.Common.Int.{ℤ, ◌≤ℤ◌, ◌+ℤ◌, ◌-ℤ◌, leb_ℤ, int_laws}
use topology_supply_chain.Ops.Values.{int}
use topology_supply_chain.Ops.Store.{ExpiryStatus, normal, yellow, red, expired_frozen}
use topology_supply_chain.Web.BusinessRules.{ruled, status_at, calculate_expiry_status}

-- The statuses from the best to the worst.
abbrev pub severity : ExpiryStatus → ℕ
severity normal = 0
severity yellow = 1
severity red = 2
severity expired_frozen = 3

-- The statuses in the order of the tests.
abbrev graded : Bool → Bool → Bool → ExpiryStatus
graded expired quarter half =
    if expired then expired_frozen else if quarter then red else if half then yellow else normal

worse :
    (x y z x' y' z' : Bool)
    → (x ≡ true → x' ≡ true)
    → (y ≡ true → y' ≡ true)
    → (z ≡ true → z' ≡ true)
    → severity (graded x y z) ≤ severity (graded x' y' z')
worse x y z x' y' z' f g h = ground arith

below : (a b c : ℤ) → b ≤ℤ a → leb_ℤ a c ≡ true → leb_ℤ b c ≡ true
below a b c h k = ground arith

past : (e a b : ℤ) → a ≤ℤ b → leb_ℤ e a ≡ true → leb_ℤ e b ≡ true
past e a b h k = ground arith

twice_less : (a b : ℤ) → b ≤ℤ a → (b +ℤ b) ≤ℤ (a +ℤ a)
twice_less a b h = omega int_laws

less_remains : (e a b : ℤ) → a ≤ℤ b → (e -ℤ b) ≤ℤ (e -ℤ a)
less_remains e a b h = omega int_laws

-- The expiry status of a product never gets better as time passes.
pub expiry_worsens :
    (production expiry today later : ℤ) (a b : ExpiryStatus)
    → calculate_expiry_status (int production) (int expiry) (int today) ≡ ruled a
    → calculate_expiry_status (int production) (int expiry) (int later) ≡ ruled b
    → today ≤ℤ later
    → severity a ≤ severity b
unfolding calculate_expiry_status status_at
expiry_worsens production expiry today later a b h k earlier =
    elim (Bool-cases (leb_ℤ expiry production)) [
      | inl e ↦ cc (rw e at h)
      | inr e ↦
          let before : status_at production expiry today ≡ a = cc (rw e at h) in
          let after : status_at production expiry later ≡ b = cc (rw e at k) in
          let r = expiry -ℤ today in
          let r' = expiry -ℤ later in
          let life = expiry -ℤ production in
          let left = less_remains expiry today later earlier in
          let half = twice_less r r' left in
          let quarter = twice_less (r +ℤ r) (r' +ℤ r') half in
          rw (← before, ← after)
            (worse _ _ _ _ _ _ (past expiry today later earlier)
              (below ((r +ℤ r) +ℤ (r +ℤ r)) ((r' +ℤ r') +ℤ (r' +ℤ r')) life quarter)
              (below (r +ℤ r) (r' +ℤ r') life half))
    ]
