-- ===== src/Worker/Life/Delay.antt =====
-- When a message that was put back is due again (pause and fail of apps/worker/src/server.ts).
use topology_supply_chain.Common.{
  ℕ, suc, ◌+◌, ◌*◌, ◌/◌, ◌%◌, ◌≤◌, ◌<◌, ◌≡◌, refl, arith, ltb, min, Bool-cases, inl, inr,
  if◌then◌else◌,
}
use mathlib.Core.Path.{subst}
use Prim.Native.Nat.{zero, ◌-◌, ◌^◌}
use Prim.Native.Nat.pow
use topology_supply_chain.Worker.Rows.{Message, is_due}
use topology_supply_chain.Worker.Lease.{delay_seconds, paused}

pow_grows : (n d : ℕ) → 2 ^ n ≤ 2 ^ (n + d)
pow_grows n zero = let e : n + 0 ≡ n = omega arith in rw e (omega arith)
pow_grows n (suc d) =
    let e : n + suc d ≡ suc (n + d) = omega arith in
    rw e (omega (arith, pow_grows n d, pow.suc 2 (n + d)))

delay_small : (attempts : ℕ) → attempts < 10 → delay_seconds attempts ≡ (2 ^ attempts) * 5
unfolding delay_seconds
delay_small attempts h =
    let uncapped : min attempts 10 ≡ attempts = omega arith in
    let split : attempts + (9 - attempts) ≡ 9 = omega arith in
    let below : 2 ^ attempts ≤ 512 =
      subst (λ k. 2 ^ attempts ≤ 2 ^ k) split (pow_grows attempts (9 - attempts)) in
    rw uncapped (omega arith)

-- The delay after a failed attempt is 5 seconds times 2 to the power of the attempts made up to the ninth attempt, and an hour from the
-- tenth on.
pub delay_doubles :
    (attempts : ℕ) → delay_seconds attempts ≡ (if ltb attempts 10 then (2 ^ attempts) * 5 else 3600)
unfolding delay_seconds
delay_doubles attempts = elim (Bool-cases (ltb attempts 10)) [
  | inl h ↦ rw h (delay_small attempts (ground arith))
  | inr h ↦ let capped : min attempts 10 ≡ 10 = ground arith in rw (h, capped) refl
]

-- A message is paused when the server's session clock, which is `offset` ahead of UTC, shows `now + offset`. At each time of the UTC date of
-- `now`, it is due if and only if a second after the pause the session clock has not reached the next date: within the date, the
-- second has no effect, and past the date's end it takes the rest of the UTC date.
pub pause_delay :
    (m : Message) (now offset later : ℕ)
    → later / 86400000 ≡ now / 86400000
    → is_due (paused (now + offset) m).available_at later
      ≡ ltb (now % 86400000 + offset + 1000) 86400000
unfolding paused is_due
pause_delay m now offset later same = ground arith
