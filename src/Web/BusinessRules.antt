-- ===== src/Web/BusinessRules.antt =====
-- The rules for reservations and expiry (calculateReservation and calculateExpiryStatus of
-- apps/web/app/lib/business-rules.ts). A date is given by what Date.parse makes of its text: milliseconds, or no number.
pub mod Agreement
pub mod Expiry
mod Tests
use topology_supply_chain.Common.{Bool, true, false, ◌||◌, if◌then◌else◌}
use topology_supply_chain.Common.Int.{ℤ, pos, ◌+ℤ◌, ◌-ℤ◌, ltb_ℤ, leb_ℤ, min_ℤ}
use topology_supply_chain.Ops.Values.{JsNumber, int, other_number}
use topology_supply_chain.Ops.Store.{ExpiryStatus, normal, yellow, red, expired_frozen}

-- What a rule returns, or that it throws.
pub data Ruling (A : Type 0) : Type 0 where
  ruled : A → Ruling A
  invalid : Ruling A

-- The object that calculateReservation returns.
pub record Split : Type 0 where
  pub reserved_quantity : ℤ
  pub shortage_quantity : ℤ
  pub can_reserve_in_full : Bool

split : ℤ → ℤ → Split
split available requested = record {
  reserved_quantity = min_ℤ available requested;
  shortage_quantity = requested -ℤ min_ℤ available requested;
  can_reserve_in_full = leb_ℤ requested available;
}

-- calculateReservation
unfoldable pub calculate_reservation : (available requested : JsNumber) → Ruling Split
unfolding split
calculate_reservation (int available) (int requested) =
    if ltb_ℤ available (pos 0) || leb_ℤ requested (pos 0)
    then invalid
    else ruled (split available requested)
calculate_reservation _ _ = invalid

-- The status of a product that is alive between two dates. A division by 2 or 4 is exact, and is written as a
-- multiplication of the other side.
unfoldable pub status_at : (production expiry today : ℤ) → ExpiryStatus
status_at production expiry today =
    let total_life = expiry -ℤ production in
    let remaining = expiry -ℤ today in
    let twice = remaining +ℤ remaining in
    if leb_ℤ expiry today
    then expired_frozen
    else if leb_ℤ (twice +ℤ twice) total_life
    then red
    else if leb_ℤ twice total_life
    then yellow
    else normal

-- calculateExpiryStatus
unfoldable pub calculate_expiry_status : (production expiry today : JsNumber) → Ruling ExpiryStatus
unfolding status_at
calculate_expiry_status (int production) (int expiry) (int today) =
    if leb_ℤ expiry production then invalid else ruled (status_at production expiry today)
calculate_expiry_status _ _ _ = invalid
