-- ===== src/Finance/PaymentGuard.antt =====
-- The ledger of a payable and the checks before a payment, a refund or a correction
-- (apps/web/app/lib/payment-guard.ts). Amounts are integers in minor units; each one comes with the
-- guard that it is a safe integer, and an amount that is no integer is rejected like one out of range.
-- A sum or a difference past the safe range, which JavaScript rounds, is exact here.
pub mod Bounds
mod Tests
use topology_supply_chain.Common.{
  ℕ, Bool, true, false, not, ◌&&◌, ◌||◌, Option, none, some, List, [], ◌∷◌, ltb, is_some,
  if◌then◌else◌,
}
use topology_supply_chain.Common.Int.{
  ℤ, pos, pos_part, neg_part, ◌+ℤ◌, ◌-ℤ◌, ltb_ℤ, leb_ℤ, eq_ℤ, max_ℤ, is_safe_integer,
}

-- recordType, with every other text as `other`
pub data RecordType : Type 0 where
  payment refund correction reversal other : RecordType

-- PaymentLedgerRecord
pub record LedgerRecord : Type 0 where
  pub amount_minor : ℤ
  pub record_type : RecordType
  pub invoice_exception_id : Option ℤ

-- What the functions throw; the messages are shown to the user.
pub data GuardError : Type 0 where
  ledger_amount ledger_exception payment_with_exception refund_without_exception : GuardError
  ledger_type request_amount unsafe_ledger payment_amount : GuardError
  affected_amount covered_amount refunded_amount original_refund proposed_refund : GuardError

pub data Checked (A : Type 0) : Type 0 where
  ok : A → Checked A
  fail : GuardError → Checked A

is_reversal : RecordType → Bool
is_reversal reversal = true
is_reversal _ = false

-- The sign that the type asks for: a reversal is negative, all else is positive.
wrong_sign : LedgerRecord → Bool
unfolding is_reversal
wrong_sign r =
    if is_reversal r.record_type then leb_ℤ (pos 0) r.amount_minor else leb_ℤ r.amount_minor (pos 0)

invalid_id : Option ℤ → Bool
invalid_id none = false
invalid_id (some z) = not (is_safe_integer z) || leb_ℤ z (pos 0)

is_payable_type : RecordType → Option ℤ → Checked Bool
is_payable_type payment exception =
    if is_some exception then fail payment_with_exception else ok true
is_payable_type refund exception =
    if is_some exception then ok false else fail refund_without_exception
is_payable_type correction exception = ok (not (is_some exception))
is_payable_type reversal exception = ok (not (is_some exception))
is_payable_type other exception = fail ledger_type

-- isPayableLedgerRecord
unfoldable pub is_payable_ledger_record : LedgerRecord → Checked Bool
unfolding wrong_sign invalid_id is_payable_type
is_payable_ledger_record r =
    if not (is_safe_integer r.amount_minor) || wrong_sign r
    then fail ledger_amount
    else if invalid_id r.invoice_exception_id
    then fail ledger_exception
    else is_payable_type r.record_type r.invoice_exception_id

-- The loop of evaluatePayableLedger: the net amount paid, and the guard after every addition.
unfoldable pub net_paid : ℤ → List LedgerRecord → Checked ℤ
unfolding is_payable_ledger_record
net_paid net [] = ok net
net_paid net (r ∷ rs) = elim (is_payable_ledger_record r) [
  | fail e ↦ fail e
  | ok false ↦ net_paid net rs
  | ok true ↦
      let rest = net_paid (net +ℤ r.amount_minor) rs in
      if is_safe_integer (net +ℤ r.amount_minor) then rest else fail unsafe_ledger
]

pub record Ledger : Type 0 where
  pub net_paid_amount_minor : ℤ
  pub remaining_amount_minor : ℤ
  pub within_bounds : Bool

unfoldable pub evaluated : ℤ → Checked ℤ → Checked Ledger
evaluated total (fail e) = fail e
evaluated total (ok net) = ok (record {
  net_paid_amount_minor = net;
  remaining_amount_minor = max_ℤ (pos 0) (total -ℤ net);
  within_bounds = leb_ℤ (pos 0) net && leb_ℤ net total;
})

-- evaluatePayableLedger
unfoldable pub evaluate_payable_ledger : ℤ → List LedgerRecord → Checked Ledger
unfolding evaluated net_paid
evaluate_payable_ledger total records =
    if not (is_safe_integer total) || ltb_ℤ total (pos 0)
    then fail request_amount
    else evaluated total (net_paid (pos 0) records)

pub record Capacity : Type 0 where
  pub paid_amount_minor : ℤ
  pub total_paid_amount_minor : ℤ
  pub remaining_amount_minor : ℤ
  pub would_exceed : Bool
  pub ledger_within_bounds : Bool

unfoldable pub with_payment : ℤ → ℤ → Checked Ledger → Checked Capacity
with_payment total incoming (fail e) = fail e
with_payment total incoming (ok ledger) =
    let paid = ledger.net_paid_amount_minor +ℤ incoming in
    if not (is_safe_integer paid)
    then fail unsafe_ledger
    else ok (record {
      paid_amount_minor = ledger.net_paid_amount_minor;
      total_paid_amount_minor = paid;
      remaining_amount_minor = max_ℤ (pos 0) (total -ℤ paid);
      would_exceed = ltb_ℤ total paid;
      ledger_within_bounds = ledger.within_bounds;
    })

-- evaluatePaymentCapacity
unfoldable pub evaluate_payment_capacity : ℤ → List LedgerRecord → ℤ → Checked Capacity
unfolding with_payment evaluate_payable_ledger
evaluate_payment_capacity total records incoming =
    if not (is_safe_integer incoming) || leb_ℤ incoming (pos 0)
    then fail payment_amount
    else with_payment total incoming (evaluate_payable_ledger total records)

-- assertMoney, before what follows it
assert_money : {A : Type 0} → ℤ → GuardError → Checked A → Checked A
assert_money z e next = if is_safe_integer z && leb_ℤ (pos 0) z then next else fail e

pub record Remediation : Type 0 where
  pub remediated_amount_minor : ℤ
  pub remaining_amount_minor : ℤ
  pub within_bounds : Bool
  pub resolved : Bool

unfoldable pub remediate : (affected covered refunded : ℤ) → Remediation
remediate affected covered refunded =
    let remediated = covered +ℤ refunded in
    let within = is_safe_integer remediated && leb_ℤ remediated affected in
    record {
      remediated_amount_minor = remediated;
      remaining_amount_minor = if within then affected -ℤ remediated else pos 0;
      within_bounds = within;
      resolved = within && eq_ℤ remediated affected;
    }

-- evaluateExceptionRemediation
unfoldable pub evaluate_exception_remediation :
    (affected covered refunded : ℤ) → Checked Remediation
unfolding assert_money remediate
evaluate_exception_remediation affected covered refunded = assert_money affected affected_amount (
    assert_money covered covered_amount
      (assert_money refunded refunded_amount (ok (remediate affected covered refunded))))

-- The corrected refund; `remediated` is NaN where the corrected amount is out of range.
pub record Correction : Type 0 where
  pub corrected_refund_amount_minor : ℤ
  pub remediated_amount_minor : Option ℤ
  pub within_bounds : Bool
  pub resolved : Bool

unfoldable pub corrected_by : ℤ → Checked Remediation → Checked Correction
corrected_by corrected (fail e) = fail e
corrected_by corrected (ok r) = ok (record {
  corrected_refund_amount_minor = corrected;
  remediated_amount_minor = some r.remediated_amount_minor;
  within_bounds = r.within_bounds;
  resolved = r.resolved;
})

-- evaluateRefundCorrection
unfoldable pub evaluate_refund_correction :
    (affected covered refunded original proposed : ℤ) → Checked Correction
unfolding assert_money corrected_by evaluate_exception_remediation
evaluate_refund_correction affected covered refunded original proposed =
    let corrected = (refunded -ℤ original) +ℤ proposed in
    assert_money affected affected_amount (
      assert_money covered covered_amount (
        assert_money refunded refunded_amount (
          assert_money original original_refund (
            assert_money proposed proposed_refund (
              if leb_ℤ (pos 0) corrected && is_safe_integer corrected
              then corrected_by corrected
                  (evaluate_exception_remediation affected covered corrected)
              else ok (record {
                corrected_refund_amount_minor = corrected;
                remediated_amount_minor = none;
                within_bounds = false;
                resolved = false;
              }))))))
