-- ===== src/Finance/PaymentGuard/Tests.antt =====
-- The theorems on payments at a small ledger.
use topology_supply_chain.Common.{◌≡◌, refl, Bool, true, none, some, List, [], ◌∷◌, ◌++◌}
use topology_supply_chain.Common.Int.{pos, negsuc, ◌+ℤ◌, ◌-ℤ◌, ◌≤ℤ◌, is_safe_integer}
use topology_supply_chain.Finance.PaymentGuard.{
  LedgerRecord, RecordType, Ledger, Capacity, Correction, ok, evaluate_payable_ledger,
  evaluate_payment_capacity, evaluate_refund_correction,
}
use topology_supply_chain.Finance.PaymentGuard.Bounds.{
  payment_of, total_contribution, ledger_is_sum, payment_keeps_bounds, correction_resolves,
}

-- A payment of 60, a reversal of 20, a refund of 5 and a correction of 10.
abbrev records : List LedgerRecord
records =
    payment_of (pos 60)
    ∷ record {
      amount_minor = negsuc 19;
      record_type = RecordType.reversal;
      invoice_exception_id = none;
    }
    ∷ record {
      amount_minor = pos 5;
      record_type = RecordType.refund;
      invoice_exception_id = some (pos 3);
    }
    ∷ record {
      amount_minor = pos 10;
      record_type = RecordType.correction;
      invoice_exception_id = none;
    }
    ∷ []

abbrev ledger : Ledger
ledger = record {
  net_paid_amount_minor = pos 50;
  remaining_amount_minor = pos 50;
  within_bounds = true;
}

ledger_is_sum_example :
    (pos 50 ≡ total_contribution records)
    × (true ≡ true → (pos 0 ≤ℤ pos 50) × (pos 50 +ℤ pos 50 ≡ pos 100))
unfolding evaluate_payable_ledger is_safe_integer ◌+ℤ◌ ◌-ℤ◌
ledger_is_sum_example = ledger_is_sum (pos 100) records ledger refl

abbrev capacity : Capacity
capacity = record {
  paid_amount_minor = pos 50;
  total_paid_amount_minor = pos 90;
  remaining_amount_minor = pos 10;
  would_exceed = Bool.false;
  ledger_within_bounds = true;
}

payment_keeps_bounds_example :
    (l : Ledger) × (evaluate_payable_ledger (pos 100) (records ++ payment_of (pos 40) ∷ []) ≡ ok l)
    × (l.within_bounds ≡ true)
    × (l.net_paid_amount_minor ≡ pos 90)
unfolding evaluate_payment_capacity is_safe_integer ◌+ℤ◌ ◌-ℤ◌
payment_keeps_bounds_example =
    payment_keeps_bounds (pos 100) (pos 40) records capacity refl refl refl

abbrev corrected : Correction
corrected = record {
  corrected_refund_amount_minor = pos 30;
  remediated_amount_minor = some (pos 80);
  within_bounds = true;
  resolved = true;
}

correction_resolves_example :
    (pos 50 +ℤ pos 30 ≡ pos 80)
    × (pos 30 ≡ (pos 20 -ℤ pos 15) +ℤ pos 25)
    × (pos 0 ≤ℤ pos 30)
    × (some (pos 80) ≡ some (pos 80))
unfolding evaluate_refund_correction is_safe_integer ◌+ℤ◌ ◌-ℤ◌
correction_resolves_example =
    correction_resolves (pos 80) (pos 50) (pos 20) (pos 15) (pos 25) corrected refl refl
