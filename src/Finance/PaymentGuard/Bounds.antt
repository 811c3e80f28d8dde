-- ===== src/Finance/PaymentGuard/Bounds.antt =====
-- What an accepted ledger, payment or correction guarantees.
use topology_supply_chain.Common.{
  ◌≡◌, ◌∙◌, refl, Bool, true, false, none, some, List, [], ◌∷◌, arith, ◌&&◌, ◌||◌, not, ◌++◌,
  Bool-cases, ◌⊎◌, inl, inr, if◌then◌else◌,
}
use topology_supply_chain.Common.Int.{
  ℤ, pos, ◌+ℤ◌, ◌-ℤ◌, ◌≤ℤ◌, leb_ℤ, max_ℤ, int_laws, +ℤ_parts, zero_+ℤ, is_safe_integer,
}
use mathlib.Core.Path.{subst}
use topology_supply_chain.Finance.PaymentGuard.{
  LedgerRecord, payment, correction, reversal, Checked, GuardError, ok, fail, Ledger, Capacity,
  Correction, is_payable_ledger_record, net_paid, evaluate_payable_ledger,
  evaluate_payment_capacity, evaluate_exception_remediation, evaluate_refund_correction, evaluated,
  with_payment, remediate, corrected_by,
}

-- The amount that a record contributes to what was paid: payments, and the corrections and reversals
-- that belong to no invoice exception.
abbrev pub contribution : LedgerRecord → ℤ
contribution r = elim r.record_type [
  | payment ↦ r.amount_minor
  | correction ↦ elim r.invoice_exception_id [ none ↦ r.amount_minor | some z ↦ pos 0 ]
  | reversal ↦ elim r.invoice_exception_id [ none ↦ r.amount_minor | some z ↦ pos 0 ]
  | _ ↦ pos 0
]

abbrev pub total_contribution : List LedgerRecord → ℤ
total_contribution [] = pos 0
total_contribution (r ∷ rs) = contribution r +ℤ total_contribution rs

payable-contribution :
    (r : LedgerRecord) (b : Bool)
    → is_payable_ledger_record r ≡ ok b
    → contribution r ≡ (if b then r.amount_minor else pos 0)
unfolding is_payable_ledger_record
payable-contribution r b h = ground arith

pub +ℤ_assoc : (a b c : ℤ) → (a +ℤ b) +ℤ c ≡ a +ℤ (b +ℤ c)
+ℤ_assoc a b c = omega int_laws

-- One record of the loop, whose rest has been dealt with.
net_paid-cons :
    (net paid : ℤ) (r : LedgerRecord) (rs : List LedgerRecord)
    → ((n : ℤ) → net_paid n rs ≡ ok paid → paid ≡ n +ℤ total_contribution rs)
    → (p : Checked Bool) → is_payable_ledger_record r ≡ p
    → net_paid net (r ∷ rs) ≡ ok paid
    → paid ≡ net +ℤ (contribution r +ℤ total_contribution rs)
unfolding net_paid
net_paid-cons net paid r rs ih (fail e) p h = ground arith
net_paid-cons net paid r rs ih (ok false) p h =
    let k : net_paid net rs ≡ ok paid = ground arith in
    rw (payable-contribution r false p) (rw zero_+ℤ (ih net k))
net_paid-cons net paid r rs ih (ok true) p h =
    let k : net_paid (net +ℤ r.amount_minor) rs ≡ ok paid = ground arith in
    rw (payable-contribution r true p) (rw (← +ℤ_assoc) (ih (net +ℤ r.amount_minor) k))

net_paid-contribution :
    (net paid : ℤ) (rs : List LedgerRecord)
    → net_paid net rs ≡ ok paid
    → paid ≡ net +ℤ total_contribution rs
unfolding net_paid
net_paid-contribution net paid [] h = let same : net ≡ paid = cc in rw (← same) (omega int_laws)
net_paid-contribution net paid (r ∷ rs) h =
    net_paid-cons net paid r rs (λ n k. net_paid-contribution n paid rs k)
      (is_payable_ledger_record r) refl h

pub Checked-cases :
    {A : Type 0} → (c : Checked A) → ((e : GuardError) × (c ≡ fail e)) ⊎ ((a : A) × (c ≡ ok a))
Checked-cases (ok a) = inr (a, refl)
Checked-cases (fail e) = inl (e, refl)

within_remaining :
    (total net : ℤ)
    → leb_ℤ (pos 0) net && leb_ℤ net total ≡ true
    → net +ℤ max_ℤ (pos 0) (total -ℤ net) ≡ total
within_remaining total net w = elim (Bool-cases (leb_ℤ (pos 0) (total -ℤ net))) [
  | inl e ↦ rw e (omega int_laws)
  | inr e ↦ grind int_laws
]

evaluated-bounds :
    (sum total net : ℤ) (ledger : Ledger)
    → net ≡ sum
    → evaluated total (ok net) ≡ ok ledger
    → (ledger.net_paid_amount_minor ≡ sum)
      × (ledger.within_bounds ≡ true
          → (pos 0 ≤ℤ ledger.net_paid_amount_minor)
            × (ledger.net_paid_amount_minor +ℤ ledger.remaining_amount_minor ≡ total))
unfolding evaluated
evaluated-bounds sum total net ledger same h =
    let made : record {
      net_paid_amount_minor = net;
      remaining_amount_minor = max_ℤ (pos 0) (total -ℤ net);
      within_bounds = leb_ℤ (pos 0) net && leb_ℤ net total;
    }
        ≡ ledger =
      cc in
    subst
      (λ l.
        (l.net_paid_amount_minor ≡ sum)
        × (l.within_bounds ≡ true
            → (pos 0 ≤ℤ l.net_paid_amount_minor)
              × (l.net_paid_amount_minor +ℤ l.remaining_amount_minor ≡ total)))
      made (same, λ w. (ground arith, within_remaining total net w))

-- A payable whose ledger is accepted has paid the sum of what its records contribute. Where the ledger is
-- within its bounds, that sum is not negative, and together with the amount that remains it is the total.
pub ledger_is_sum :
    (total : ℤ) (records : List LedgerRecord) (ledger : Ledger)
    → evaluate_payable_ledger total records ≡ ok ledger
    → (ledger.net_paid_amount_minor ≡ total_contribution records)
      × (ledger.within_bounds ≡ true
          → (pos 0 ≤ℤ ledger.net_paid_amount_minor)
            × (ledger.net_paid_amount_minor +ℤ ledger.remaining_amount_minor ≡ total))
unfolding evaluate_payable_ledger evaluated
ledger_is_sum total records ledger h = elim (Checked-cases (net_paid (pos 0) records)) [
  | inl (g, k) ↦ ground arith
  | inr (net, k) ↦
      let whole : net ≡ total_contribution records =
        simp zero_+ℤ at (net_paid-contribution (pos 0) net records k) in
      let made : evaluated total (ok net) ≡ ok ledger = ground arith in
      evaluated-bounds (total_contribution records) total net ledger whole made
]

-- One record of the loop, for the lemma below.
net_paid-append_cons :
    (net paid : ℤ) (x r : LedgerRecord) (rs : List LedgerRecord)
    → ((n : ℤ) → net_paid n rs ≡ ok paid → net_paid n (rs ++ r ∷ []) ≡ net_paid paid (r ∷ []))
    → (p : Checked Bool) → is_payable_ledger_record x ≡ p
    → net_paid net (x ∷ rs) ≡ ok paid
    → net_paid net (x ∷ rs ++ r ∷ []) ≡ net_paid paid (r ∷ [])
unfolding net_paid
net_paid-append_cons net paid x r rs ih (fail e) p h = ground arith
net_paid-append_cons net paid x r rs ih (ok false) p h =
    let k : net_paid net rs ≡ ok paid = ground arith in rw (net_paid, p) (ih net k)
net_paid-append_cons net paid x r rs ih (ok true) p h =
    elim (Bool-cases (is_safe_integer (net +ℤ x.amount_minor))) [
      | inl e ↦
          let k : net_paid (net +ℤ x.amount_minor) rs ≡ ok paid = ground arith in
          rw (net_paid, p, e) (ih (net +ℤ x.amount_minor) k)
      | inr e ↦ ground arith
    ]

net_paid-append :
    (net paid : ℤ) (rs : List LedgerRecord) (r : LedgerRecord)
    → net_paid net rs ≡ ok paid
    → net_paid net (rs ++ r ∷ []) ≡ net_paid paid (r ∷ [])
unfolding net_paid
net_paid-append net paid [] r h = let same : net ≡ paid = cc in rw same refl
net_paid-append net paid (x ∷ rs) r h =
    net_paid-append_cons net paid x r rs (λ n k. net_paid-append n paid rs r k)
      (is_payable_ledger_record x) refl h

-- The record of a payment, which belongs to no exception.
abbrev pub payment_of : ℤ → LedgerRecord
payment_of amount = record {
  amount_minor = amount;
  record_type = payment;
  invoice_exception_id = none;
}

payment_of-is_payable :
    (amount : ℤ)
    → not (is_safe_integer amount) || leb_ℤ amount (pos 0) ≡ false
    → is_payable_ledger_record (payment_of amount) ≡ ok true
unfolding is_payable_ledger_record
payment_of-is_payable amount h = ground arith

-- A payment that the capacity check lets through (it does not exceed the total, and the ledger before it
-- was within its bounds) leaves, once it is recorded, a ledger that is accepted, within its bounds and
-- with the total that the check announced.
pub payment_keeps_bounds :
    (total incoming : ℤ) (records : List LedgerRecord) (capacity : Capacity)
    → evaluate_payment_capacity total records incoming ≡ ok capacity
    → capacity.would_exceed ≡ false
    → capacity.ledger_within_bounds ≡ true
    → (ledger : Ledger) × (evaluate_payable_ledger total (records ++ payment_of incoming ∷ [])
        ≡ ok ledger)
      × (ledger.within_bounds ≡ true)
      × (ledger.net_paid_amount_minor ≡ capacity.total_paid_amount_minor)
unfolding evaluate_payment_capacity evaluate_payable_ledger with_payment evaluated
payment_keeps_bounds total incoming records capacity h fits within =
    elim (Checked-cases (net_paid (pos 0) records)) [
      | inl (g, k) ↦ ground arith
      | inr (net, k) ↦
          let step : net_paid net (payment_of incoming ∷ []) ≡ ok (net +ℤ incoming) =
            ground arith in
          let appended : net_paid (pos 0) (records ++ payment_of incoming ∷ [])
              ≡ ok (net +ℤ incoming) =
            net_paid-append (pos 0) net records (payment_of incoming) k ∙ step in
          (
            record {
              net_paid_amount_minor = net +ℤ incoming;
              remaining_amount_minor = max_ℤ (pos 0) (total -ℤ (net +ℤ incoming));
              within_bounds = leb_ℤ (pos 0) (net +ℤ incoming) && leb_ℤ (net +ℤ incoming) total;
            },
            ground arith,
            ground (arith, +ℤ_parts net incoming),
            ground arith,
          )
    ]

-- A refund correction that resolves its exception makes the replacement cover and the corrected refunds
-- together exactly the affected amount, with corrected refunds that are not negative.
pub correction_resolves :
    (affected covered refunded original proposed : ℤ) (c : Correction)
    → evaluate_refund_correction affected covered refunded original proposed ≡ ok c
    → c.resolved ≡ true
    → (covered +ℤ c.corrected_refund_amount_minor ≡ affected)
      × (c.corrected_refund_amount_minor ≡ (refunded -ℤ original) +ℤ proposed)
      × (pos 0 ≤ℤ c.corrected_refund_amount_minor)
      × (c.remediated_amount_minor ≡ some affected)
unfolding evaluate_refund_correction evaluate_exception_remediation remediate corrected_by
correction_resolves affected covered refunded original proposed c h r = grind int_laws
