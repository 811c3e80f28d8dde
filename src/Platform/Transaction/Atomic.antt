-- ===== src/Platform/Transaction/Atomic.antt =====
-- A transaction is atomic, and its error tells whether its effect is known.
use topology_supply_chain.Common.{◌≡◌, refl, ◌⊎◌, inl, inr, true, false, arith, if◌then◌else◌}
use topology_supply_chain.Platform.Failure.{
  PlatformError, platform, database, transaction_outcome_unknown,
}
use topology_supply_chain.Platform.Tx.{Outcome, ok, fail, Tx}
use topology_supply_chain.Platform.Transaction.{
  Race, Network, CommitRace, acknowledged, lost, settle, transaction,
}

-- What a caller may conclude: a result means that the callback's writes are durable; an error other
-- than the unknown outcome means that nothing changed; an unknown outcome is one of the two.
abbrev pub Atomic : {S A : Type 0} → Tx S A → S → Outcome A × S → Type 0
Atomic callback s (ok a, t) = callback s ≡ ok (a, t)
Atomic {A = A} callback s (fail e, t) =
    ((t ≡ s) ⊎ ((e ≡ database transaction_outcome_unknown) × ((a : A) × (callback s ≡ ok (a, t)))))

module _ {S A : Type 0} (net : Network) (callback : Tx S A) (s : S) where
  settle-Atomic :
      (o : Outcome (A × S)) → callback s ≡ o → Atomic callback s (settle net callback s o)
  unfolding settle
  settle-Atomic (ok (a, s')) h = go net.committing
    where
      go :
          (c : CommitRace)
          → Atomic callback s (elim c [
            | acknowledged ↦ (ok a, s')
            | lost applied ↦
                (fail (database transaction_outcome_unknown), if applied then s' else s)
          ])
      go acknowledged = h
      go (lost true) = inr (refl, (a, h))
      go (lost false) = inl refl
  settle-Atomic (fail e) h = ground arith

  -- Where a transaction returns a result, the callback returned it and its writes are durable. Where it throws, the state is as it was, or
  -- the error is the unknown outcome and the writes of the callback, which returned, are durable.
  pub transaction-Atomic : Atomic callback s (transaction net callback s)
  unfolding transaction
  transaction-Atomic = ground (arith, settle-Atomic (callback s) refl)

-- A network on which every operation succeeds in time.
abbrev pub calm : Network
calm = record {
  closed = false;
  connecting = Race.finished;
  beginning = Race.finished;
  running = Race.finished;
  committing = acknowledged;
  rolling_back = Race.finished;
}

-- On such a network the transaction is its callback.
pub transaction-calm :
    {S A : Type 0} (callback : Tx S A) {s s' : S} {a : A}
    → callback s ≡ ok (a, s')
    → transaction calm callback s ≡ (ok a, s')
unfolding transaction settle
transaction-calm callback h = ground arith

pub transaction-calm-fail :
    {S A : Type 0} (callback : Tx S A) {s : S} {e : PlatformError}
    → callback s ≡ fail (platform e)
    → transaction calm callback s ≡ (fail (platform e), s)
unfolding transaction settle
transaction-calm-fail callback h = ground arith
