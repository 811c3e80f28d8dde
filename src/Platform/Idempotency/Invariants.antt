-- ===== src/Platform/Idempotency/Invariants.antt =====
-- Invariants of the business state under idempotent commands (executeIdempotentCommand of apps/api/src/platform/commands.ts).
use topology_supply_chain.Common.{ℕ, ◌≡◌, refl, sym, inl, inr, arith}
use mathlib.Core.Path.{subst}
use topology_supply_chain.Platform.Tx.{Outcome, ok, fail, Tx}
use topology_supply_chain.Platform.Keeps.{Keeps, keeps_rules}
use topology_supply_chain.Platform.Header.{Text}
use topology_supply_chain.Platform.Journal.{Journal, CommandRow, CommandId}
use topology_supply_chain.Platform.Transaction.{Network, transaction}
use topology_supply_chain.Platform.Transaction.Atomic.{Atomic, transaction-Atomic}
use topology_supply_chain.Platform.Idempotency.{
  Codec, Options, Reply, insert_ignore, replay, run_business, mark_completed, run_first,
  command_body, command_id, answer, in_transaction, start, prepare, execute,
}

module _ {S : Type 0} (P : S → Type 0) where
  abbrev pub OnBusiness : Journal S → Type 0
  OnBusiness j = P j.business

  insert_ignore-Keeps :
      (id : CommandId) (digest : Text) → Keeps OnBusiness (insert_ignore id digest)
  unfolding insert_ignore
  insert_ignore-Keeps id digest = record {
    at = λ j n j' p h. let same : j.business ≡ j'.business = ground arith in subst P same p;
  }

  -- A transaction that keeps the invariant keeps it on every network.
  transaction-Keeps :
      {A : Type 0} (net : Network) (body : Tx (Journal S) A) (j : Journal S)
      → Keeps OnBusiness body
      → OnBusiness j
      → OnBusiness (transaction net body j).1
  transaction-Keeps {A} net body j keeps p =
      go (transaction net body j) (transaction-Atomic net body j)
    where
      go : (r : Outcome A × Journal S) → Atomic body j r → OnBusiness r.1
      go (ok a, t) h = keeps.at j a t p h
      go (fail e, t) (inl same) = subst OnBusiness (sym same) p
      go (fail e, t) (inr (lost, (a, h))) = keeps.at j a t p h

  answer_same :
      {R : Type 0} (key digest : Text) (r : Outcome (Reply R) × Journal S)
      → (answer key digest r).1 ≡ r.1
  unfolding answer
  answer_same key digest (ok reply, j) = refl
  answer_same key digest (fail e, j) = refl

  module _ {R : Type 0} (codec : Codec R) (o : Options S R)
      (keeps : (key digest : Text) → Keeps P (o.run key digest)) where
    run_business-Keeps : (key digest : Text) → Keeps OnBusiness (run_business codec o key digest)
    unfolding run_business
    run_business-Keeps key digest = record {
      at = λ j r j' p h. go j (o.run key digest j.business) refl r j' p h;
    }
      where
        go :
            (j : Journal S) (x : Outcome (R × S))
            → o.run key digest j.business ≡ x
            → (r : R) (j' : Journal S) → OnBusiness j
            → run_business codec o key digest j ≡ ok (r, j')
            → OnBusiness j'
        go j (fail e) k r j' p h = cc (rw (run_business, k) at h)
        go j (ok (x, s)) k r j' p h =
            let after : Journal S = record j { business = s } in
            let returned = rw (run_business, k) at h in
            let same : after ≡ j' = cc in
            subst OnBusiness same ((keeps key digest).at j.business x s p k)

    mark_completed-Keeps :
        (id : CommandId) (digest : Text) (status : ℕ) (r : R)
        → Keeps OnBusiness (mark_completed codec o id digest status r)
    unfolding mark_completed
    mark_completed-Keeps id digest status r = record {
      at = λ j n j' p h. let same : j.business ≡ j'.business = ground arith in subst P same p;
    }

    replay-Keeps : (row : CommandRow) → Keeps OnBusiness (replay codec o row)
    unfolding replay
    replay-Keeps row = record {
      at = λ j n j' p h. let same : j ≡ j' = ground arith in subst OnBusiness same p;
    }

    run_first-Keeps :
        (id : CommandId) (digest : Text) → Keeps OnBusiness (run_first codec o id digest)
    unfolding run_first
    run_first-Keeps id digest =
        search (keeps_rules, run_business-Keeps, mark_completed-Keeps) depth 14

    command_body-Keeps :
        (id : CommandId) (digest : Text) → Keeps OnBusiness (command_body codec o id digest)
    unfolding command_body
    command_body-Keeps id digest =
        search (keeps_rules, insert_ignore-Keeps, replay-Keeps, run_first-Keeps) depth 16

    -- The business state after a command, on any network and whatever the client is told.
    pub execute-Keeps :
        (net : Network) (j : Journal S) → OnBusiness j → OnBusiness (execute codec o net j).1
    unfolding execute start in_transaction
    execute-Keeps net j p = go (prepare codec o)
      where
        go : (r : Outcome (Text × Text)) → OnBusiness (start codec o r net j).1
        go (fail e) = p
        go (ok (key, digest)) =
            subst OnBusiness
              (sym (
                answer_same key digest
                  (transaction net (command_body codec o (command_id codec o key) digest) j)))
              (transaction-Keeps net (command_body codec o (command_id codec o key) digest) j
                (command_body-Keeps (command_id codec o key) digest) p)
