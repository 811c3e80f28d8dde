-- ===== src/Platform/Commands/Laws.antt =====
-- Who a command belongs to, and retries of an operation.
use topology_supply_chain.Common.{ℕ, ◌≡◌, true, some, arith, ap, sym, ◌∙◌, ◌⊎◌}
use topology_supply_chain.Platform.Tx.{ok}
use topology_supply_chain.Platform.Header.{Text}
use topology_supply_chain.Platform.Transaction.{Network}
use topology_supply_chain.Platform.Transaction.Atomic.{calm}
use topology_supply_chain.Platform.Journal.{Journal}
use topology_supply_chain.Platform.Idempotency.{Codec, Response}
use topology_supply_chain.Platform.Idempotency.AtMostOnce.{as_reply}
use topology_supply_chain.Platform.Idempotency.AnyBody.{attempt_state}
use topology_supply_chain.Platform.Commands.{
  Session, RequestChecks, actor_scope, request_scope, run_as, execute_operations_command, Operation,
  as_options, access_of,
}

same_scope :
    (decimal : ℕ → Text) (s t : Session) {a b : Text}
    → actor_scope decimal s ≡ ok a
    → actor_scope decimal t ≡ ok b
    → s.user_id ≡ t.user_id
    → a ≡ b
unfolding actor_scope
same_scope decimal s t {a} {b} h k same = ground arith

-- The scope of a request is its session's.
scope_of :
    (decimal : ℕ → Text) (checks : RequestChecks) (s : Session) (a : Text)
    → request_scope decimal checks ≡ ok (a, s)
    → actor_scope decimal s ≡ ok a
unfolding request_scope
scope_of decimal checks s a h = ground arith

-- An operation whose answer is lost and that is repeated in another session of the same user runs once, whatever the roles of the two
-- sessions are. For a codec that reads back what it writes, and requests that pass their checks: where the operation would succeed in the
-- first session on a calm network, an attempt in it on any network leaves the state as it was, or brings about exactly the state of the
-- calm run. In the second case, the same operation in the other session, on a calm network, answers with the result and the status of
-- the calm run, marked as replayed, and changes nothing.
pub retry_in_new_session :
    {S R : Type 0} (decimal : ℕ → Text) (codec : Codec R) (o : Operation S R)
    (first second : RequestChecks) (s t : Session) (a b : Text) (net : Network) (j j' : Journal S)
    (response : Response R)
    → ((r : R) → codec.parse (codec.stringify r) ≡ some r)
    → request_scope decimal first ≡ ok (a, s)
    → request_scope decimal second ≡ ok (b, t)
    → s.user_id ≡ t.user_id
    → execute_operations_command decimal codec first o calm j ≡ (ok response, j')
    → ((execute_operations_command decimal codec first o net j).1 ≡ j)
      ⊎ (((execute_operations_command decimal codec first o net j).1 ≡ j')
          × (execute_operations_command decimal codec second o calm j'
              ≡ (ok (as_reply true response), j')))
unfolding execute_operations_command run_as as_options
retry_in_new_session decimal codec o first second s t a b net j j' response round_trip p q user h =
    let same : a ≡ b =
      same_scope decimal s t (scope_of decimal first s a p) (scope_of decimal second t b q) user in
    let again : request_scope decimal second ≡ ok (a, t) = q ∙ ap (λ x. ok (x, t)) (sym same) in
    rw (p, again)
      (attempt_state codec (as_options o a s) round_trip (λ key digest. o.run (access_of t)) net j
        j' response (rw p at h))
