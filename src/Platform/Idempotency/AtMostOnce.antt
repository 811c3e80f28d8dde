-- ===== src/Platform/Idempotency/AtMostOnce.antt =====
-- What a client may rely on when it repeats a command with the same key.
use topology_supply_chain.Common.{◌≡◌, refl, Bool, true, false, some, arith, inl, inr, ◌⊎◌}
use topology_supply_chain.Platform.Failure.{Failure, platform_error, idempotency_key_reused}
use topology_supply_chain.Platform.Tx.{Outcome, ok, fail, Tx}
use topology_supply_chain.Platform.Header.{Text, text_eq}
use topology_supply_chain.Platform.Transaction.{Network}
use topology_supply_chain.Platform.Transaction.Atomic.{
  Atomic, transaction-Atomic, transaction-calm, transaction-calm-fail, calm,
}
use topology_supply_chain.Platform.Journal.{
  Journal, CommandId, CommandRow, fence_open, find_command,
}
use topology_supply_chain.Platform.Idempotency.{
  Codec, Options, Reply, Response, command_body, command_id, in_transaction, execute, answer,
  prepare, start, report,
}
use topology_supply_chain.Platform.Idempotency.Replay.{body-Committed, Committed-body}

abbrev pub reused : Failure
reused = platform_error 409 idempotency_key_reused "Idempotency key was used for another request"

abbrev pub as_reply : {R : Type 0} → Bool → Response R → Response R
as_reply replayed response = record response {
  reply = record response.reply { replayed = replayed };
}

module _ {S R : Type 0} (callback : Tx (Journal S) (Reply R)) (j : Journal S)
    (key digest : Text) where
  answer-state :
      (r : Outcome (Reply R) × Journal S)
      → Atomic callback j r
      → ((answer key digest r).1 ≡ j)
        ⊎ ((a : Reply R) × (callback j ≡ ok (a, (answer key digest r).1)))
  unfolding answer
  answer-state (ok a, t) h = inr (a, h)
  answer-state (fail e, t) (inl h) = inl h
  answer-state (fail e, t) (inr h) = inr h.1

  answer-ok :
      (r : Outcome (Reply R) × Journal S) (j' : Journal S) (response : Response R)
      → Atomic callback j r
      → answer key digest r ≡ (ok response, j')
      → (callback j ≡ ok (response.reply, j'))
        × (response.idempotency_key ≡ key)
        × (response.request_digest ≡ digest)
  unfolding answer
  answer-ok (ok a, t) j' response h e = ground arith
  answer-ok (fail a, t) j' response h e = ground arith

module _ {S R : Type 0} (codec : Codec R) (o : Options S R) where
  -- What an attempt may have done: the effect of the whole body and no other.
  in_transaction-state :
      (net : Network) (key digest : Text) (j : Journal S)
      → ((in_transaction codec o net key digest j).1 ≡ j)
        ⊎ ((r : Reply R) × (command_body codec o (command_id codec o key) digest j
              ≡ ok (r, (in_transaction codec o net key digest j).1)))
  unfolding in_transaction
  in_transaction-state net key digest j =
      answer-state (command_body codec o (command_id codec o key) digest) j key digest _
        (transaction-Atomic net (command_body codec o (command_id codec o key) digest) j)

  in_transaction-ok :
      (net : Network) (key digest : Text) (j j' : Journal S) (response : Response R)
      → in_transaction codec o net key digest j ≡ (ok response, j')
      → (command_body codec o (command_id codec o key) digest j ≡ ok (response.reply, j'))
        × (response.idempotency_key ≡ key)
        × (response.request_digest ≡ digest)
  unfolding in_transaction
  in_transaction-ok net key digest j j' response h =
      answer-ok (command_body codec o (command_id codec o key) digest) j key digest _ j' response
        (transaction-Atomic net (command_body codec o (command_id codec o key) digest) j) h

  in_transaction-calm :
      (key digest : Text) (j j' : Journal S) (r : Reply R)
      → command_body codec o (command_id codec o key) digest j ≡ ok (r, j')
      → in_transaction codec o calm key digest j
        ≡ (ok (record { idempotency_key = key; request_digest = digest; reply = r }), j')
  unfolding in_transaction answer
  in_transaction-calm key digest j j' r h =
      rw (transaction-calm (command_body codec o (command_id codec o key) digest) h)

  pub start-state :
      (p : Outcome (Text × Text)) (net : Network) (j : Journal S)
      → ((start codec o p net j).1 ≡ j)
        ⊎ ((key digest : Text) × (r : Reply R) × (p ≡ ok (key, digest))
            × (command_body codec o (command_id codec o key) digest j
                ≡ ok (r, (start codec o p net j).1)))
  unfolding start
  start-state (fail e) net j = inl refl
  start-state (ok (key, digest)) net j = elim (in_transaction-state net key digest j) [
    | inl same ↦ inl same
    | inr (r, h) ↦ inr (key, digest, r, refl, h)
  ]

  pub start-ok :
      (p : Outcome (Text × Text)) (net : Network) (j j' : Journal S) (response : Response R)
      → start codec o p net j ≡ (ok response, j')
      → (p ≡ ok (response.idempotency_key, response.request_digest))
        × (command_body codec o
              (command_id codec o response.idempotency_key)
              response.request_digest
              j
            ≡ ok (response.reply, j'))
  unfolding start
  start-ok (fail e) net j j' response h = cc
  start-ok (ok (key, digest)) net j j' response h =
      let (body, same_key, same_digest) = in_transaction-ok net key digest j j' response h in
      (cc, rw (same_key, same_digest) body)

  -- A command that fails leaves the state as it was, or has an unknown outcome and took effect.
  pub start-calm :
      (key digest : Text) (j j' : Journal S) (r : Reply R)
      → command_body codec o (command_id codec o key) digest j ≡ ok (r, j')
      → start codec o (ok (key, digest)) calm j
        ≡ (ok (record { idempotency_key = key; request_digest = digest; reply = r }), j')
  unfolding start
  start-calm = in_transaction-calm

  body-refused :
      (key digest : Text) (j : Journal S) (row : CommandRow)
      → fence_open o.fence_resource j.fences ≡ true
      → find_command (command_id codec o key) j.commands ≡ some row
      → text_eq row.request_digest digest ≡ false
      → command_body codec o (command_id codec o key) digest j ≡ fail reused
  unfolding command_body
  body-refused key digest j row f e d = ground arith

  start-refused :
      (key digest : Text) (j : Journal S) (row : CommandRow)
      → fence_open o.fence_resource j.fences ≡ true
      → find_command (command_id codec o key) j.commands ≡ some row
      → text_eq row.request_digest digest ≡ false
      → start codec o (ok (key, digest)) calm j ≡ (fail reused, j)
  unfolding start in_transaction answer report
  start-refused key digest j row f e d = rw (
      transaction-calm-fail (command_body codec o (command_id codec o key) digest)
        (body-refused key digest j row f e d))

module _ {S R : Type 0} (codec : Codec R) (o : Options S R)
    (round_trip : (r : R) → codec.parse (codec.stringify r) ≡ some r) where
  replayed_body :
      (id : CommandId) (digest : Text) (r : Reply R) (j j' : Journal S)
      → command_body codec o id digest j ≡ ok (r, j')
      → command_body codec o id digest j' ≡ ok (record r { replayed = true }, j')
  replayed_body id digest r j j' h =
      Committed-body codec o round_trip id digest r j'
        (body-Committed codec o round_trip id digest r j j' h)

  -- A command that was answered once is not run again. For a codec that reads back what it writes: where
  -- `execute` returned a response, on any network, the same command on a calm network returns the same
  -- result and status from the record of the first run, marked as replayed, and changes nothing.
  pub execute_again :
      (net : Network) (j j' : Journal S) (response : Response R)
      → execute codec o net j ≡ (ok response, j')
      → execute codec o calm j' ≡ (ok (as_reply true response), j')
  unfolding execute
  execute_again net j j' response h =
      let (p, body) = start-ok codec o (prepare codec o) net j j' response h in
      rw p (
        start-calm codec o _ _ j' j' _ (
          replayed_body (command_id codec o response.idempotency_key) response.request_digest
            response.reply j j' body))

  -- After an attempt on any network, the state is as it was or that of the single calm run.
  pub retry_state :
      (net : Network) (j j' : Journal S) (response : Response R)
      → execute codec o calm j ≡ (ok response, j')
      → ((execute codec o net j).1 ≡ j) ⊎ ((execute codec o net j).1 ≡ j')
  unfolding execute
  retry_state net j j' response h = elim (start-state codec o (prepare codec o) net j) [
    | inl same ↦ inl same
    | inr (key, digest, r, p, body) ↦
        let (p', body') = start-ok codec o (prepare codec o) calm j j' response h in inr cc
  ]

  -- A retry after a lost answer does the work at most once. For a codec that reads back what it writes:
  -- where a command would succeed on a calm network, an attempt on any network followed by one on a calm
  -- network ends in exactly the state of the single calm run, with its result and status.
  pub retry_after_loss :
      (net : Network) (j j' : Journal S) (response : Response R)
      → execute codec o calm j ≡ (ok response, j')
      → (replayed : Bool) × (execute codec o calm (execute codec o net j).1
          ≡ (ok (as_reply replayed response), j'))
  retry_after_loss net j j' response h = elim (retry_state net j j' response h) [
    | inl same ↦ (response.reply.replayed, rw (same, h))
    | inr done ↦ (true, rw done (execute_again calm j j' response h))
  ]

  -- A key serves one request. For a codec that reads back what it writes: after a command was answered,
  -- a command of the same name, actor and fence with the same key and another digest is refused with
  -- IDEMPOTENCY_KEY_REUSED and changes nothing.
  pub key_reuse_refused :
      (o' : Options S R) (net : Network) (j j' : Journal S) (response : Response R) (digest' : Text)
      → execute codec o net j ≡ (ok response, j')
      → prepare codec o' ≡ ok (response.idempotency_key, digest')
      → o'.command ≡ o.command
      → o'.actor_scope ≡ o.actor_scope
      → o'.fence_resource ≡ o.fence_resource
      → text_eq response.request_digest digest' ≡ false
      → execute codec o' calm j' ≡ (fail reused, j')
  unfolding execute
  key_reuse_refused o' net j j' response digest' h p' same_command same_scope same_fence other =
      let (p, body) = start-ok codec o (prepare codec o) net j j' response h in
      let c =
        body-Committed codec o round_trip (command_id codec o response.idempotency_key)
          response.request_digest response.reply j j' body in
      rw p' (
        start-refused codec o' response.idempotency_key digest' j' c.row
          (rw same_fence c.open_fence) (rw (same_command, same_scope) c.found)
          (rw c.same_digest other))
