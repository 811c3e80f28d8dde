-- ===== src/Platform/Idempotency/AnyBody.antt =====
-- A command that is repeated with another body (executeIdempotentCommand of apps/api/src/platform/commands.ts): what it runs may
-- depend on more than its options, such as the roles of its caller.
use topology_supply_chain.Common.{◌≡◌, true, some, inl, inr, ◌⊎◌}
use topology_supply_chain.Platform.Tx.{ok, Tx}
use topology_supply_chain.Platform.Header.{Text}
use topology_supply_chain.Platform.Transaction.{Network}
use topology_supply_chain.Platform.Transaction.Atomic.{calm}
use topology_supply_chain.Platform.Journal.{Journal}
use topology_supply_chain.Platform.Idempotency.{
  Codec, Options, Response, command_id, execute, prepare,
}
use topology_supply_chain.Platform.Idempotency.Replay.{body-Committed, Committed-body}
use topology_supply_chain.Platform.Idempotency.AtMostOnce.{
  as_reply, start-ok, start-calm, retry_state,
}

module _ {S R : Type 0} (codec : Codec R) (o : Options S R)
    (round_trip : (r : R) → codec.parse (codec.stringify r) ≡ some r) where
  -- A command with the same options but another body finds the record of the first, and answers from it.
  replay_with :
      (run : Text → Text → Tx S R) (j j' : Journal S) (response : Response R)
      → execute codec o calm j ≡ (ok response, j')
      → execute codec (record o { run = run }) calm j' ≡ (ok (as_reply true response), j')
  unfolding execute prepare
  replay_with run j j' response h =
      let (p, body) = start-ok codec o (prepare codec o) calm j j' response h in
      let id = command_id codec o response.idempotency_key in
      let c =
        body-Committed codec o round_trip id response.request_digest response.reply j j' body in
      rw p (
        start-calm codec (record o { run = run }) response.idempotency_key response.request_digest
          j' j' _
          (Committed-body codec (record o { run = run }) round_trip id response.request_digest
            response.reply j' c))

  -- After an attempt on any network, the state is as it was, or the command's effect is there and the same command with any
  -- body answers with the result of the attempt.
  pub attempt_state :
      (run : Text → Text → Tx S R) (net : Network) (j j' : Journal S) (response : Response R)
      → execute codec o calm j ≡ (ok response, j')
      → ((execute codec o net j).1 ≡ j)
        ⊎ (((execute codec o net j).1 ≡ j')
            × (execute codec (record o { run = run }) calm j' ≡ (ok (as_reply true response), j')))
  attempt_state run net j j' response h =
      elim (retry_state codec o round_trip net j j' response h) [
        | inl same ↦ inl same
        | inr done ↦ inr (done, replay_with run j j' response h)
      ]
