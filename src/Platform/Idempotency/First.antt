-- ===== src/Platform/Idempotency/First.antt =====
-- What the first execution of a command does, and what keeps it from running.
use topology_supply_chain.Common.{
  ℕ, ◌≡◌, refl, true, false, none, some, List, [], ◌∷◌, arith, inl, inr, ◌≢◌,
}
use topology_supply_chain.Platform.Tx.{ok}
use topology_supply_chain.Platform.Header.{Text}
use topology_supply_chain.Platform.Transaction.{Network}
use topology_supply_chain.Platform.Transaction.Atomic.{calm}
use topology_supply_chain.Platform.Journal.{
  Journal, CommandId, CommandRow, fence_open, find_command, completed, completes, complete_command,
}
use topology_supply_chain.Platform.Idempotency.{
  Codec, Options, Reply, Response, command_body, command_id, execute, prepare, start, new_row,
  run_first, resolved_response_status,
}
use topology_supply_chain.Platform.Idempotency.Rows.{text_eq_refl}
use topology_supply_chain.Platform.Idempotency.Replay.{new_row-completes, find_command-new_row}
use topology_supply_chain.Platform.Idempotency.AtMostOnce.{start-state, start-ok, start-calm}

-- No row of another command is completed.
complete_command-absent :
    (id : CommandId) (digest : Text) (status : ℕ) (json : Text) (rows : List CommandRow)
    → find_command id rows ≡ none
    → complete_command id digest status json rows ≡ (rows, 0)
unfolding find_command complete_command completes
complete_command-absent id digest status json [] h = refl
complete_command-absent id digest status json (row ∷ rows) h =
    ground (arith, complete_command-absent id digest status json rows)

-- The row that a completed command leaves.
abbrev pub completed_row : CommandId → Text → ℕ → Text → CommandRow
completed_row id digest status json = record (new_row id digest) {
  status = completed;
  response_status = some status;
  response_json = some json;
}

complete_command-new :
    (id : CommandId) (digest : Text) (status : ℕ) (json : Text) (rows : List CommandRow)
    → find_command id rows ≡ none
    → complete_command id digest status json (new_row id digest ∷ rows)
      ≡ (completed_row id digest status json ∷ rows, 1)
unfolding complete_command
complete_command-new id digest status json rows h =
    rw (new_row-completes id digest)
      (rw (complete_command-absent id digest status json rows h) refl)

module _ {S R : Type 0} (codec : Codec R) (o : Options S R) where
  first_body :
      (id : CommandId) (digest : Text) (j : Journal S) (result : R) (s : S) (status : ℕ)
      → fence_open o.fence_resource j.fences ≡ true
      → find_command id j.commands ≡ none
      → o.run id.idempotency_key digest j.business ≡ ok (result, s)
      → resolved_response_status o.response_status result o.validate_response_status ≡ ok status
      → command_body codec o id digest j
        ≡ ok (
          record { replayed = false; result = result; status_code = status },
          record j {
            commands = completed_row id digest status (codec.stringify result) ∷ j.commands;
            business = s;
          },
        )
  unfolding command_body run_first
  first_body id digest j result s status f absent ran valid = ground (
    arith,
    find_command-new_row id digest j.commands,
    text_eq_refl digest,
    complete_command-new id digest status (codec.stringify result) j.commands,
  )

  -- The first execution. On a calm network, where the request is prepared, the writer's fence is open, no
  -- row has the command's id, the business code succeeds and its status is valid, `execute` returns that
  -- result, makes the business state durable and records the command as completed.
  pub execute_first :
      (key digest : Text) (j : Journal S) (result : R) (s : S) (status : ℕ)
      → prepare codec o ≡ ok (key, digest)
      → fence_open o.fence_resource j.fences ≡ true
      → find_command (command_id codec o key) j.commands ≡ none
      → o.run key digest j.business ≡ ok (result, s)
      → resolved_response_status o.response_status result o.validate_response_status ≡ ok status
      → execute codec o calm j ≡ (
        ok (record {
          idempotency_key = key;
          request_digest = digest;
          reply = record { replayed = false; result = result; status_code = status };
        }),
        record j {
          commands =
              completed_row (command_id codec o key) digest status (codec.stringify result)
              ∷ j.commands;
          business = s;
        },
      )
  unfolding execute
  execute_first key digest j result s status p f absent ran valid = rw p (
      start-calm codec o key digest j _ _
        (first_body (command_id codec o key) digest j result s status f absent ran valid))

  closed_body :
      (id : CommandId) (digest : Text) (j j' : Journal S) (r : Reply R)
      → fence_open o.fence_resource j.fences ≡ false
      → command_body codec o id digest j ≢ ok (r, j')
  unfolding command_body
  closed_body id digest j j' r f = ground arith

  -- Where the writer's fence is not open, `execute` changes nothing and returns no response, on any network.
  pub execute_closed :
      (net : Network) (j : Journal S)
      → fence_open o.fence_resource j.fences ≡ false
      → ((execute codec o net j).1 ≡ j)
        × ((response : Response R) → (execute codec o net j).0 ≢ ok response)
  unfolding execute
  execute_closed net j f = (
    elim (start-state codec o (prepare codec o) net j) [
      | inl same ↦ same
      | inr (key, digest, r, p, body) ↦ absurd (closed_body _ digest j _ r f body)
    ],
    λ response h.
        let (p, body) =
          start-ok codec o (prepare codec o) net j (start codec o (prepare codec o) net j).1
            response (cc) in
        closed_body _ _ j _ _ f body,
  )
