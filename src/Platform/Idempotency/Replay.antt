-- ===== src/Platform/Idempotency/Replay.antt =====
-- A command that has returned once is replayed ever after: the stored result comes back, and the
-- command does not run again.
use topology_supply_chain.Common.{◌≡◌, refl, true, some, List, ◌∷◌, arith, Option-cases, inl, inr}
use topology_supply_chain.Platform.Tx.{ok}
use topology_supply_chain.Platform.Header.{Text}
use topology_supply_chain.Platform.Journal.{
  Journal, CommandId, CommandRow, completed, find_command, fence_open, completes,
}
use topology_supply_chain.Platform.Idempotency.{
  Codec, Options, Reply, command_body, run_first, new_row, parse_replay,
}
use topology_supply_chain.Platform.Idempotency.Rows.{
  text_eq_refl, text_eq→eq, same_id_refl, find_command-complete_command,
}

-- The journal holds the completed row of a command, with the result that a reply carries.
pub record Committed {S R : Type 0} (codec : Codec R) (fence : Text) (id : CommandId)
    (digest : Text) (reply : Reply R) (j : Journal S) : Type 0 where
  pub row : CommandRow
  pub open_fence : fence_open fence j.fences ≡ true
  pub found : find_command id j.commands ≡ some row
  pub same_digest : row.request_digest ≡ digest
  pub done : row.status ≡ completed
  pub stored_status : row.response_status ≡ some reply.status_code
  pub parsed : parse_replay codec row ≡ ok reply.result

pub new_row-completes :
    (id : CommandId) (digest : Text) → completes id digest (new_row id digest) ≡ true
unfolding completes
new_row-completes id digest = rw (same_id_refl, text_eq_refl)

pub find_command-new_row :
    (id : CommandId) (digest : Text) (rows : List CommandRow)
    → find_command id (new_row id digest ∷ rows) ≡ some (new_row id digest)
unfolding find_command
find_command-new_row id digest rows = rw same_id_refl

module _ {S R : Type 0} (codec : Codec R) (o : Options S R)
    (round_trip : (r : R) → codec.parse (codec.stringify r) ≡ some r) where
  run_first-Committed :
      (id : CommandId) (digest : Text) (reply : Reply R) (j j' : Journal S)
      → fence_open o.fence_resource j.fences ≡ true
      → run_first codec o id digest (record j { commands = new_row id digest ∷ j.commands })
        ≡ ok (reply, j')
      → Committed codec o.fence_resource id digest reply j'
  unfolding run_first parse_replay
  run_first-Committed id digest reply j j' f h = record {
    row = record (new_row id digest) {
      status = completed;
      response_status = some reply.status_code;
      response_json = some (codec.stringify reply.result);
    };
    open_fence = ground arith;
    found = ground (
      arith,
      find_command-complete_command id digest reply.status_code (codec.stringify reply.result)
          (new_row id digest) j.commands (new_row-completes id digest),
    );
    same_digest = refl;
    done = refl;
    stored_status = refl;
    parsed = ground (arith, round_trip reply.result);
  }

  pub body-Committed :
      (id : CommandId) (digest : Text) (reply : Reply R) (j j' : Journal S)
      → command_body codec o id digest j ≡ ok (reply, j')
      → Committed codec o.fence_resource id digest reply j'
  unfolding command_body
  body-Committed id digest reply j j' h = elim (Option-cases (find_command id j.commands)) [
    | inl e ↦
        run_first-Committed id digest reply j j' (ground arith)
          (ground (arith, find_command-new_row id digest j.commands, text_eq_refl digest))
    | inr (row, e) ↦ record {
      row = row;
      open_fence = ground arith;
      found = ground arith;
      same_digest = ground (arith, text_eq→eq row.request_digest digest);
      done = ground arith;
      stored_status = unfold parse_replay in ground arith;
      parsed = ground arith;
    }
  ]

  pub Committed-body :
      (id : CommandId) (digest : Text) (reply : Reply R) (j : Journal S)
      → Committed codec o.fence_resource id digest reply j
      → command_body codec o id digest j ≡ ok (record reply { replayed = true }, j)
  unfolding command_body
  Committed-body id digest reply j c = ground (arith, text_eq_refl digest)
