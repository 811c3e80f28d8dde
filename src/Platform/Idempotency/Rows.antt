-- ===== src/Platform/Idempotency/Rows.antt =====
-- What the statements on command_idempotency do to the row of one command.
use topology_supply_chain.Common.{ℕ, ◌≡◌, refl, true, some, List, [], ◌∷◌, arith}
use topology_supply_chain.Platform.Header.{Text, text_eq}
use topology_supply_chain.Platform.Journal.{
  CommandId, CommandRow, completed, same_id, find_command, completes, complete_command,
}

pub text_eq_refl : (t : Text) → text_eq t t ≡ true
text_eq_refl [] = refl
text_eq_refl (c ∷ cs) = ground (arith, text_eq_refl cs)

pub text_eq→eq : (s t : Text) → text_eq s t ≡ true → s ≡ t
text_eq→eq [] [] h = refl
text_eq→eq [] (d ∷ ds) h = cc
text_eq→eq (c ∷ cs) [] h = cc
text_eq→eq (c ∷ cs) (d ∷ ds) h = ground (arith, text_eq→eq cs ds)

pub same_id_refl : (id : CommandId) → same_id id id ≡ true
unfolding same_id
same_id_refl id =
    rw (text_eq_refl id.command_name, text_eq_refl id.actor_scope, text_eq_refl id.idempotency_key)

-- After the completion of a new, pending row that row is found, completed.
pub find_command-complete_command :
    (id : CommandId) (digest : Text) (status : ℕ) (json : Text) (row : CommandRow)
    (rows : List CommandRow)
    → completes id digest row ≡ true
    → find_command id (complete_command id digest status json (row ∷ rows)).0
      ≡ some (record row {
        status = completed;
        response_status = some status;
        response_json = some json;
      })
unfolding find_command complete_command completes
find_command-complete_command id digest status json row rows h = ground arith
