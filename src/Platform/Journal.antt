-- ===== src/Platform/Journal.antt =====
-- The tables of idempotent commands: writer_fences and command_idempotency, with the statements that
-- apps/api/src/platform/commands.ts runs on them. The times of creation and expiry are written and
-- never read, and are left out.
use topology_supply_chain.Common.{
  ℕ, ◌+◌, Bool, true, false, ◌&&◌, Option, none, some, List, [], ◌∷◌, ◌==◌, if◌then◌else◌,
}
use topology_supply_chain.Platform.Header.{Text, text_eq}

-- A row of writer_fences.
pub record Fence : Type 0 where
  pub resource : Text
  pub owner : Text
  pub enabled : Bool
  pub generation : ℕ

pub data CommandStatus : Type 0 where
  pending completed unknown : CommandStatus

-- The unique index of command_idempotency.
pub record CommandId : Type 0 where
  pub command_name : Text
  pub actor_scope : Text
  pub idempotency_key : Text

-- A row of command_idempotency.
pub record CommandRow : Type 0 where
  pub id : CommandId
  pub request_digest : Text
  pub status : CommandStatus
  pub response_status : Option ℕ
  pub response_json : Option Text

pub record Journal (S : Type 0) : Type 0 where
  pub fences : List Fence
  pub commands : List CommandRow
  pub business : S

abbrev pub writer_fence_generation : ℕ
writer_fence_generation = 2

unfoldable pub same_id : CommandId → CommandId → Bool
same_id a b =
    text_eq a.command_name b.command_name
    && (text_eq a.actor_scope b.actor_scope && text_eq a.idempotency_key b.idempotency_key)

-- SELECT … WHERE command_name = ? AND actor_scope = ? AND idempotency_key = ? LIMIT 1
unfoldable pub find_command : CommandId → List CommandRow → Option CommandRow
find_command id [] = none
find_command id (row ∷ rows) = if same_id row.id id then some row else find_command id rows

unfoldable pub is_pending : CommandStatus → Bool
is_pending pending = true
is_pending _ = false

-- The WHERE clause of the UPDATE that completes a command.
unfoldable pub completes : CommandId → Text → CommandRow → Bool
unfolding is_pending
completes id digest row =
    same_id row.id id && (text_eq row.request_digest digest && is_pending row.status)

-- UPDATE command_idempotency SET status = 'completed', …: the rows, and the number affected.
unfoldable pub complete_command :
    CommandId → (digest : Text) → ℕ → Text → List CommandRow → List CommandRow × ℕ
complete_command id digest status json [] = ([], 0)
complete_command id digest status json (row ∷ rows) =
    let (rest, affected) = complete_command id digest status json rows in
    if completes id digest row
    then (
      record row { status = completed; response_status = some status; response_json = some json }
          ∷ rest,
      affected + 1,
    )
    else (row ∷ rest, affected)

-- requireWriterFence
abbrev find_fence : Text → List Fence → Option Fence
find_fence resource [] = none
find_fence resource (f ∷ fs) =
    if text_eq f.resource resource then some f else find_fence resource fs

abbrev is_active : Text → Option Fence → Bool
is_active owner none = false
is_active owner (some f) =
    text_eq f.owner owner && (f.generation == writer_fence_generation && f.enabled)

-- The writer owner 'fastify-v1'.
abbrev pub writer_owner : Text
writer_owner = b'f' ∷ b'a' ∷ b's' ∷ b't' ∷ b'i' ∷ b'f' ∷ b'y' ∷ b'-' ∷ b'v' ∷ b'1' ∷ []

unfoldable pub fence_open : Text → List Fence → Bool
fence_open resource fences = is_active writer_owner (find_fence resource fences)
