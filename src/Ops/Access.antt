-- ===== src/Ops/Access.antt =====
-- The caller of a command and the checks of its roles (AccessContext of apps/api/src/modules/auth,
-- hasRole, requireRole and internal of apps/api/src/platform/operations-support.ts).
use topology_supply_chain.Common.{
  ℕ, String, str_eq, Bool, false, not, ◌||◌, Option, none, some, List, [], ◌∷◌, any, ◌==◌,
}
use topology_supply_chain.Platform.Failure.{forbid}
use topology_supply_chain.Platform.Tx.{Tx, throw_if}

-- AccessContext, without the names that only the answers show
pub record AccessContext : Type 0 where
  pub user_id : ℕ
  pub roles : List String
  pub factory_id : Option ℕ
  pub supplier_id : Option ℕ

-- What a command's body is given: the caller, the values of randomUUID, and the day (CURRENT_DATE).
pub record Command : Type 0 where
  pub access : AccessContext
  pub random_uuid : ℕ → String
  pub today : ℕ

abbrev includes : List String → String → Bool
includes roles role = any (λ r. str_eq r role) roles

-- hasRole
unfoldable pub has_role : AccessContext → List String → Bool
has_role access roles = any (includes roles) access.roles

-- requireRole
abbrev pub require_role : {S : Type 0} → AccessContext → List String → Tx S (Unit {0})
require_role access roles = throw_if (not (has_role access roles)) (forbid "Forbidden scope")

-- internal
unfoldable pub internal : AccessContext → Bool
unfolding has_role
internal access = has_role access ("admin" ∷ "supply_chain" ∷ "finance" ∷ "company_qc" ∷ [])

-- Whether an optional id is the given one (`id !== null && id === n`).
abbrev pub is_id : Option ℕ → ℕ → Bool
is_id none n = false
is_id (some m) n = m == n

-- The factory test that the handlers share: an internal caller, or one bound to the factory.
unfoldable pub bound_to_factory : AccessContext → ℕ → Bool
bound_to_factory access factory_id = internal access || is_id access.factory_id factory_id
