-- ===== src/Ops/Versions.antt =====
-- Resource versions (lockVersion and bumpVersion of apps/api/src/platform/operations-support.ts): a
-- counter for each resource, created at 1 and raised by each change.
pub mod Laws
mod Tests
use topology_supply_chain.Common.{
  ℕ, ◌+◌, String, str_eq, Bool, ◌&&◌, Option, none, some, List, [], ◌∷◌, ltb, ◌==◌, if◌then◌else◌,
}
use topology_supply_chain.Platform.Failure.{stale}
use topology_supply_chain.Platform.Tx.{
  Tx, pure, throw, gets, modify, throw_if, ok, fail, ◌>>=◌, ◌>>◌,
}
use topology_supply_chain.Ops.Store.{Db, Version}

is_version : String → ℕ → Version → Bool
is_version type id v = str_eq v.resource_type type && v.resource_id == id

-- SELECT version … WHERE resource_type = ? AND resource_id = ? LIMIT 1
unfoldable pub find_version : String → ℕ → List Version → Option ℕ
unfolding is_version
find_version type id [] = none
find_version type id (v ∷ vs) =
    if is_version type id v then some v.version else find_version type id vs

-- INSERT IGNORE … VALUES (?, ?, 1): the unique index is on the type and the id.
insert_version : String → ℕ → List Version → List Version
unfolding find_version
insert_version type id vs = elim (find_version type id vs) [
  | some v ↦ vs
  | none ↦ record { resource_type = type; resource_id = id; version = 1 } ∷ vs
]

-- UPDATE … SET version = version + 1 WHERE resource_type = ? AND resource_id = ?
raise_version : String → ℕ → List Version → List Version
unfolding is_version
raise_version type id [] = []
raise_version type id (v ∷ vs) =
    if is_version type id v
    then record v { version = v.version + 1 } ∷ vs
    else v ∷ raise_version type id vs

positive_version : Option ℕ → Tx Db ℕ
positive_version none = throw (stale "Resource version unavailable")
positive_version (some v) = if ltb v 1 then throw (stale "Resource version unavailable") else pure v

-- lockVersion
unfoldable pub lock_version : String → ℕ → Tx Db ℕ
unfolding insert_version positive_version
lock_version type id = do
  modify (λ db. record db { versions = insert_version type id db.versions })
  found ← gets (λ db. find_version type id db.versions)
  positive_version found

abbrev has_version : ℕ → Option ℕ → Bool
has_version version none = Bool.false
has_version version (some v) = v == version

-- bumpVersion
unfoldable pub bump_version : String → ℕ → ℕ → Tx Db ℕ
unfolding find_version raise_version
bump_version type id version db =
    if has_version version (find_version type id db.versions)
    then ok (version + 1, record db { versions = raise_version type id db.versions })
    else fail (stale "Resource version changed")
