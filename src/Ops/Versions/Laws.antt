-- ===== src/Ops/Versions/Laws.antt =====
-- A version that is locked can be bumped, and a stale one cannot.
use topology_supply_chain.Common.{ℕ, ◌+◌, String, ◌≡◌, some, List, [], ◌∷◌, arith}
use topology_supply_chain.Platform.Failure.{stale}
use topology_supply_chain.Platform.Tx.{ok, fail}
use topology_supply_chain.Ops.Store.{Db, Version}
use topology_supply_chain.Ops.Versions.{find_version, raise_version, lock_version, bump_version}

find_version-raise_version :
    (type : String) (id : ℕ) (vs : List Version) {v : ℕ}
    → find_version type id vs ≡ some v
    → find_version type id (raise_version type id vs) ≡ some (v + 1)
unfolding find_version raise_version
find_version-raise_version type id [] h = cc
find_version-raise_version type id (w ∷ vs) {v} h =
    ground (arith, find_version-raise_version type id vs {v = v})

-- A version that `lock_version` returned can be bumped: `bump_version` succeeds in the state after the
-- lock, returns the next version and leaves it as the version of the resource.
pub bump-lock :
    (type : String) (id : ℕ) (db db' : Db) (version : ℕ)
    → lock_version type id db ≡ ok (version, db')
    → (db'' : Db) × (bump_version type id version db' ≡ ok (version + 1, db''))
      × (find_version type id db''.versions ≡ some (version + 1))
unfolding lock_version bump_version
bump-lock type id db db' version h = (
  record db' { versions = raise_version type id db'.versions },
  ground arith,
  ground (arith, find_version-raise_version type id db'.versions {v = version}),
)

-- A version is used once: after `bump_version` succeeded, bumping the same version again is refused as
-- stale.
pub bump_stale :
    (type : String) (id : ℕ) (version n : ℕ) (db db' : Db)
    → bump_version type id version db ≡ ok (n, db')
    → bump_version type id version db' ≡ fail (stale "Resource version changed")
unfolding bump_version
bump_stale type id version n db db' h =
    ground (arith, find_version-raise_version type id db.versions {v = version})

-- Locking and bumping write no other table.
pub lock_version-frame :
    (type : String) (id : ℕ) (db db' : Db) (version : ℕ)
    → lock_version type id db ≡ ok (version, db')
    → db' ≡ record db { versions = db'.versions }
unfolding lock_version
lock_version-frame type id db db' version h = ground arith

pub bump_version-frame :
    (type : String) (id v : ℕ) (db db' : Db) (version : ℕ)
    → bump_version type id v db ≡ ok (version, db')
    → db' ≡ record db { versions = db'.versions }
unfolding bump_version
bump_version-frame type id v db db' version h = ground arith
