-- ===== src/Ops/Versions/Tests.antt =====
-- The theorems on versions at a resource that is new.
use topology_supply_chain.Common.{ℕ, ◌≡◌, refl, some, [], ◌∷◌}
use topology_supply_chain.Platform.Failure.{stale}
use topology_supply_chain.Platform.Tx.{ok, fail}
use topology_supply_chain.Ops.Store.{Db}
use topology_supply_chain.Ops.Samples.{empty}
use topology_supply_chain.Ops.Versions.{lock_version, bump_version, find_version}
use topology_supply_chain.Ops.Versions.Laws.{bump-lock, bump_stale}

-- After the transfer 4 was locked, and after it was bumped.
abbrev at_version : ℕ → Db
at_version n = record empty {
  versions = record { resource_type = "inventory_transfer"; resource_id = 4; version = n } ∷ [];
}

bump-lock_example :
    (db : Db) × (bump_version "inventory_transfer" 4 1 (at_version 1) ≡ ok (2, db))
    × (find_version "inventory_transfer" 4 db.versions ≡ some 2)
unfolding lock_version
bump-lock_example = bump-lock "inventory_transfer" 4 empty (at_version 1) 1 refl

bump_stale_example :
    bump_version "inventory_transfer" 4 1 (at_version 2) ≡ fail (stale "Resource version changed")
unfolding bump_version
bump_stale_example = bump_stale "inventory_transfer" 4 1 2 (at_version 1) (at_version 2) refl
