-- ===== src/Worker/Fence.antt =====
-- The fences of the worker's resources (requireFence and requireWorkerFenceIdentities of
-- apps/worker/src/server.ts).
use topology_supply_chain.Common.{
  String, str_eq, Bool, false, ◌&&◌, Option, none, some, List, [], ◌∷◌, ◌==◌, if◌then◌else◌,
}
use topology_supply_chain.Worker.Job.{fence_paused, unexpected, Job, lift, Result, done, raise}
use topology_supply_chain.Worker.Rows.{Fence, Db}

-- SELECT … WHERE resource = ? LIMIT 1: the resource is the primary key.
unfoldable pub fence_of : String → List Fence → Option Fence
fence_of resource [] = none
fence_of resource (f ∷ fs) = if str_eq f.resource resource then some f else fence_of resource fs

-- The row names this worker and this generation.
abbrev is_ours : Fence → Bool
is_ours f = str_eq f.owner "worker-v1" && f.generation == 2

unfoldable pub is_open : Option Fence → Bool
is_open none = false
is_open (some f) = is_ours f && f.enabled == 1

-- requireFence, which reads the fences only
unfoldable pub check_fence : String → List Fence → Result (Unit {0})
unfolding is_open fence_of
check_fence resource fences =
    if is_open (fence_of resource fences) then done tt else raise fence_paused

-- requireFence inside a transaction
unfoldable pub require_fence : String → Job Db (Unit {0})
unfolding check_fence
require_fence resource db = lift (check_fence resource db.fences) db

unfoldable pub is_identified : Option Fence → Bool
is_identified none = false
is_identified (some f) = is_ours f

abbrev identified : String → List Fence → Result (Unit {0}) → Result (Unit {0})
identified resource fences rest =
    if is_identified (fence_of resource fences) then rest else raise unexpected

-- requireWorkerFenceIdentities
unfoldable pub require_worker_fence_identities : List Fence → Result (Unit {0})
unfolding is_identified fence_of
require_worker_fence_identities fences =
    identified "outbox.worker" fences
      (identified "reminders.worker" fences (identified "files.worker" fences (done tt)))
