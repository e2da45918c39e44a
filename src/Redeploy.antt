-- ===== src/Redeploy.antt =====
-- internal/controller/utils.go: redeployAllShards, which the Reconcile of configmap_controller.go
-- calls. The read lock is held while the active shards are listed, and not while they are deployed.
pub mod Active
pub mod Synced
pub mod Race
pub mod Serving
use shard_controller.Prelude.{
  Bool, ◌&&◌, not, String, Option, none, some, List, [], ◌∷◌, string_eq, nat_eq, ◌==◌,
  if◌then◌else◌, Dict,
}
use shard_controller.Errors.{Action, return_nil, ◌then_do◌}
use shard_controller.Reference.{RefSet}
use shard_controller.Shards.{Shards}
use shard_controller.Tracker.{State, in_world}

-- `for shardKey, clusters := range shardMap`; the entries come in any order, which is an argument. No
-- entry of the map holds a nil set.
module _ {S : Type 0} ⦃sets : RefSet S⦄ where
  unfoldable pub active_shards : Dict String S → List String
  active_shards [] = []
  active_shards ((key, clusters) ∷ entries) =
      let rest = active_shards entries in
      if not (key == "") && not (sets.len clusters == 0) then key ∷ rest else rest

module _ {W : Type 0} (ctl : Shards W) where
  -- the second loop, which ends at the first error
  unfoldable pub deploy_each : List String → Action W
  deploy_each [] = return_nil
  deploy_each (key ∷ keys) = ctl.deploy key then_do deploy_each keys

-- `entries` is the order in which `range` yields the entries of `shardMap`.
unfoldable pub redeploy_all_shards :
    {S W : Type 0} ⦃sets : RefSet S⦄ → Shards W → Dict String S → Action (State S W)
redeploy_all_shards ctl entries = in_world (deploy_each ctl (active_shards entries))
