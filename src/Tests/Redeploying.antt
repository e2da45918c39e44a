-- ===== src/Tests/Redeploying.antt =====
-- The theorems on redeployAllShards at a concrete state.
use shard_controller.Prelude.{◌≡◌, refl, String, none, List, [], string_eq, nat_eq, Dict}
use shard_controller.Reference.{ObjectReference}
use shard_controller.Tracker.Views.{shard_of, size}
use shard_controller.Tracker.Healthy.{Healthy-IsInStep}
use shard_controller.Tracker.Sync.{IsSynced}
use shard_controller.Tracker.Consistency.{IsSound}
use shard_controller.Redeploy.{active_shards, deploy_each, redeploy_all_shards}
use shard_controller.Redeploy.Active.{IsRange}
use shard_controller.Redeploy.Synced.{redeploy_all_shards-IsSynced}
use shard_controller.Redeploy.Race.{System, Steps, redeploy_race}
use shard_controller.Tests.Sets.{list_set}
use shard_controller.Tests.Clusters.{Fleet, fleet}
use shard_controller.Tests.Tracking.{alpha, one, running_code, Healthy-one}

abbrev pub entries : Dict String (List ObjectReference)
entries = one.maps.shard_map

pub one-IsRange : IsRange entries one.maps.shard_map
unfolding running_code
one-IsRange = record { distinct = (refl, tt); same = λ k. refl }

pub one-IsSound : IsSound one.maps
one-IsSound = (Healthy-IsInStep fleet Healthy-one).consistent.sound

pub redeployed : (redeploy_all_shards fleet entries one).0 ≡ none
unfolding running_code redeploy_all_shards deploy_each active_shards
redeployed = refl

redeploy_all_shards-IsSynced_example : IsSynced fleet (redeploy_all_shards fleet entries one).1
redeploy_all_shards-IsSynced_example =
    redeploy_all_shards-IsSynced fleet entries one one-IsRange one-IsSound
      (Healthy-IsInStep fleet Healthy-one).annotated (Healthy-IsInStep fleet Healthy-one).synced
      redeployed

abbrev initial : System (List ObjectReference) Fleet
initial = record { state = one; pending = [] }

redeploy_race_example :
    (t : System (List ObjectReference) Fleet) × Steps fleet initial t
    × (size "s1" t.state.maps ≡ 0)
    × fleet.Running "s1" t.state.world
unfolding running_code shard_of active_shards
redeploy_race_example =
    redeploy_race fleet alpha "s1" one entries [] refl refl refl one-IsRange refl refl
