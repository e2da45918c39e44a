-- ===== src/Tests/Noticing.antt =====
-- The theorems on the ConfigMap with the patches: an event of it, and a process whose ConfigMap is not
-- there.
use shard_controller.Prelude.{◌≡◌, refl, none, some, [], arith, string_eq, if◌then◌else◌}
use shard_controller.Errors.{not_found, is_not_found}
use shard_controller.Package.{zero_package}
use shard_controller.Tracker.Views.{size}
use shard_controller.Tracker.Healthy.{Healthy-IsInStep}
use shard_controller.ConfigMaps.Events.{
  own_event, own_event-redeploy_all_shards, config_map_event-Running,
}
use shard_controller.Deploy.{Settings, deploy_controllers}
use shard_controller.Deploy.Patched.{without_config_map, deploy_controllers-is_not_found}
use shard_controller.Tests.Sets.{list_set}
use shard_controller.Tests.Clusters.{fleet}
use shard_controller.Tests.Tracking.{one, running_code, Healthy-one}
use shard_controller.Tests.Redeploying.{entries, one-IsRange, one-IsSound, redeployed}
use shard_controller.Tests.Booting.{flags, results, flags_set_up}
use shard_controller.Tests.Server.{docs, api, settings}

own_event-nil : (own_event flags results zero_package fleet entries one).0 ≡ none
own_event-nil =
    rw (own_event-redeploy_all_shards flags results zero_package fleet flags_set_up entries one)
      redeployed

config_map_event-Running_example :
    fleet.Running "s1" (own_event flags results zero_package fleet entries one).1.world
unfolding running_code size
config_map_event-Running_example =
    config_map_event-Running flags results zero_package fleet flags_set_up entries one one-IsRange
      one-IsSound (Healthy-IsInStep fleet Healthy-one).annotated own_event-nil "s1" refl
      (λ e. ground (arith, string_eq.beq_iff "s1" "")) (λ e. ground arith)

abbrev patched : Settings
patched = record settings { shard_components_config_map = "patches" }

deploy_controllers-is_not_found_example : deploy_controllers docs api patched "blue" [] ≡ (
    if is_not_found not_found
    then deploy_controllers docs api (without_config_map patched) "blue" []
    else (some not_found, []))
deploy_controllers-is_not_found_example =
    deploy_controllers-is_not_found docs api patched "blue" [] not_found refl refl refl
