-- ===== src/ConfigMaps/Events.antt =====
-- Events of ConfigMaps after startup (cmd/main.go, internal/controller/configmap_controller.go): which
-- of them deploy the shards again, and with which result.
use shard_controller.Prelude.{
  ◌≡◌, ◌≢◌, refl, true, String, Option, none, string_eq, Dict, any, arith,
}
use shard_controller.Errors.{Error}
use shard_controller.Reference.{RefSet}
use shard_controller.Shards.{Shards}
use shard_controller.Tracker.{State}
use shard_controller.Tracker.Views.{size}
use shard_controller.Tracker.Sync.{IsAnnotated}
use shard_controller.Tracker.Consistency.{IsSound}
use shard_controller.Redeploy.{redeploy_all_shards}
use shard_controller.Redeploy.Active.{IsRange}
use shard_controller.Redeploy.Synced.{redeploy_all_shards-Running}
use shard_controller.Package.{Package, get_sveltos_namespace, get_shard_components_config_map}
use shard_controller.ConfigMaps.{is_watched, reconcile_config_map, config_map_event}
use shard_controller.Startup.Main.{Flags, Results, main, settle}
use shard_controller.Startup.Order.{is_set_up, main-set_up}

module _ {F : Type 0} (flags : Flags F) (results : Results) (p : Package) where
  watched_settings :
      any is_set_up (main flags results) ≡ true
      → is_watched
          (settle (main flags results) p)
          results.namespace
          flags.shard_components_config_map
        ≡ true
  unfolding is_watched get_sveltos_namespace get_shard_components_config_map
  watched_settings set_up =
      let (rest, e, q) = main-set_up flags results p set_up in
      rw q (
        ground (
          arith,
          string_eq.beq_iff results.namespace results.namespace,
          string_eq.beq_iff flags.shard_components_config_map flags.shard_components_config_map,
        ))

  module _ {S W : Type 0} ⦃sets : RefSet S⦄ (ctl : Shards W) where
    -- An event of the ConfigMap of the flags, in the namespace of the environment.
    abbrev pub own_event : Dict String S → State S W → Option Error × State S W
    own_event =
        config_map_event ctl (settle (main flags results) p) results.namespace
          flags.shard_components_config_map

    pub own_event-redeploy_all_shards :
        any is_set_up (main flags results) ≡ true
        → (entries : Dict String S) (st : State S W)
        → own_event entries st ≡ redeploy_all_shards ctl entries st
    unfolding config_map_event reconcile_config_map redeploy_all_shards
    own_event-redeploy_all_shards set_up entries st = rw (watched_settings set_up) refl

    -- If main sets up a reconciler, the sets of the maps are sound and the shards of the tracked clusters
    -- can be deployed: an event of the ConfigMap that the flags name, in the namespace of the
    -- environment, leaves the controllers of every shard with clusters running if it comes to nil,
    -- whatever ran before.
    pub config_map_event-Running :
        any is_set_up (main flags results) ≡ true
        → (entries : Dict String S) (st : State S W) → IsRange entries st.maps.shard_map
        → IsSound st.maps
        → IsAnnotated ctl st.maps
        → (own_event entries st).0 ≡ none
        → (t : String) → ctl.IsKey t
        → t ≢ ""
        → size t st.maps ≢ 0
        → ctl.Running t (own_event entries st).1.world
    config_map_event-Running set_up entries st r h a n t key ne q =
        let same = own_event-redeploy_all_shards set_up entries st in
        rw same (redeploy_all_shards-Running ctl entries st r h a (rw same at n) t key ne q)
