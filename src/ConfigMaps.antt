-- ===== src/ConfigMaps.antt =====
-- internal/controller/configmap_controller.go: the events that reach the reconciler of the ConfigMap, and
-- its Reconcile.
pub mod Watched
pub mod Events
use shard_controller.Prelude.{Bool, ◌&&◌, String, none, string_eq, ◌==◌, if◌then◌else◌, Dict}
use shard_controller.Errors.{Action}
use shard_controller.Reference.{RefSet}
use shard_controller.Shards.{Shards}
use shard_controller.Tracker.{State}
use shard_controller.Redeploy.{redeploy_all_shards}
use shard_controller.Package.{Package, get_sveltos_namespace, get_shard_components_config_map}

-- The predicate of SetupWithManager, on the namespace and the name of an object.
unfoldable pub is_watched : Package → String → String → Bool
is_watched p namespace name =
    name == get_shard_components_config_map p && namespace == get_sveltos_namespace p

module _ {S W : Type 0} ⦃sets : RefSet S⦄ (ctl : Shards W) where
  -- ConfigMapReconciler.Reconcile; `entries` is the order in which `shardMap` is read
  unfoldable pub reconcile_config_map : Dict String S → Action (State S W)
  reconcile_config_map entries = redeploy_all_shards ctl entries

  -- An event of a ConfigMap: the predicate drops it, or it comes to a Reconcile.
  unfoldable pub config_map_event : Package → String → String → Dict String S → Action (State S W)
  config_map_event p namespace name entries st =
      if is_watched p namespace name then reconcile_config_map entries st else (none, st)
