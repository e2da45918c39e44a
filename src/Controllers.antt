-- ===== src/Controllers.antt =====
-- internal/controller/cluster_controller.go, sveltoscluster_controller.go and configmap_controller.go: the
-- SetupWithManager methods, and what Reconcile passes on of a reconciler's fields.
pub mod Configured
use shard_controller.Prelude.{Bool, true, ◌&&◌, String, List, [], ◌∷◌, string_eq, ◌==◌}
use shard_controller.Package.{
  Package, set_sveltos_namespace, get_sveltos_namespace, set_shard_components_config_map,
  get_shard_components_config_map,
}
use shard_controller.Process.{GoType, cluster, sveltos_cluster}
use shard_controller.Deploy.{Settings}
use shard_controller.Startup.Main.{
  ReconcilerOptions, sveltos_cluster_reconciler, config_map_reconciler, Action, set_namespace,
  set_config_map, set_up, go_capi_watchers,
}

-- The type of the object that `For` is given.
pub data Watched : Type 0 where
  clusters : GoType → Watched
  config_maps : Watched

-- What controller-runtime gets: the type that is watched, the predicate on the namespace and the name of
-- an object, which reads the package's variables when an event comes, and the reconciler's options.
pub record Controller : Type 0 where
  pub watched : Watched
  pub accepts : Package → String → String → Bool
  pub options : ReconcilerOptions

-- ClusterReconciler.SetupWithManager and SveltosClusterReconciler.SetupWithManager
unfoldable pub cluster_controller : GoType → ReconcilerOptions → Controller
cluster_controller t options = record {
  watched = clusters t;
  accepts = λ now namespace name. true;
  options = options;
}

-- ConfigMapReconciler.SetupWithManager: the name of the ConfigMap is read once, here.
unfoldable pub config_map_controller : Package → ReconcilerOptions → Controller
config_map_controller p options =
    let config_map_name = get_shard_components_config_map p in
    record {
      watched = config_maps;
      accepts =
          λ now namespace name. name == config_map_name && namespace == get_sveltos_namespace now;
      options = options;
    }

-- What deployControllers and redeployAllShards work with when Reconcile calls them: the four arguments
-- from the reconciler's fields, and the package's variables.
unfoldable pub settings_of : Package → ReconcilerOptions → Settings
settings_of now options = record {
  agent_in_mgmt_cluster = options.agent_in_mgmt_cluster;
  drift_detection_config = options.drift_detection_config;
  sveltos_agent_config = options.sveltos_agent_config;
  sveltos_applier_config = options.sveltos_applier_config;
  sveltos_namespace = get_sveltos_namespace now;
  shard_components_config_map = get_shard_components_config_map now;
}

-- The controllers that the actions of main set up, from the package's variables before them. The one of
-- Cluster API comes from the goroutine, if Cluster API is there.
unfoldable pub controllers_of : {F : Type 0} → List (Action F) → Package → List Controller
controllers_of [] p = []
controllers_of (set_namespace ns ∷ rest) p = controllers_of rest (set_sveltos_namespace ns p)
controllers_of (set_config_map name ∷ rest) p =
    controllers_of rest (set_shard_components_config_map name p)
controllers_of (set_up sveltos_cluster_reconciler options _ ∷ rest) p =
    cluster_controller sveltos_cluster options ∷ controllers_of rest p
controllers_of (set_up config_map_reconciler options _ ∷ rest) p =
    config_map_controller p options ∷ controllers_of rest p
controllers_of (go_capi_watchers options _ ∷ rest) p =
    cluster_controller cluster options ∷ controllers_of rest p
controllers_of (_ ∷ rest) p = controllers_of rest p
