-- ===== src/Deploy.antt =====
-- internal/controller/utils.go: deployDeployment, undeployDeployment, deployControllers and
-- undeployControllers.
pub mod Objects
pub mod Effects
pub mod Names
pub mod Options
pub mod Patched
pub mod Whole
pub mod Failures
pub mod Reachable
pub mod Serving
pub mod Edits
pub mod Applied
pub mod Interleaved
use shard_controller.Prelude.{
  Bool, String, Option, none, some, List, string_eq, ◌==◌, if◌then◌else◌,
}
use shard_controller.Errors.{Error, is_not_found, Result, ok, err, ◌>>=◌, Action, for_each}
use shard_controller.Sharding.{
  Component, addon_controller, classifier, sveltoscluster_manager, event_manager,
  healthcheck_manager, get_template, components,
}
use shard_controller.Patches.{Patch, ConfigMap, get_shard_components_patches, apply_shard_patches}
use shard_controller.Documents.{
  Documents, Order, set_options, add_drift_detection_config, add_classifier_configs,
  render_document,
}

-- The options of the process and the package's settings, which do not change while it runs.
pub record Settings : Type 0 where
  pub agent_in_mgmt_cluster : Bool
  pub drift_detection_config : String
  pub sveltos_agent_config : String
  pub sveltos_applier_config : String
  pub sveltos_namespace : String
  pub shard_components_config_map : String

-- The API server and what the source calls to reach it, none of which is code of this repository.
pub record Api (U W : Type 0) : Type 0 where
  -- `u.SetNamespace`, `u.GetNamespace` and `u.GetName`
  pub set_namespace : String → U → U
  pub get_namespace : U → String
  pub get_name : U → String
  -- `c.Get` of a ConfigMap, by namespace and name
  pub get_config_map : String → String → W → Result ConfigMap
  -- `yaml.Unmarshal` into a Patch
  pub unmarshal : String → Result Patch
  -- `c.Apply`, with forced ownership
  pub apply : U → Action W
  -- the error of `kubernetes.NewForConfig(config)`
  pub new_for_config : Option Error
  -- `Deployments(namespace).Delete(name)`
  pub delete : String → String → Action W
  -- the order in which Go ranges over a map, which may be another one each time
  pub range : W → Order

module _ {W : Type 0} where
  abbrev pub ignore_not_found : Option Error × W → Option Error × W
  ignore_not_found (none, w) = (none, w)
  ignore_not_found (some e, w) = if is_not_found e then (none, w) else (some e, w)

module _ {U R : Type 0} (docs : Documents U R) (settings : Settings) where
  -- `if agentInMgmtCluster { template, err = setOptions(template) }`
  abbrev pub with_options : Component → Result String
  with_options c =
      if settings.agent_in_mgmt_cluster
      then set_options docs (get_template c)
      else ok (get_template c)

  -- the template that deployControllers makes for each component
  unfoldable pub component_template : Order → Component → Result String
  component_template order addon_controller =
      with_options addon_controller
      >>= add_drift_detection_config docs settings.drift_detection_config
  component_template order classifier =
      with_options classifier
      >>= add_classifier_configs docs order settings.sveltos_agent_config
          settings.sveltos_applier_config
  component_template order sveltoscluster_manager = ok (get_template sveltoscluster_manager)
  component_template order event_manager = with_options event_manager
  component_template order healthcheck_manager = with_options healthcheck_manager

module _ {U R W : Type 0} (docs : Documents U R) (api : Api U W) (settings : Settings) where
  -- what deployDeployment hands to Apply
  unfoldable pub deployment_object : String → String → List Patch → Result U
  deployment_object template shard_key patches = do
    rendered ← render_document docs template shard_key
    patched ← apply_shard_patches docs.patcher rendered patches
    u ← docs.patcher.get_unstructured patched
    ok (api.set_namespace settings.sveltos_namespace u)

  unfoldable pub deploy_deployment : String → String → List Patch → Action W
  deploy_deployment template shard_key patches w =
      elim (deployment_object template shard_key patches) [
        | err e ↦ (some e, w)
        | ok u ↦ api.apply u w
      ]

  -- the object whose name undeployDeployment deletes
  unfoldable pub removed_object : String → String → Result U
  removed_object template shard_key = do
    rendered ← render_document docs template shard_key
    u ← docs.patcher.get_unstructured rendered
    ok (api.set_namespace settings.sveltos_namespace u)

  unfoldable pub undeploy_deployment : String → String → Action W
  undeploy_deployment template shard_key w = elim (removed_object template shard_key) [
    | err e ↦ (some e, w)
    | ok u ↦ elim api.new_for_config [
      | some e ↦ (some e, w)
      | none ↦ ignore_not_found (api.delete (api.get_namespace u) (api.get_name u) w)
    ]
  ]

  unfoldable pub deploy_component : String → List Patch → Component → Action W
  deploy_component shard_key patches c w = elim (component_template docs settings (api.range w) c) [
    | err e ↦ (some e, w)
    | ok template ↦ deploy_deployment template shard_key patches w
  ]

  unfoldable pub deploy_controllers : String → Action W
  deploy_controllers shard_key w =
      if shard_key == ""
      then (none, w)
      else elim (get_shard_components_patches api.unmarshal settings.shard_components_config_map
          (api.get_config_map settings.sveltos_namespace settings.shard_components_config_map w)) [
            | err e ↦ (some e, w)
            | ok patches ↦ for_each (deploy_component shard_key patches) components w
          ]

  abbrev pub undeploy_component : String → Component → Action W
  undeploy_component shard_key c = undeploy_deployment (get_template c) shard_key

  unfoldable pub undeploy_controllers : String → Action W
  undeploy_controllers shard_key w =
      if shard_key == "" then (none, w) else for_each (undeploy_component shard_key) components w
