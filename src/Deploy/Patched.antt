-- ===== src/Deploy/Patched.antt =====
-- deployControllers (internal/controller/utils.go) by the answer on the ConfigMap with the patches.
use shard_controller.Prelude.{
  ◌≡◌, refl, ap, false, String, Option, some, List, [], string_eq, ◌==◌, if◌then◌else◌, Bool-cases,
  inl, inr,
}
use mathlib.Core.Path.{fun_ext}
use shard_controller.Errors.{Error, is_not_found, err, for_each}
use shard_controller.Sharding.{
  Component, addon_controller, classifier, sveltoscluster_manager, event_manager,
  healthcheck_manager, components,
}
use shard_controller.Patches.{Patch, get_shard_components_patches}
use shard_controller.Documents.{Documents}
use shard_controller.Deploy.{
  Settings, Api, component_template, deployment_object, deploy_deployment, deploy_component,
  deploy_controllers,
}

-- The settings of a process that was started without a ConfigMap.
abbrev pub without_config_map : Settings → Settings
without_config_map settings = record settings { shard_components_config_map = "" }

module _ {U R W : Type 0} (docs : Documents U R) (api : Api U W) (settings : Settings) where
  deploy_component-without_config_map :
      (s : String) (patches : List Patch) (c : Component)
      → deploy_component docs api (without_config_map settings) s patches c
        ≡ deploy_component docs api settings s patches c
  unfolding deploy_component deploy_deployment deployment_object component_template
  deploy_component-without_config_map s patches addon_controller = refl
  deploy_component-without_config_map s patches classifier = refl
  deploy_component-without_config_map s patches sveltoscluster_manager = refl
  deploy_component-without_config_map s patches event_manager = refl
  deploy_component-without_config_map s patches healthcheck_manager = refl

  deploy_controllers-without_config_map :
      (s : String) (w : W)
      → (s == "") ≡ false
      → deploy_controllers docs api (without_config_map settings) s w
        ≡ for_each (deploy_component docs api settings s []) components w
  unfolding deploy_controllers get_shard_components_patches
  deploy_controllers-without_config_map s w h = rw h (
      ap (λ (f : Component → W → Option Error × W). for_each f components w)
        (fun_ext (deploy_component-without_config_map s [])))

  -- For a shard that is not the empty key, and a ConfigMap that the API server does not return:
  -- deployControllers does what it does in a process that was started without a ConfigMap if the error
  -- is that the ConfigMap is not found, and otherwise it returns the error and changes nothing.
  pub deploy_controllers-is_not_found :
      (s : String) (w : W) (e : Error)
      → (s == "") ≡ false
      → (settings.shard_components_config_map == "") ≡ false
      → api.get_config_map settings.sveltos_namespace settings.shard_components_config_map w ≡ err e
      → deploy_controllers docs api settings s w ≡ (
          if is_not_found e
          then deploy_controllers docs api (without_config_map settings) s w
          else (some e, w))
  unfolding get_shard_components_patches deploy_controllers for_each
  deploy_controllers-is_not_found s w e h n g = elim (Bool-cases (is_not_found e)) [
    | inl f ↦
        rw (f, deploy_controllers-without_config_map s w h)
          (rw (deploy_controllers, h, n, g, f) refl)
    | inr f ↦ rw (deploy_controllers, h, n, g, f) refl
  ]
