-- ===== src/Deploy/Whole.antt =====
-- deployControllers and undeployControllers (internal/controller/utils.go) as the calls that the
-- tracking makes: they have the laws of Shards.
use shard_controller.Prelude.{
  ◌≡◌, ◌≢◌, refl, ◌⊎◌, inl, inr, true, false, String, none, some, List, string_eq, All, test_of_ne,
}
use shard_controller.Errors.{Error, Result-cases, for_each}
use shard_controller.Errors.Sequences.{for_each_keeps, for_each-All}
use shard_controller.Sharding.{
  Component, addon_controller, classifier, sveltoscluster_manager, event_manager,
  healthcheck_manager, components,
}
use shard_controller.Patches.{Patch, get_shard_components_patches}
use shard_controller.Documents.{Documents}
use shard_controller.Shards.{Shards}
use shard_controller.Deploy.{
  Settings, Api, deploy_component, undeploy_component, deploy_controllers, undeploy_controllers,
}
use shard_controller.Deploy.Objects.{
  IsServer, Naming, deploy_component-Deployed, undeploy_component-Removed,
}
use shard_controller.Deploy.Effects.{
  Deployed-own, Deployed-keeps, Deployed-other, Removed-own, Removed-keeps, Removed-other,
}

abbrev pub of_components : (P : Component → Type 0) → All P components → (c : Component) → P c
of_components P h addon_controller = h.0
of_components P h classifier = h.1.0
of_components P h sveltoscluster_manager = h.1.1.0
of_components P h event_manager = h.1.1.1.0
of_components P h healthcheck_manager = h.1.1.1.1.0

module _ {U R W : Type 0} (docs : Documents U R) (api : Api U W) (settings : Settings)
    (naming : Naming docs api settings) (server : IsServer api) where
  -- The deployments of all components are there; none is there.
  abbrev pub IsRunning : String → W → Type 0
  IsRunning s w =
      (c : Component) → server.has settings.sveltos_namespace (naming.name_of c s) w ≡ true

  abbrev pub IsGone : String → W → Type 0
  IsGone s w =
      (c : Component) → server.has settings.sveltos_namespace (naming.name_of c s) w ≡ false

  -- For a shard, deployControllers ends at the patches or runs the loop over the components.
  pub deploy_controllers-cases :
      (s : String) (w : W)
      → naming.IsKey s
      → ((e : Error) × (deploy_controllers docs api settings s w ≡ (some e, w)))
        ⊎ ((patches : List Patch) × (deploy_controllers docs api settings s w
              ≡ for_each (deploy_component docs api settings s patches) components w))
  unfolding deploy_controllers
  deploy_controllers-cases s w key =
      elim (Result-cases (
        get_shard_components_patches api.unmarshal settings.shard_components_config_map
          (api.get_config_map settings.sveltos_namespace settings.shard_components_config_map w))) [
            | inl (patches, h) ↦
                inr (patches, rw (test_of_ne s "" (naming.not_empty s key), h) refl)
            | inr (e, h) ↦ inl (e, rw (test_of_ne s "" (naming.not_empty s key), h) refl)
          ]

  pub undeploy_controllers-key :
      (s : String) (w : W)
      → naming.IsKey s
      → undeploy_controllers docs api settings s w
        ≡ for_each (undeploy_component docs api settings s) components w
  unfolding undeploy_controllers
  undeploy_controllers-key s w key = rw (test_of_ne s "" (naming.not_empty s key)) refl

  -- If deployControllers returns nil for a shard, the deployments of all five components are there.
  pub deploy_controllers-IsRunning :
      (s : String) (w : W)
      → naming.IsKey s
      → (deploy_controllers docs api settings s w).0 ≡ none
      → IsRunning s (deploy_controllers docs api settings s w).1
  deploy_controllers-IsRunning s w key z = elim (deploy_controllers-cases s w key) [
    | inl (e, h) ↦ let f : some e ≡ none = rw h at z in cc
    | inr (patches, h) ↦ rw h (
        of_components _ (
          for_each-All (deploy_component docs api settings s patches)
            (λ c w. server.has settings.sveltos_namespace (naming.name_of c s) w ≡ true)
            (λ c w.
              Deployed-own docs api settings naming server c s key w
                (deploy_component-Deployed docs api settings naming c s key w patches))
            (λ a c w.
              Deployed-keeps docs api settings naming server c s key w
                (deploy_component-Deployed docs api settings naming c s key w patches)
                settings.sveltos_namespace (naming.name_of a s))
            components w (rw h at z)))
  ]

  -- If undeployControllers returns nil for a shard, no deployment of its components is there.
  pub undeploy_controllers-IsGone :
      (s : String) (w : W)
      → naming.IsKey s
      → (undeploy_controllers docs api settings s w).0 ≡ none
      → IsGone s (undeploy_controllers docs api settings s w).1
  undeploy_controllers-IsGone s w key z = rw (undeploy_controllers-key s w key) (
      of_components _ (
        for_each-All (undeploy_component docs api settings s)
          (λ c w. server.has settings.sveltos_namespace (naming.name_of c s) w ≡ false)
          (λ c w.
            Removed-own docs api settings naming server c s key w
              (undeploy_component-Removed docs api settings naming c s key w))
          (λ a c w.
            Removed-keeps docs api settings naming server c s key w
              (undeploy_component-Removed docs api settings naming c s key w)
              settings.sveltos_namespace (naming.name_of a s))
          components w (rw (undeploy_controllers-key s w key) at z)))

  -- Whatever deployControllers returns, it removes no deployment.
  pub deploy_controllers_keeps :
      (s : String) (w : W) (ns n : String)
      → naming.IsKey s
      → server.has ns n w ≡ true
      → server.has ns n (deploy_controllers docs api settings s w).1 ≡ true
  deploy_controllers_keeps s w ns n key p = elim (deploy_controllers-cases s w key) [
    | inl (e, h) ↦ rw h p
    | inr (patches, h) ↦ rw h (
        for_each_keeps (deploy_component docs api settings s patches)
          (λ w. server.has ns n w ≡ true)
          (λ c w.
            Deployed-keeps docs api settings naming server c s key w
              (deploy_component-Deployed docs api settings naming c s key w patches) ns n)
          components w p)
  ]

  -- And it makes none that is not one of the shard's.
  pub deploy_controllers_other :
      (s : String) (w : W) (ns n : String)
      → naming.IsKey s
      → ((c : Component) → naming.name_of c s ≢ n)
      → server.has ns n w ≡ false
      → server.has ns n (deploy_controllers docs api settings s w).1 ≡ false
  deploy_controllers_other s w ns n key ne p = elim (deploy_controllers-cases s w key) [
    | inl (e, h) ↦ rw h p
    | inr (patches, h) ↦ rw h (
        for_each_keeps (deploy_component docs api settings s patches)
          (λ w. server.has ns n w ≡ false)
          (λ c w.
            Deployed-other docs api settings naming server c s key w
              (deploy_component-Deployed docs api settings naming c s key w patches) ns n (ne c))
          components w p)
  ]

  -- Whatever undeployControllers returns, it makes no deployment.
  pub undeploy_controllers_keeps :
      (s : String) (w : W) (ns n : String)
      → naming.IsKey s
      → server.has ns n w ≡ false
      → server.has ns n (undeploy_controllers docs api settings s w).1 ≡ false
  undeploy_controllers_keeps s w ns n key p = rw (undeploy_controllers-key s w key) (
      for_each_keeps (undeploy_component docs api settings s) (λ w. server.has ns n w ≡ false)
        (λ c w.
          Removed-keeps docs api settings naming server c s key w
            (undeploy_component-Removed docs api settings naming c s key w) ns n)
        components w p)

  -- And it removes none that is not one of the shard's.
  pub undeploy_controllers_other :
      (s : String) (w : W) (ns n : String)
      → naming.IsKey s
      → ((c : Component) → naming.name_of c s ≢ n)
      → server.has ns n w ≡ true
      → server.has ns n (undeploy_controllers docs api settings s w).1 ≡ true
  undeploy_controllers_other s w ns n key ne p = rw (undeploy_controllers-key s w key) (
      for_each_keeps (undeploy_component docs api settings s) (λ w. server.has ns n w ≡ true)
        (λ c w.
          Removed-other docs api settings naming server c s key w
            (undeploy_component-Removed docs api settings naming c s key w) ns n (ne c))
        components w p)

  -- The interface that the tracking uses, by the code.
  unfoldable pub controllers : Shards W
  unfolding deploy_controllers undeploy_controllers
  controllers = record {
    deploy = deploy_controllers docs api settings;
    undeploy = undeploy_controllers docs api settings;
    IsKey = naming.IsKey;
    Running = IsRunning;
    Gone = IsGone;
    deploy-empty = λ w. refl;
    undeploy-empty = λ w. refl;
    deploy-Running = deploy_controllers-IsRunning;
    undeploy-Gone = undeploy_controllers-IsGone;
    deploy_keeps_Running = λ s t w k kt h c. deploy_controllers_keeps s w _ _ k (h c);
    deploy_keeps_Gone = λ s t w k kt ne h c.
        deploy_controllers_other s w _ _ k (λ d. naming.apart d c s t k kt ne) (h c);
    undeploy_keeps_Running = λ s t w k kt ne h c.
        undeploy_controllers_other s w _ _ k (λ d. naming.apart d c s t k kt ne) (h c);
    undeploy_keeps_Gone = λ s t w k kt h c. undeploy_controllers_keeps s w _ _ k (h c);
  }
