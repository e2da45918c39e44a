-- ===== src/Deploy/Serving.antt =====
-- deployControllers and undeployControllers (internal/controller/utils.go) under the interleavings of
-- redeployAllShards with the other reconcilers, while deployments fail.
use shard_controller.Prelude.{◌≡◌, ◌≢◌, refl, String, Option, none, some, inl, inr, true, string_eq}
use shard_controller.Errors.{Error, is_not_found, ok}
use shard_controller.Errors.Sequences.{for_each-nil}
use shard_controller.Reference.{RefSet}
use shard_controller.Sharding.{Component, get_template, components}
use shard_controller.Documents.{Documents}
use shard_controller.Tracker.Views.{size}
use shard_controller.Tracker.Serving.{Removes}
use shard_controller.Redeploy.Race.{System, Steps}
use shard_controller.Redeploy.Serving.{IsAllowedSteps, IsServingSystem, Steps-IsServing}
use shard_controller.Deploy.{
  Settings, Api, removed_object, ignore_not_found, undeploy_component, undeploy_controllers,
  undeploy_deployment,
}
use shard_controller.Deploy.Objects.{IsServer, Naming}
use shard_controller.Deploy.Whole.{controllers, undeploy_controllers-key}

ignore_not_found-nil :
    {W : Type 0} (r : Option Error × W)
    → ((e : Error) → r.0 ≡ some e → is_not_found e ≡ true)
    → (ignore_not_found r).0 ≡ none
ignore_not_found-nil (none, w) h = refl
ignore_not_found-nil (some e, w) h = rw (h e refl) refl

module _ {U R W : Type 0} (docs : Documents U R) (api : Api U W) (settings : Settings)
    (naming : Naming docs api settings) (server : IsServer api) where
  -- The manifests of the shards can be read, and the API server refuses no removal of a deployment
  -- that it has.
  pub record IsRemovable : Type 0 where
    pub configured : api.new_for_config ≡ none
    pub readable :
        (c : Component) (s : String)
        → naming.IsKey s
        → (u : U) × (removed_object docs api settings (get_template c) s ≡ ok u)
    pub delete-is_not_found :
        (ns n : String) (w : W) (e : Error) → (api.delete ns n w).0 ≡ some e → is_not_found e ≡ true

  module _ (removable : IsRemovable) where
    undeploy_component-nil :
        (s : String)
        → naming.IsKey s
        → (c : Component) (w : W) → (undeploy_component docs api settings s c w).0 ≡ none
    unfolding undeploy_deployment
    undeploy_component-nil s key c w =
        let (u, h) = removable.readable c s key in
        rw (undeploy_deployment, h, removable.configured)
          (ignore_not_found-nil (api.delete (api.get_namespace u) (api.get_name u) w)
            (removable.delete-is_not_found (api.get_namespace u) (api.get_name u) w))

    undeploy_controllers-nil :
        (s : String) (w : W)
        → naming.IsKey s
        → (undeploy_controllers docs api settings s w).0 ≡ none
    undeploy_controllers-nil s w key =
        rw (undeploy_controllers-key docs api settings naming server s w key) (
          for_each-nil (undeploy_component docs api settings s) (undeploy_component-nil s key)
            components w)

    controllers-Removes : Removes (controllers docs api settings naming server)
    unfolding controllers undeploy_controllers
    controllers-Removes = record {
      undeploy-nil =
          λ s w a. elim a [ inl key ↦ undeploy_controllers-nil s w key | inr e ↦ rw e refl ];
    }

    module _ {S : Type 0} ⦃sets : RefSet S⦄ where
      -- Let the API server do what IsServer says and refuse no removal of a deployment that it has, and
      -- let the manifests be readable. Start from a state in which the deployments of every shard with
      -- clusters are there, the sets of the maps are sound, and the shards of the tracked clusters and
      -- those that redeployAllShards has still to deploy are keys of shards or empty. Then, whatever
      -- calls of deployControllers fail, at whichever component, and however the reconcilers and the
      -- steps of redeployAllShards interleave, for clusters with annotations that are keys of shards or
      -- empty, all five deployments of every shard with clusters are there.
      pub Steps-controllers :
          {s t : System S W}
          → IsServingSystem (controllers docs api settings naming server) s
          → (r : Steps (controllers docs api settings naming server) s t)
          → IsAllowedSteps (controllers docs api settings naming server) r
          → (k : String) → naming.IsKey k
          → size k t.state.maps ≢ 0
          → (c : Component)
          → server.has settings.sveltos_namespace (naming.name_of c k) t.state.world ≡ true
      unfolding controllers
      Steps-controllers h r a k key q c =
          (Steps-IsServing (controllers docs api settings naming server) controllers-Removes h r
              a).0.serving
            k key q c
