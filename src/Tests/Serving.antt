-- ===== src/Tests/Serving.antt =====
-- The theorems on interleavings and on the calls of Apply at the small API server.
use shard_controller.Prelude.{
  none, Option, ◌∷◌, inr, has_prefix, concat, ◌≡◌, refl, ap, ◌∙◌, true, String, some, List, [],
  arith, All₂, inl, lookup, insert, string_eq, nat_eq,
}
use shard_controller.Errors.{Error, Action, is_not_found, ok, for_each}
use shard_controller.Reference.{ObjectReference, reference_eq}
use shard_controller.Sharding.{
  Component, addon_controller, classifier, sveltoscluster_manager, event_manager,
  healthcheck_manager, get_template, components,
}
use shard_controller.Template.{instantiate_template}
use shard_controller.Template.Manifests.{instantiate_template-get_template}
use shard_controller.Patches.{Patch, apply_shard_patches, get_shard_components_patches}
use shard_controller.Documents.{render_document, add_drift_detection_config, add_classifier_configs}
use shard_controller.Deploy.{
  removed_object, deploy_controllers, deploy_component, deploy_deployment, deployment_object,
  component_template, undeploy_component,
}
use shard_controller.Deploy.Interleaved.{
  still, other, Interleaved, ends, calls, for_each-Interleaved, deploy_interleaved-IsRunning,
  deploy_interleaved_keeps, undeploy_interleaved-IsRunning, deploy_interleaved_keeps,
}
use shard_controller.Deploy.Applied.{IsApplied, patches_at, deploy_controllers-IsApplied}
use shard_controller.Deploy.Whole.{controllers, IsRunning, deploy_controllers-IsRunning}
use shard_controller.Deploy.Serving.{IsRemovable, Steps-controllers}
use shard_controller.Tracker.{init_maps, track_cluster, leave_shard, join_shard, is_idle, add_to}
use shard_controller.Tracker.Views.{shard_of, is_member, size}
use shard_controller.Tracker.Runs.{tracks, perform}
use shard_controller.Redeploy.Race.{System, reconciles, here, next}
use shard_controller.Redeploy.Serving.{IsServingSystem}
use shard_controller.Tests.Sets.{list_set, distinct-cons, distinct-nil, has-nil}
use shard_controller.Tests.Tracking.{alpha}
use shard_controller.Tests.Server.{Object, docs, delete, api, settings, server, has_applied}
use shard_controller.Tests.Deploying.{
  naming, ctl, fresh, tracked, blue_deployed, name_of, removed_object-render, document_object,
}

delete-is_not_found :
    (ns n : String) (w : List String) (e : Error)
    → (delete ns n w).0 ≡ some e
    → is_not_found e ≡ true
unfolding delete is_not_found
delete-is_not_found ns n w e h = ground arith

removed :
    (c : Component) (s : String)
    → (u : Object) × (removed_object docs api settings (get_template c) s ≡ ok u)
removed c s = (
  _,
  removed_object-render (get_template c) s
      ∙ ap document_object (instantiate_template-get_template c s).1,
)

removable : IsRemovable docs api settings naming server
removable = record {
  configured = refl;
  readable = λ c s key. removed c s;
  delete-is_not_found = delete-is_not_found;
}

abbrev initial : System (List ObjectReference) (List String)
initial = record { state = fresh; pending = [] }

initial-IsServingSystem : IsServingSystem ctl initial
unfolding init_maps shard_of is_member size lookup
initial-IsServingSystem = record {
  sound = record { owned = λ s c e. cc };
  annotated = record { annotation = λ d s e. cc };
  listed = λ k m. cc;
  serving = record { serving = λ t key p. absurd (p refl) };
}

one_in_blue : size "blue" tracked.maps ≡ 1
unfolding controllers perform track_cluster leave_shard join_shard is_idle init_maps add_to lookup
    insert size list_set
one_in_blue = ground (arith, blue_deployed, distinct-cons alpha [], has-nil alpha, distinct-nil)

Steps-controllers_example :
    server.has "projectsveltos" (name_of classifier "blue") tracked.world ≡ true
unfolding controllers
Steps-controllers_example =
    Steps-controllers docs api settings naming server removable {s = initial}
      initial-IsServingSystem (next here (reconciles (tracks alpha "blue"))) (tt, inl (inl refl))
      "blue" (inl refl) (λ e. ground (arith, one_in_blue)) classifier

deploy_controllers-IsApplied_example :
    (patches : List Patch) × (us : List Object) × (patches_at api settings [] ≡ ok patches)
    × All₂ (IsApplied docs api settings "blue" patches) components us
    × (deploy_controllers docs api settings "blue" [] ≡ for_each api.apply us [])
deploy_controllers-IsApplied_example =
    deploy_controllers-IsApplied docs api settings "blue" [] refl blue_deployed

deploy_component_blue :
    (c : Component) (w : List String)
    → deploy_component docs api settings "blue" [] c w ≡ (none, name_of c "blue" ∷ w)
unfolding deploy_component deploy_deployment deployment_object component_template
    add_drift_detection_config add_classifier_configs render_document apply_shard_patches
    instantiate_template get_template has_prefix concat name_of
deploy_component_blue addon_controller w = refl
deploy_component_blue classifier w = refl
deploy_component_blue sveltoscluster_manager w = refl
deploy_component_blue event_manager w = refl
deploy_component_blue healthcheck_manager w = refl

-- A call for the other shard comes after the first one.
interleaved :
    (r : Option Error × List String) × Interleaved docs api settings naming
      (deploy_component docs api settings "blue" [])
      components
      ("other" ∷ [])
      r
    × (r.0 ≡ none)
interleaved = (
  _,
  calls still (deploy_component_blue addon_controller _) (
      calls (other still "green" [] classifier (inr refl)) (deploy_component_blue classifier _) (
        calls still (deploy_component_blue sveltoscluster_manager _) (
          calls still (deploy_component_blue event_manager _)
            (calls still (deploy_component_blue healthcheck_manager _) (ends still))))),
  refl,
)

deploy_interleaved-IsRunning_example :
    IsRunning docs api settings naming server "blue" interleaved.0.1
deploy_interleaved-IsRunning_example =
    deploy_interleaved-IsRunning docs api settings naming server "blue" (inl refl) [] ("other" ∷ [])
      interleaved.0 interleaved.1 interleaved.2

deploy_interleaved_keeps_example : server.has "projectsveltos" "other" interleaved.0.1 ≡ true
unfolding server
deploy_interleaved_keeps_example =
    deploy_interleaved_keeps docs api settings naming server "blue" (inl refl) [] ("other" ∷ [])
      interleaved.0 interleaved.1 "projectsveltos" "other" (has_applied ("", "other") [])

green_deployed : (deploy_controllers docs api settings "green" []).0 ≡ none
unfolding deploy_controllers for_each deploy_component deploy_deployment deployment_object
    component_template add_drift_detection_config add_classifier_configs render_document
    apply_shard_patches get_shard_components_patches instantiate_template get_template has_prefix
    concat
green_deployed = refl

abbrev green : List String
green = (deploy_controllers docs api settings "green" []).1

abbrev undeploy_blue : Component → Action (List String)
undeploy_blue = undeploy_component docs api settings "blue"

undeploy_interleaved-IsRunning_example :
    IsRunning docs api settings naming server "green" (for_each undeploy_blue components green).1
undeploy_interleaved-IsRunning_example =
    undeploy_interleaved-IsRunning docs api settings naming server "blue" (inl refl) "green"
      (inr refl) (λ e. ground (arith, string_eq.beq_iff "blue" "green")) green
      (for_each undeploy_blue components green)
      (for_each-Interleaved docs api settings naming undeploy_blue components green)
      (deploy_controllers-IsRunning docs api settings naming server "green" [] (inr refl)
        green_deployed)
