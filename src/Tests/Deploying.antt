-- ===== src/Tests/Deploying.antt =====
-- The theorems on the deployment of the components at a small API server, for two shards.
use shard_controller.Prelude.{
  ◌≡◌, ◌≢◌, refl, sym, ap, ◌∙◌, true, false, ◌⊎◌, inl, inr, String, none, List, [], ◌∷◌, arith, ℕ,
  not, nat_eq, string_eq, ◌==◌, str_contains, has_prefix, concat, lookup,
}
use mathlib.Core.Bool.{false≢true}
use shard_controller.Errors.{is_not_found, failure, Result, ok, err, for_each}
use shard_controller.Sharding.{
  Component, addon_controller, classifier, sveltoscluster_manager, event_manager,
  healthcheck_manager, get_template,
}
use shard_controller.Template.{text, uncovered, Rendered, instantiate_template}
use shard_controller.Patches.{Patch, get_shard_components_patches, apply_shard_patches}
use shard_controller.Documents.{
  Order, render_document, add_drift_detection_config, add_classifier_configs,
}
use shard_controller.Deploy.{
  deployment_object, removed_object, component_template, deploy_component, deploy_deployment,
  undeploy_deployment, deploy_controllers, undeploy_controllers,
}
use shard_controller.Deploy.Objects.{Naming}
use shard_controller.Deploy.Whole.{IsGone, undeploy_controllers-IsGone}
use shard_controller.Deploy.Whole.{controllers}
use shard_controller.Deploy.Reachable.{Healthy-controllers}
use shard_controller.Shards.{Shards}
use shard_controller.Reference.{ObjectReference}
use shard_controller.Tracker.{State, init_maps, track_cluster, leave_shard, join_shard, is_idle}
use shard_controller.Tracker.Views.{size}
use shard_controller.Tracker.Runs.{tracks, perform}
use shard_controller.Tracker.Healthy.{Healthy, started, called}
use shard_controller.Tests.Sets.{list_set}
use shard_controller.Tests.Tracking.{alpha}
use shard_controller.Tests.Clusters.{mem, without}
use shard_controller.Tests.Server.{Object, docs, delete, api, settings, server}

unfoldable pub name_of : Component → String → String
name_of c s = elim (instantiate_template (get_template c) s) [ text t ↦ t | uncovered ↦ "" ]

-- The word tells the documents of the two shards apart.
has_blue : (c : Component) → str_contains (name_of c "blue") "blue" ≡ true
unfolding str_contains name_of instantiate_template get_template has_prefix concat
has_blue addon_controller = refl
has_blue classifier = refl
has_blue sveltoscluster_manager = refl
has_blue event_manager = refl
has_blue healthcheck_manager = refl

has_no_blue : (c : Component) → str_contains (name_of c "green") "blue" ≡ false
unfolding str_contains name_of instantiate_template get_template has_prefix concat
has_no_blue addon_controller = refl
has_no_blue classifier = refl
has_no_blue sveltoscluster_manager = refl
has_no_blue event_manager = refl
has_no_blue healthcheck_manager = refl

blue_not_green : (c d : Component) → name_of c "blue" ≢ name_of d "green"
blue_not_green c d e =
    false≢true (sym (has_no_blue d) ∙ sym (ap (λ t. str_contains t "blue") e) ∙ has_blue c)

abbrev pub IsColour : String → Type 0
IsColour s = (s ≡ "blue") ⊎ (s ≡ "green")

pub colours_apart :
    (c d : Component) (s t : String) → IsColour s → IsColour t → s ≢ t → name_of c s ≢ name_of d t
colours_apart c d s t (inl p) (inl q) ne e = ne (p ∙ sym q)
colours_apart c d s t (inl p) (inr q) ne e = blue_not_green c d (rw (p, q) at e)
colours_apart c d s t (inr p) (inl q) ne e = blue_not_green d c (sym (rw (p, q) at e))
colours_apart c d s t (inr p) (inr q) ne e = ne (p ∙ sym q)

pub colour_not_empty : (s : String) → IsColour s → s ≢ ""
colour_not_empty s (inl p) e = ground (arith, string_eq.beq_iff "blue" "")
colour_not_empty s (inr p) e = ground (arith, string_eq.beq_iff "green" "")

-- No option is set, so the templates stay as they are.
pub plain_template :
    (order : Order) (c : Component) → component_template docs settings order c ≡ ok (get_template c)
unfolding component_template add_drift_detection_config add_classifier_configs
plain_template order addon_controller = refl
plain_template order classifier = refl
plain_template order sveltoscluster_manager = refl
plain_template order event_manager = refl
plain_template order healthcheck_manager = refl

abbrev pub document_object : Rendered → Result Object
document_object (text t) = ok ("projectsveltos", t)
document_object uncovered = err (failure "template")

deployment_object-render :
    (template s : String) (ps : List Patch)
    → deployment_object docs api settings template s ps
      ≡ document_object (instantiate_template template s)
unfolding deployment_object render_document apply_shard_patches
deployment_object-render template s [] = ground arith
deployment_object-render template s (p ∷ ps) = ground arith

pub removed_object-render :
    (template s : String)
    → removed_object docs api settings template s
      ≡ document_object (instantiate_template template s)
unfolding removed_object render_document
removed_object-render template s = ground arith

pub document_object-name :
    (c : Component) (s : String) (u : Object)
    → document_object (instantiate_template (get_template c) s) ≡ ok u
    → (u.0 ≡ "projectsveltos") × (u.1 ≡ name_of c s)
unfolding name_of
document_object-name c s u h = (ground arith, ground arith)

pub deployed_name :
    (c : Component) (s : String) (patches : List Patch) (order : Order) (template : String)
    (u : Object)
    → component_template docs settings order c ≡ ok template
    → deployment_object docs api settings template s patches ≡ ok u
    → (u.0 ≡ "projectsveltos") × (u.1 ≡ name_of c s)
deployed_name c s patches order template u h k =
    let p : template ≡ get_template c = let q = sym h ∙ plain_template order c in cc in
    document_object-name c s u
      (sym (deployment_object-render (get_template c) s patches) ∙ (rw p at k))

abbrev pub naming : Naming docs api settings
naming = record {
  IsKey = IsColour;
  not_empty = colour_not_empty;
  name_of = name_of;
  apart = colours_apart;
  deployed = λ c s patches order template u key h k. deployed_name c s patches order template u h k;
  removed = λ c s u key h.
      document_object-name c s u (sym (removed_object-render (get_template c) s) ∙ h);
}

pub blue_deployed : (deploy_controllers docs api settings "blue" []).0 ≡ none
unfolding deploy_controllers for_each deploy_component deploy_deployment deployment_object
    component_template add_drift_detection_config add_classifier_configs render_document
    apply_shard_patches get_shard_components_patches instantiate_template get_template has_prefix
    concat
blue_deployed = refl

blue_undeployed : (undeploy_controllers docs api settings "blue" []).0 ≡ none
unfolding undeploy_controllers for_each undeploy_deployment removed_object render_document delete
    mem without is_not_found instantiate_template get_template has_prefix concat
blue_undeployed = refl

undeploy_controllers-IsGone_example :
    IsGone docs api settings naming server "blue"
      (undeploy_controllers docs api settings "blue" []).1
undeploy_controllers-IsGone_example =
    undeploy_controllers-IsGone docs api settings naming server "blue" [] (inl refl) blue_undeployed

abbrev pub ctl : Shards (List String)
ctl = controllers docs api settings naming server

abbrev pub fresh : State (List ObjectReference) (List String)
fresh = record { maps = init_maps; world = [] }

abbrev pub tracked : State (List ObjectReference) (List String)
tracked = (perform ctl (tracks alpha "blue") fresh).1

pub nothing_there : (s : String) → IsColour s → IsGone docs api settings naming server s []
unfolding mem server
nothing_there s key c = refl

tracked-nil : (perform ctl (tracks alpha "blue") fresh).0 ≡ none
unfolding controllers perform track_cluster leave_shard join_shard is_idle init_maps lookup
tracked-nil = ground (arith, blue_deployed)

Healthy-tracked : Healthy ctl tracked
unfolding controllers
Healthy-tracked =
    called (started [] nothing_there) (tracks alpha "blue") (inl (inl refl)) tracked-nil

Healthy-controllers_example :
    server.has "projectsveltos" (name_of classifier "blue") tracked.world
    ≡ not (◌==◌ {A = ℕ} (size "blue" tracked.maps) 0)
Healthy-controllers_example =
    Healthy-controllers docs api settings naming server tracked Healthy-tracked "blue" (inl refl)
      classifier
