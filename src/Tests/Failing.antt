-- ===== src/Tests/Failing.antt =====
-- The theorems on failing deployments, at an API server that refuses every write.
use shard_controller.Prelude.{
  ◌≡◌, refl, sym, ◌∙◌, ◌⊎◌, inl, true, String, none, some, List, [], ◌∷◌, ◌++◌, All, arith,
  has_prefix, concat,
}
use shard_controller.Errors.{Error, failure, ok, for_each, is_not_found}
use shard_controller.Sharding.{Component, components, get_template}
use shard_controller.Template.{instantiate_template}
use shard_controller.Patches.{Patch, get_shard_components_patches, apply_shard_patches}
use shard_controller.Documents.{
  Order, render_document, add_drift_detection_config, add_classifier_configs,
}
use shard_controller.Deploy.{
  Api, deployment_object, removed_object, component_template, deploy_component, deploy_deployment,
  undeploy_component, undeploy_deployment, deploy_controllers, undeploy_controllers,
}
use shard_controller.Deploy.Objects.{IsServer, Naming}
use shard_controller.Deploy.Failures.{
  Has, Lacks, deploy_controllers_failed, undeploy_controllers_failed,
}
use shard_controller.Tests.Clusters.{mem}
use shard_controller.Tests.Server.{Object, docs, api, settings}
use shard_controller.Tests.Deploying.{
  name_of, IsColour, colour_not_empty, colours_apart, plain_template, document_object,
  document_object-name,
}

abbrev broken : Api Object (List String)
broken = record api {
  apply = λ u w. (some (failure "refused"), w);
  delete = λ ns n w. (some (failure "refused"), w);
}

no_nil : {e : Error} → some e ≡ none → ⊥
no_nil h = cc

refused_found : (e : Error) → some (failure "refused") ≡ some e → is_not_found e ≡ true → ⊥
unfolding is_not_found
refused_found e z y = ground arith

abbrev broken_server : IsServer broken
broken_server = record {
  has = λ ns n w. mem w n;
  apply_own = λ u w z. absurd (no_nil z);
  apply_keeps = λ u ns n w h. h;
  apply_other = λ u ns n w ne h. h;
  delete_own = λ ns n w z. absurd (no_nil z);
  delete_not_found = λ ns n w e z y. absurd (refused_found e z y);
  delete_keeps = λ ns n ns' n' w h. h;
  delete_other = λ ns n ns' n' w ne h. h;
}

broken_object :
    (template s : String) (ps : List Patch)
    → deployment_object docs broken settings template s ps
      ≡ document_object (instantiate_template template s)
unfolding deployment_object render_document apply_shard_patches
broken_object template s [] = ground arith
broken_object template s (p ∷ ps) = ground arith

broken_removed :
    (template s : String)
    → removed_object docs broken settings template s
      ≡ document_object (instantiate_template template s)
unfolding removed_object render_document
broken_removed template s = ground arith

broken_name :
    (c : Component) (s : String) (patches : List Patch) (order : Order) (template : String)
    (u : Object)
    → component_template docs settings order c ≡ ok template
    → deployment_object docs broken settings template s patches ≡ ok u
    → (u.0 ≡ "projectsveltos") × (u.1 ≡ name_of c s)
broken_name c s patches order template u h k =
    let p : template ≡ get_template c = let q = sym h ∙ plain_template order c in cc in
    document_object-name c s u (sym (broken_object (get_template c) s patches) ∙ (rw p at k))

abbrev naming : Naming docs broken settings
naming = record {
  IsKey = IsColour;
  not_empty = colour_not_empty;
  name_of = name_of;
  apart = colours_apart;
  deployed = λ c s patches order template u key h k. broken_name c s patches order template u h k;
  removed = λ c s u key h. document_object-name c s u (sym (broken_removed (get_template c) s) ∙ h);
}

deploy_fails : deploy_controllers docs broken settings "blue" [] ≡ (some (failure "refused"), [])
unfolding deploy_controllers for_each deploy_component deploy_deployment deployment_object
    component_template add_drift_detection_config add_classifier_configs render_document
    apply_shard_patches get_shard_components_patches instantiate_template get_template has_prefix
    concat
deploy_fails = refl

deploy_controllers_failed_example :
    (◌≡◌ {A = List String} [] [])
    ⊎ ((patches : List Patch) × (done : List Component) × (c : Component) × (rest : List Component)
        × (mid : List String) × (components ≡ done ++ c ∷ rest)
        × (for_each (deploy_component docs broken settings "blue" patches) done [] ≡ (none, mid))
        × All (Has docs broken settings naming broken_server "blue" (inl refl) []) done
        × (deploy_component docs broken settings "blue" patches c mid
            ≡ (some (failure "refused"), [])))
deploy_controllers_failed_example =
    deploy_controllers_failed docs broken settings naming broken_server "blue" (inl refl) [] []
      (failure "refused") deploy_fails

undeploy_fails :
    undeploy_controllers docs broken settings "blue" [] ≡ (some (failure "refused"), [])
unfolding undeploy_controllers for_each undeploy_deployment removed_object render_document
    is_not_found instantiate_template get_template has_prefix concat
undeploy_fails = refl

undeploy_controllers_failed_example :
    (done : List Component) × (c : Component) × (rest : List Component) × (mid : List String)
    × (components ≡ done ++ c ∷ rest)
    × (for_each (undeploy_component docs broken settings "blue") done [] ≡ (none, mid))
    × All (Lacks docs broken settings naming broken_server "blue" (inl refl) []) done
    × (undeploy_component docs broken settings "blue" c mid ≡ (some (failure "refused"), []))
undeploy_controllers_failed_example =
    undeploy_controllers_failed docs broken settings naming broken_server "blue" (inl refl) [] []
      (failure "refused") undeploy_fails
