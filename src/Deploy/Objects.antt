-- ===== src/Deploy/Objects.antt =====
-- What deployControllers and undeployControllers (internal/controller/utils.go) do to the objects in the
-- management cluster, given what the API server does on each call.
use shard_controller.Prelude.{
  ◌≡◌, ◌≢◌, Bool, true, false, String, Option, none, some, List, string_eq, inl, inr,
}
use shard_controller.Errors.{Error, is_not_found, ok, Result-cases}
use shard_controller.Sharding.{Component, get_template}
use shard_controller.Patches.{Patch}
use shard_controller.Documents.{Documents, Order}
use shard_controller.Deploy.{
  Settings, Api, deployment_object, deploy_deployment, removed_object, ignore_not_found,
  undeploy_deployment, component_template, deploy_component, undeploy_component,
}

-- What the API server does: `has` says whether it has a deployment of a namespace and a name.
pub record IsServer {U W : Type 0} (api : Api U W) : Type 0 where
  pub has : String → String → W → Bool
  pub apply_own :
      (u : U) (w : W)
      → (api.apply u w).0 ≡ none
      → has (api.get_namespace u) (api.get_name u) (api.apply u w).1 ≡ true
  pub apply_keeps :
      (u : U) (ns n : String) (w : W) → has ns n w ≡ true → has ns n (api.apply u w).1 ≡ true
  pub apply_other :
      (u : U) (ns n : String) (w : W)
      → api.get_name u ≢ n
      → has ns n w ≡ false
      → has ns n (api.apply u w).1 ≡ false
  pub delete_own :
      (ns n : String) (w : W)
      → (api.delete ns n w).0 ≡ none
      → has ns n (api.delete ns n w).1 ≡ false
  pub delete_not_found :
      (ns n : String) (w : W) (e : Error)
      → (api.delete ns n w).0 ≡ some e
      → is_not_found e ≡ true
      → has ns n (api.delete ns n w).1 ≡ false
  pub delete_keeps :
      (ns n ns' n' : String) (w : W)
      → has ns' n' w ≡ false
      → has ns' n' (api.delete ns n w).1 ≡ false
  pub delete_other :
      (ns n ns' n' : String) (w : W)
      → n ≢ n'
      → has ns' n' w ≡ true
      → has ns' n' (api.delete ns n w).1 ≡ true

-- The names of the deployments, for the keys that occur: the documents parse to objects of these
-- names, also with the options and the patches in them, and no two shards share one.
pub record Naming {U R W : Type 0} (docs : Documents U R) (api : Api U W) (settings : Settings)
    : Type 1 where
  pub IsKey : String → Type 0
  pub not_empty : (s : String) → IsKey s → s ≢ ""
  pub name_of : Component → String → String
  pub apart :
      (c d : Component) (s t : String) → IsKey s → IsKey t → s ≢ t → name_of c s ≢ name_of d t
  pub deployed :
      (c : Component) (s : String) (patches : List Patch) (order : Order) (template : String)
      (u : U)
      → IsKey s
      → component_template docs settings order c ≡ ok template
      → deployment_object docs api settings template s patches ≡ ok u
      → (api.get_namespace u ≡ settings.sveltos_namespace) × (api.get_name u ≡ name_of c s)
  pub removed :
      (c : Component) (s : String) (u : U)
      → IsKey s
      → removed_object docs api settings (get_template c) s ≡ ok u
      → (api.get_namespace u ≡ settings.sveltos_namespace) × (api.get_name u ≡ name_of c s)

module _ {U R W : Type 0} (docs : Documents U R) (api : Api U W) (settings : Settings)
    (naming : Naming docs api settings) (c : Component) (s : String) (key : naming.IsKey s)
    (w : W) where
  -- The two ways in which the deployment of one component goes.
  pub data Deployed : Option Error × W → Type 0 where
    refused : (e : Error) → Deployed (some e, w)
    applied :
        (u : U)
        → api.get_namespace u ≡ settings.sveltos_namespace
        → api.get_name u ≡ naming.name_of c s
        → Deployed (api.apply u w)

  pub deploy_component-Deployed :
      (patches : List Patch) → Deployed (deploy_component docs api settings s patches c w)
  unfolding deploy_component deploy_deployment
  deploy_component-Deployed patches =
      elim (Result-cases (component_template docs settings (api.range w) c)) [
        | inr (e, h) ↦ rw (deploy_component, h) (refused e)
        | inl (template, h) ↦
            elim (Result-cases (deployment_object docs api settings template s patches)) [
              | inr (e, k) ↦ rw (deploy_component, h, deploy_deployment, k) (refused e)
              | inl (u, k) ↦
                  let (ns, n) = naming.deployed c s patches (api.range w) template u key h k in
                  rw (deploy_component, h, deploy_deployment, k) (applied u ns n)
            ]
      ]

  -- And the removal of one.
  pub data Removed : Option Error × W → Type 0 where
    kept : (e : Error) → Removed (some e, w)
    deleted :
        (ns n : String)
        → ns ≡ settings.sveltos_namespace
        → n ≡ naming.name_of c s
        → Removed (ignore_not_found (api.delete ns n w))

  pub undeploy_component-Removed : Removed (undeploy_component docs api settings s c w)
  unfolding undeploy_deployment
  undeploy_component-Removed =
      elim (Result-cases (removed_object docs api settings (get_template c) s)) [
        | inr (e, h) ↦ rw (undeploy_deployment, h) (kept e)
        | inl (u, h) ↦
            let (ns, n) = naming.removed c s u key h in
            rw (undeploy_deployment, h) (of_config u ns n api.new_for_config)
      ]
    where
      of_config :
          (u : U)
          → api.get_namespace u ≡ settings.sveltos_namespace
          → api.get_name u ≡ naming.name_of c s
          → (r : Option Error)
          → Removed (elim r [
            | some e ↦ (some e, w)
            | none ↦ ignore_not_found (api.delete (api.get_namespace u) (api.get_name u) w)
          ])
      of_config u ns n (some e) = kept e
      of_config u ns n none = deleted (api.get_namespace u) (api.get_name u) ns n
