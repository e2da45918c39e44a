-- ===== src/Deploy/Names.antt =====
-- The names of the deployments that undeployControllers removes (internal/controller/utils.go), from the
-- manifests of pkg/sharding and what the decoder reads in them.
use shard_controller.Prelude.{◌≡◌, ◌≢◌, ◌∙◌, true, String, List, concat}
use shard_controller.Errors.{ok, >>=-ok}
use shard_controller.Sharding.{Component, get_template}
use shard_controller.Template.Names.{
  is_name, manifest_head, deployment_name, instantiate_template-deployment_name,
  deployment_name_injective,
}
use shard_controller.Patches.{Patch}
use shard_controller.Documents.{Documents, Order, render_document}
use shard_controller.Deploy.{Settings, Api, removed_object, component_template, deployment_object}
use shard_controller.Deploy.Objects.{Naming}

-- What the decoder makes of a manifest, and the accessors of an object: the name is what stands in the
-- metadata.
pub record ReadsNames {U R W : Type 0} (docs : Documents U R) (api : Api U W) : Type 0 where
  pub reads_name :
      (c : Component) (s rest : String) (u : U)
      → is_name s ≡ true
      → docs.patcher.get_unstructured
          (concat (manifest_head c) (concat (deployment_name c s) (concat "\n" rest)))
        ≡ ok u
      → api.get_name u ≡ deployment_name c s
  pub get_name-set_namespace :
      (ns : String) (u : U) → api.get_name (api.set_namespace ns u) ≡ api.get_name u
  pub get_namespace-set_namespace :
      (ns : String) (u : U) → api.get_namespace (api.set_namespace ns u) ≡ ns

render_document-deployment_name :
    {U R : Type 0} (docs : Documents U R) (c : Component) (s d : String)
    → is_name s ≡ true
    → render_document docs (get_template c) s ≡ ok d
    → (rest : String) × (d
        ≡ concat (manifest_head c) (concat (deployment_name c s) (concat "\n" rest)))
unfolding render_document
render_document-deployment_name docs c s d h e =
    let (rest, k) = instantiate_template-deployment_name c s h in
    let q = rw (render_document, k) at e in (rest, cc)

module _ {U R W : Type 0} (docs : Documents U R) (api : Api U W) (settings : Settings)
    (reads : ReadsNames docs api) where
  -- For a key of letters that a name can have, the object that undeployDeployment deletes for a
  -- component has the component's prefix with the key for a name, and is in the namespace of Sveltos.
  pub removed_object-deployment_name :
      (c : Component) (s : String) (u : U)
      → is_name s ≡ true
      → removed_object docs api settings (get_template c) s ≡ ok u
      → (api.get_namespace u ≡ settings.sveltos_namespace) × (api.get_name u ≡ deployment_name c s)
  unfolding removed_object
  removed_object-deployment_name c s u h e =
      let (d, p, e1) = >>=-ok (render_document docs (get_template c) s) _ e in
      let (v, q, e2) = >>=-ok (docs.patcher.get_unstructured d) _ e1 in
      let (rest, k) = render_document-deployment_name docs c s d h p in
      let same : api.set_namespace settings.sveltos_namespace v ≡ u = cc in
      (
        rw same at (reads.get_namespace-set_namespace settings.sveltos_namespace v),
        rw same at (reads.get_name-set_namespace settings.sveltos_namespace v)
            ∙ reads.reads_name c s rest v h (rw k at q),
      )

  -- The names, with what is left to assume of the documents with options and patches in them.
  module _
      (deployed : (c : Component) (s : String) (patches : List Patch) (order : Order)
          (template : String) (u : U)
        → (is_name s ≡ true) × (s ≢ "")
        → component_template docs settings order c ≡ ok template
        → deployment_object docs api settings template s patches ≡ ok u
        → (api.get_namespace u ≡ settings.sveltos_namespace)
          × (api.get_name u ≡ deployment_name c s)) where
    unfoldable pub manifest_naming : Naming docs api settings
    manifest_naming = record {
      IsKey = λ s. (is_name s ≡ true) × (s ≢ "");
      not_empty = λ s key. key.1;
      name_of = deployment_name;
      apart = λ c d s t k kt ne e. ne (deployment_name_injective c d s t e).1;
      deployed = deployed;
      removed = λ c s u key. removed_object-deployment_name c s u key.0;
    }
