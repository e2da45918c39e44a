-- ===== src/Deploy/Applied.antt =====
-- deployControllers (internal/controller/utils.go) as the calls of Apply that it makes.
use shard_controller.Prelude.{
  ◌≡◌, refl, ◌∙◌, false, String, none, some, List, inl, inr, string_eq, ◌==◌, All₂,
}
use shard_controller.Errors.{Error, Result, ok, err, >>=-ok, Result-cases, for_each}
use shard_controller.Errors.Sequences.{for_each-All₂}
use shard_controller.Sharding.{Component, get_template, components}
use shard_controller.Patches.{Patch, apply_shard_patches, get_shard_components_patches}
use shard_controller.Documents.{Documents, Order, render_document}
use shard_controller.Deploy.Edits.{
  IsEdited, edits, IsPatched, component_template-IsEdited, apply_shard_patches-IsPatched,
}
use shard_controller.Deploy.{
  Settings, Api, component_template, deployment_object, deploy_deployment, deploy_component,
  deploy_controllers,
}

module _ {U W : Type 0} (api : Api U W) (settings : Settings) where
  -- The patches, or the error, that deployControllers reads first.
  abbrev pub patches_at : W → Result (List Patch)
  patches_at w =
      get_shard_components_patches api.unmarshal settings.shard_components_config_map
        (api.get_config_map settings.sveltos_namespace settings.shard_components_config_map w)

module _ {U R W : Type 0} (docs : Documents U R) (api : Api U W) (settings : Settings)
    (s : String) where
  -- What Apply gets for a component: the manifest with the component's edits, decoded and encoded for
  -- each, instantiated for the shard, with the patches, in the namespace of Sveltos.
  pub record IsApplied (patches : List Patch) (c : Component) (u : U) : Type 0 where
    pub order : Order
    pub template : String
    pub edited : IsEdited docs (edits settings order c) (get_template c) template
    pub rendered : String
    pub instantiated : render_document docs template s ≡ ok rendered
    pub document : String
    pub patched : IsPatched docs.patcher patches rendered document
    pub object : U
    pub decoded : docs.patcher.get_unstructured document ≡ ok object
    pub in_namespace : u ≡ api.set_namespace settings.sveltos_namespace object

  deployment_object-IsApplied :
      (patches : List Patch) (order : Order) (c : Component) (template : String) (u : U)
      → component_template docs settings order c ≡ ok template
      → deployment_object docs api settings template s patches ≡ ok u
      → IsApplied patches c u
  unfolding deployment_object
  deployment_object-IsApplied patches order c template u h k =
      let (rendered, p, k1) = >>=-ok (render_document docs template s) _ k in
      let (document, q, k2) = >>=-ok (apply_shard_patches docs.patcher rendered patches) _ k1 in
      let (object, r, k3) = >>=-ok (docs.patcher.get_unstructured document) _ k2 in
      record {
        order = order;
        template = template;
        edited = component_template-IsEdited docs settings order c template h;
        rendered = rendered;
        instantiated = p;
        document = document;
        patched = apply_shard_patches-IsPatched docs.patcher patches rendered document q;
        object = object;
        decoded = r;
        in_namespace = cc;
      }

  deploy_component-IsApplied :
      (patches : List Patch) (c : Component) (w : W)
      → (deploy_component docs api settings s patches c w).0 ≡ none
      → (u : U) × IsApplied patches c u
        × (deploy_component docs api settings s patches c w ≡ api.apply u w)
  unfolding deploy_component deploy_deployment
  deploy_component-IsApplied patches c w z =
      elim (Result-cases (component_template docs settings (api.range w) c)) [
        | inr (e, h) ↦ let q = rw (deploy_component, h) at z in cc
        | inl (template, h) ↦
            elim (Result-cases (deployment_object docs api settings template s patches)) [
              | inr (e, k) ↦ let q = rw (deploy_component, h, deploy_deployment, k) at z in cc
              | inl (u, k) ↦ (
                u,
                deployment_object-IsApplied patches (api.range w) c template u h k,
                rw (deploy_component, h, deploy_deployment, k) refl,
              )
            ]
      ]

  deploy_controllers-err :
      (w : W) (e : Error)
      → (s == "") ≡ false
      → patches_at api settings w ≡ err e
      → deploy_controllers docs api settings s w ≡ (some e, w)
  unfolding deploy_controllers
  deploy_controllers-err w e h k = rw (h, k) refl

  deploy_controllers-ok :
      (w : W) (patches : List Patch)
      → (s == "") ≡ false
      → patches_at api settings w ≡ ok patches
      → deploy_controllers docs api settings s w
        ≡ for_each (deploy_component docs api settings s patches) components w
  unfolding deploy_controllers
  deploy_controllers-ok w patches h k = rw (h, k) refl

  -- If deployControllers returns nil for a shard that is not the empty key, it has read the patches and
  -- made one call of Apply for each component, in their order, and no other: on the object that the
  -- component's manifest comes to after its edits, instantiated for the shard, and after the patches,
  -- in the namespace of Sveltos.
  pub deploy_controllers-IsApplied :
      (w : W)
      → (s == "") ≡ false
      → (deploy_controllers docs api settings s w).0 ≡ none
      → (patches : List Patch) × (us : List U) × (patches_at api settings w ≡ ok patches)
        × All₂ (IsApplied patches) components us
        × (deploy_controllers docs api settings s w ≡ for_each api.apply us w)
  deploy_controllers-IsApplied w h z = elim (Result-cases (patches_at api settings w)) [
    | inr (e, k) ↦ let q = rw (deploy_controllers-err w e h k) at z in cc
    | inl (patches, k) ↦
        let f = deploy_controllers-ok w patches h k in
        let (us, a, q) =
          for_each-All₂ (deploy_component docs api settings s patches) api.apply (IsApplied patches)
            (deploy_component-IsApplied patches) components w (rw f at z) in
        (patches, us, k, a, f ∙ q)
  ]
