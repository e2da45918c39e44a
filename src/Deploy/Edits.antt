-- ===== src/Deploy/Edits.antt =====
-- What a document goes through on its way to Apply (setOptions, addDriftDetectionConfig,
-- addClassifierConfigs, applyShardPatches in internal/controller/utils.go), whatever the decoders and the
-- patcher do.
use shard_controller.Prelude.{
  ◌≡◌, refl, sym, String, List, [], ◌∷◌, ◌++◌, ◌&&◌, string_eq, ◌==◌, if◌then◌else◌, Bool-cases,
  inl, inr,
}
use mathlib.Core.List.{append-nil}
use shard_controller.Errors.{ok, >>=-ok}
use shard_controller.Sharding.{
  Component, addon_controller, classifier, sveltoscluster_manager, event_manager,
  healthcheck_manager, get_template,
}
use shard_controller.Manifest.{Deployment, set_deployment_options, append_args_to_container}
use shard_controller.Patches.{Patch, Patcher, apply_shard_patches}
use shard_controller.Documents.{
  Documents, Order, edit, set_options, append_args_to_document, add_drift_detection_config,
  add_classifier_configs,
}
use shard_controller.Deploy.Options.{configs, classifier_args-with_value}
use shard_controller.Deploy.{Settings, with_options, component_template}

-- A document with the edits done in turn, each on the Deployment that the decoders find and written by
-- the encoder.
pub data IsEdited {U R : Type 0} (docs : Documents U R)
    : List (Deployment R → Deployment R) → String → String → Type 0 where
  unedited : {t : String} → IsEdited docs [] t t
  edited :
      {f : Deployment R → Deployment R} {fs : List (Deployment R → Deployment R)}
      {t t' t'' : String} (u : U) (d : Deployment R)
      → docs.patcher.get_unstructured t ≡ ok u
      → docs.from_unstructured u ≡ ok d
      → docs.encode (f d) ≡ ok t'
      → IsEdited docs fs t' t''
      → IsEdited docs (f ∷ fs) t t''

-- A document with the patches: as it was if there is none, or if the patcher returns no object, and
-- otherwise the JSON of its first object.
pub data IsPatched {U : Type 0} (patcher : Patcher U) (patches : List Patch) (document : String)
    : String → Type 0 where
  no_patches : patches ≡ [] → IsPatched patcher patches document document
  no_objects :
      (u : U)
      → patcher.get_unstructured document ≡ ok u
      → patcher.run_unstructured patches u ≡ ok []
      → IsPatched patcher patches document document
  first_object :
      {t : String} (u v : U) (rest : List U)
      → patcher.get_unstructured document ≡ ok u
      → patcher.run_unstructured patches u ≡ ok (v ∷ rest)
      → patcher.encode v ≡ ok t
      → IsPatched patcher patches document t

pub apply_shard_patches-IsPatched :
    {U : Type 0} (patcher : Patcher U) (patches : List Patch) (document t : String)
    → apply_shard_patches patcher document patches ≡ ok t
    → IsPatched patcher patches document t
unfolding apply_shard_patches
apply_shard_patches-IsPatched patcher [] document t h =
    let same : document ≡ t = cc in rw (sym same) (no_patches refl)
apply_shard_patches-IsPatched {U} patcher (p ∷ ps) document t h =
    let (u, e, h1) = >>=-ok (patcher.get_unstructured document) _ h in
    let (vs, k, h2) = >>=-ok (patcher.run_unstructured (p ∷ ps) u) _ h1 in go vs u e k h2
  where
    go :
        (vs : List U) (u : U)
        → patcher.get_unstructured document ≡ ok u
        → patcher.run_unstructured (p ∷ ps) u ≡ ok vs
        → (elim vs [ [] ↦ ok document | first ∷ _ ↦ patcher.encode first ]) ≡ ok t
        → IsPatched patcher (p ∷ ps) document t
    go [] u e k h = let same : document ≡ t = cc in rw (sym same) (no_objects u e k)
    go (v ∷ rest) u e k h = first_object u v rest e k h

module _ {R : Type 0} where
  -- The option --agent-in-mgmt-cluster, if the process has it.
  abbrev agent_edits : Settings → List (Deployment R → Deployment R)
  agent_edits settings = if settings.agent_in_mgmt_cluster then set_deployment_options ∷ [] else []

  -- The edits of each component's manifest, in their order.
  unfoldable pub edits : Settings → Order → Component → List (Deployment R → Deployment R)
  edits settings order addon_controller =
      agent_edits settings
      ++ (if settings.drift_detection_config == ""
          then []
          else append_args_to_container "controller"
              (("--drift-detection-config", settings.drift_detection_config) ∷ [])
            ∷ [])
  edits settings order classifier =
      agent_edits settings
      ++ (if settings.sveltos_agent_config == "" && settings.sveltos_applier_config == ""
          then []
          else append_args_to_container "manager"
              (order.ranged (configs settings.sveltos_agent_config settings.sveltos_applier_config))
            ∷ [])
  edits settings order sveltoscluster_manager = []
  edits settings order event_manager = agent_edits settings
  edits settings order healthcheck_manager = agent_edits settings

module _ {U R : Type 0} (docs : Documents U R) where
  unedited_of : (t t' : String) → t ≡ t' → IsEdited docs [] t t'
  unedited_of t t' h = rw (sym h) unedited

  edit-IsEdited :
      (f : Deployment R → Deployment R) (fs : List (Deployment R → Deployment R))
      (t t' t'' : String)
      → edit docs f t ≡ ok t'
      → IsEdited docs fs t' t''
      → IsEdited docs (f ∷ fs) t t''
  edit-IsEdited f fs t t' t'' h rest =
      let (u, e, h1) = >>=-ok (docs.patcher.get_unstructured t) _ h in
      let (d, k, h2) = >>=-ok (docs.from_unstructured u) _ h1 in edited u d e k h2 rest

  with_options-IsEdited :
      (settings : Settings) (c : Component) (fs : List (Deployment R → Deployment R))
      (t t' : String)
      → with_options docs settings c ≡ ok t
      → IsEdited docs fs t t'
      → IsEdited docs (agent_edits settings ++ fs) (get_template c) t'
  unfolding set_options
  with_options-IsEdited settings c fs t t' h rest =
      elim (Bool-cases settings.agent_in_mgmt_cluster) [
        | inl b ↦
            rw b (edit-IsEdited set_deployment_options fs (get_template c) t t' (rw b at h) rest)
        | inr b ↦ let same : get_template c ≡ t = (let k = rw b at h in cc) in rw (b, same) rest
      ]

  options-IsEdited :
      (settings : Settings) (c : Component) (t : String)
      → with_options docs settings c ≡ ok t
      → IsEdited docs (agent_edits settings) (get_template c) t
  options-IsEdited settings c t h =
      let k = with_options-IsEdited settings c [] t t h unedited in
      rw (append-nil (agent_edits {R = R} settings)) at k

  pub component_template-IsEdited :
      (settings : Settings) (order : Order) (c : Component) (t : String)
      → component_template docs settings order c ≡ ok t
      → IsEdited docs (edits settings order c) (get_template c) t
  unfolding component_template edits add_drift_detection_config add_classifier_configs
      append_args_to_document
  component_template-IsEdited settings order addon_controller t h =
      let (m, p, q) = >>=-ok (with_options docs settings addon_controller) _ h in
      with_options-IsEdited settings addon_controller _ m t p
        (elim (Bool-cases (settings.drift_detection_config == "")) [
          | inl b ↦ rw b (unedited_of m t (let k = rw b at q in cc))
          | inr b ↦ rw b (edit-IsEdited _ [] m t t (rw b at q) unedited)
        ])
  component_template-IsEdited settings order classifier t h =
      let (m, p, q) = >>=-ok (with_options docs settings classifier) _ h in
      with_options-IsEdited settings classifier _ m t p
        (elim (Bool-cases
          (settings.sveltos_agent_config == "" && settings.sveltos_applier_config == "")) [
            | inl b ↦ rw b (unedited_of m t (let k = rw b at q in cc))
            | inr b ↦
                rw
                  (
                    b,
                    sym (
                        classifier_args-with_value settings.sveltos_agent_config
                          settings.sveltos_applier_config),
                  )
                  (edit-IsEdited _ [] m t t (rw b at q) unedited)
          ])
  component_template-IsEdited settings order sveltoscluster_manager t h =
      unedited_of (get_template sveltoscluster_manager) t (cc)
  component_template-IsEdited settings order event_manager t h =
      options-IsEdited settings event_manager t h
  component_template-IsEdited settings order healthcheck_manager t h =
      options-IsEdited settings healthcheck_manager t h
