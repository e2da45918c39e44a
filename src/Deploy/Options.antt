-- ===== src/Deploy/Options.antt =====
-- What the options of the process come to in the manifest of each component (deployControllers,
-- setOptions, addDriftDetectionConfig, addClassifierConfigs in internal/controller/utils.go), as a
-- reader of the documents sees it.
use shard_controller.Prelude.{
  ◌≡◌, refl, sym, Bool, true, ◌&&◌, String, List, [], ◌∷◌, arith, string_eq, ◌==◌, if◌then◌else◌,
  Bool-cases, inl, inr,
}
use mathlib.Core.List.Perm
use shard_controller.Errors.{ok, >>=-ok}
use shard_controller.Sharding.{
  Component, addon_controller, classifier, sveltoscluster_manager, event_manager,
  healthcheck_manager, get_template,
}
use shard_controller.Manifest.{
  Deployment, set_deployment_options, append_args, append_args_to_container, classifier_args,
}
use shard_controller.Documents.{
  Documents, Order, set_options, append_args_to_document, add_drift_detection_config,
  add_classifier_configs,
}
use shard_controller.Documents.Reading.{read, ReadsBack, edit-read, edit-ok}
use shard_controller.Deploy.{Settings, with_options, component_template}

-- The entries that have a value.
unfoldable pub with_value : List (String × String) → List (String × String)
with_value [] = []
with_value ((flag, value) ∷ entries) =
    let rest = with_value entries in if value == "" then rest else (flag, value) ∷ rest

-- The configurations of the classifier that are not empty.
abbrev pub configs : String → String → List (String × String)
configs agent applier =
    with_value (("--sveltos-agent-config", agent) ∷ ("--sveltos-applier-config", applier) ∷ [])

pub classifier_args-with_value :
    (agent applier : String) → classifier_args agent applier ≡ configs agent applier
unfolding classifier_args with_value
classifier_args-with_value agent applier = ground arith

module _ {R : Type 0} where
  -- The option --agent-in-mgmt-cluster, which the sveltoscluster-manager does not have.
  abbrev with_agent : Bool → Deployment R → Deployment R
  with_agent agent d = if agent then set_deployment_options d else d

  -- The edits of each component: a configuration that is empty adds no argument, and the two
  -- of the classifier come in the order in which the map of them is read.
  unfoldable pub component_edit : Settings → Order → Component → Deployment R → Deployment R
  component_edit settings order addon_controller d =
      append_args_to_container "controller"
        (("--drift-detection-config", settings.drift_detection_config) ∷ [])
        (with_agent settings.agent_in_mgmt_cluster d)
  component_edit settings order classifier d =
      append_args_to_container "manager"
        (order.ranged (
          with_value (
            ("--sveltos-agent-config", settings.sveltos_agent_config)
            ∷ ("--sveltos-applier-config", settings.sveltos_applier_config)
            ∷ [])))
        (with_agent settings.agent_in_mgmt_cluster d)
  component_edit settings order sveltoscluster_manager d = d
  component_edit settings order event_manager d = with_agent settings.agent_in_mgmt_cluster d
  component_edit settings order healthcheck_manager d = with_agent settings.agent_in_mgmt_cluster d

  append_empty :
      (name flag value : String) (d : Deployment R)
      → (value == "") ≡ true
      → append_args_to_container name ((flag, value) ∷ []) d ≡ d
  unfolding append_args_to_container append_args
  append_empty name flag value d h = ground arith

  append_none :
      (order : Order) (agent applier : String) (d : Deployment R)
      → (agent == "" && applier == "") ≡ true
      → append_args_to_container "manager" (order.ranged (configs agent applier)) d ≡ d
  unfolding append_args_to_container append_args with_value
  append_none order agent applier d h =
      let empty : configs agent applier ≡ [] = ground arith in
      let none_read : order.ranged [] ≡ [] = Perm.eq-nil (order.ranged-Perm []) in
      rw (empty, none_read) refl

module _ {U R : Type 0} (docs : Documents U R) (back : ReadsBack docs) where
  with_options-ok :
      (settings : Settings) (c : Component) (d : Deployment R)
      → read docs (get_template c) ≡ ok d
      → (t : String) × (with_options docs settings c ≡ ok t)
  unfolding set_options
  with_options-ok settings c d h = elim (Bool-cases settings.agent_in_mgmt_cluster) [
    | inl b ↦ rw b (edit-ok docs back set_deployment_options (get_template c) d h)
    | inr b ↦ rw b (get_template c, refl)
  ]

  with_options-read :
      (settings : Settings) (c : Component) (t : String) (d : Deployment R)
      → read docs (get_template c) ≡ ok d
      → with_options docs settings c ≡ ok t
      → read docs t ≡ ok (with_agent settings.agent_in_mgmt_cluster d)
  unfolding set_options
  with_options-read settings c t d h e = elim (Bool-cases settings.agent_in_mgmt_cluster) [
    | inl b ↦ rw b (edit-read docs back set_deployment_options (get_template c) t d h (rw b at e))
    | inr b ↦ rw b (let same : get_template c ≡ t = (let k = rw b at e in cc) in rw same at h)
  ]

  add_drift_detection_config-read :
      (config t t' : String) (d : Deployment R)
      → read docs t ≡ ok d
      → add_drift_detection_config docs config t ≡ ok t'
      → read docs t'
        ≡ ok (append_args_to_container "controller" (("--drift-detection-config", config) ∷ []) d)
  unfolding add_drift_detection_config append_args_to_document
  add_drift_detection_config-read config t t' d h e = elim (Bool-cases (config == "")) [
    | inl b ↦
        let same : t ≡ t' = (let k = rw b at e in cc) in
        rw (append_empty "controller" "--drift-detection-config" config d b) (rw same at h)
    | inr b ↦ edit-read docs back _ t t' d h (rw b at e)
  ]

  add_classifier_configs-read :
      (order : Order) (agent applier t t' : String) (d : Deployment R)
      → read docs t ≡ ok d
      → add_classifier_configs docs order agent applier t ≡ ok t'
      → read docs t'
        ≡ ok (append_args_to_container "manager" (order.ranged (configs agent applier)) d)
  unfolding add_classifier_configs append_args_to_document
  add_classifier_configs-read order agent applier t t' d h e =
      elim (Bool-cases (agent == "" && applier == "")) [
        | inl b ↦
            let same : t ≡ t' = (let k = rw b at e in cc) in
            rw (append_none order agent applier d b) (rw same at h)
        | inr b ↦
            rw (sym (classifier_args-with_value agent applier))
              (edit-read docs back _ t t' d h (rw b at e))
      ]

  component_template-ok :
      (settings : Settings) (order : Order) (c : Component) (d : Deployment R)
      → read docs (get_template c) ≡ ok d
      → (t : String) × (component_template docs settings order c ≡ ok t)
  unfolding component_template add_drift_detection_config add_classifier_configs
      append_args_to_document
  component_template-ok settings order addon_controller d h =
      let (m, p) = with_options-ok settings addon_controller d h in
      let k = with_options-read settings addon_controller m d h p in
      rw p (elim (Bool-cases (settings.drift_detection_config == "")) [
        | inl b ↦ rw b (m, refl)
        | inr b ↦ rw b (edit-ok docs back _ m _ k)
      ])
  component_template-ok settings order classifier d h =
      let (m, p) = with_options-ok settings classifier d h in
      let k = with_options-read settings classifier m d h p in
      rw p
        (elim (Bool-cases
          (settings.sveltos_agent_config == "" && settings.sveltos_applier_config == "")) [
            | inl b ↦ rw b (m, refl)
            | inr b ↦ rw b (edit-ok docs back _ m _ k)
          ])
  component_template-ok settings order sveltoscluster_manager d h =
      (get_template sveltoscluster_manager, refl)
  component_template-ok settings order event_manager d h =
      with_options-ok settings event_manager d h
  component_template-ok settings order healthcheck_manager d h =
      with_options-ok settings healthcheck_manager d h

  template-read :
      (settings : Settings) (order : Order) (c : Component) (t : String) (d : Deployment R)
      → read docs (get_template c) ≡ ok d
      → component_template docs settings order c ≡ ok t
      → read docs t ≡ ok (component_edit settings order c d)
  unfolding component_template component_edit
  template-read settings order addon_controller t d h e =
      let (m, p, q) = >>=-ok (with_options docs settings addon_controller) _ e in
      add_drift_detection_config-read settings.drift_detection_config m t _
        (with_options-read settings addon_controller m d h p) q
  template-read settings order classifier t d h e =
      let (m, p, q) = >>=-ok (with_options docs settings classifier) _ e in
      add_classifier_configs-read order settings.sveltos_agent_config
        settings.sveltos_applier_config m t _ (with_options-read settings classifier m d h p) q
  template-read settings order sveltoscluster_manager t d h e =
      let same : get_template sveltoscluster_manager ≡ t = cc in rw same at h
  template-read settings order event_manager t d h e =
      with_options-read settings event_manager t d h e
  template-read settings order healthcheck_manager t d h e =
      with_options-read settings healthcheck_manager t d h e

  -- If the encoder writes every Deployment, the decoders read what it writes, and they read a
  -- component's manifest, then deployControllers makes a document of it, and this document holds the
  -- Deployment of the manifest with the edits of the component: the option for the agent if it is set,
  -- but not for the sveltoscluster-manager; the configuration for drift detection in the
  -- addon-controller, and those of agent and applier in the classifier, each if it is not empty,
  -- in the order in which the map of them is read, which may be any.
  pub component_template-read :
      (settings : Settings) (order : Order) (c : Component) (d : Deployment R)
      → read docs (get_template c) ≡ ok d
      → (t : String) × (component_template docs settings order c ≡ ok t)
        × (read docs t ≡ ok (component_edit settings order c d))
  component_template-read settings order c d h =
      let (t, e) = component_template-ok settings order c d h in
      (t, e, template-read settings order c t d h e)
