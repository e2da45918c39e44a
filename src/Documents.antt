-- ===== src/Documents.antt =====
-- internal/controller/utils.go: the texts of the deployments on their way to the API server, in setOptions,
-- appendArgsToContainer, addDriftDetectionConfig, addClassifierConfigs and instantiateTemplate.
pub mod Reading
use shard_controller.Prelude.{String, List, [], ◌∷◌, ◌&&◌, string_eq, ◌==◌, if◌then◌else◌}
use mathlib.Core.List.{Perm}
use shard_controller.Errors.{Result, ok, ◌>>=◌}
use shard_controller.Manifest.{
  Deployment, set_deployment_options, append_args_to_container, classifier_args,
}
use shard_controller.Patches.{Patcher}
use shard_controller.Template.{text, uncovered, instantiate_template}

-- The decoders and encoders that the source calls, none of which is code of this repository. `U` is an
-- unstructured object, `R` what a Deployment has beside the fields that the source touches.
pub record Documents (U R : Type 0) : Type 0 where
  -- `k8s_utils.GetUnstructured`, `RunUnstructured` and the JSON of an object
  pub patcher : Patcher U
  -- `runtime.DefaultUnstructuredConverter.FromUnstructured` into a Deployment
  pub from_unstructured : U → Result (Deployment R)
  -- `json.NewEncoder(buffer).Encode(depl)`
  pub encode : Deployment R → Result String
  -- html/template on a template with `<` or with another action than {{.SHARD}}, and a shard key; a panic
  -- of `template.Must` is an error, since the callers do nothing after it that they would not do then
  pub other_template : String → String → Result String

-- The order in which Go ranges over a map, by its entries in the order of the writes.
pub record Order : Type 0 where
  pub ranged : List (String × String) → List (String × String)
  pub ranged-Perm : (entries : List (String × String)) → Perm (ranged entries) entries

module _ {U R : Type 0} (docs : Documents U R) where
  abbrev pub edit : (Deployment R → Deployment R) → String → Result String
  edit f document = do
    u ← docs.patcher.get_unstructured document
    deployment ← docs.from_unstructured u
    docs.encode (f deployment)

  unfoldable pub set_options : String → Result String
  set_options = edit set_deployment_options

  -- appendArgsToContainer, with the entries of the map in the order in which the loop reads them
  unfoldable pub append_args_to_document : String → List (String × String) → String → Result String
  append_args_to_document name entries = edit (append_args_to_container name entries)

  unfoldable pub add_drift_detection_config : String → String → Result String
  add_drift_detection_config config document =
      if config == ""
      then ok document
      else append_args_to_document "controller" (("--drift-detection-config", config) ∷ []) document

  unfoldable pub add_classifier_configs : Order → String → String → String → Result String
  add_classifier_configs order agent_config applier_config document =
      if agent_config == "" && applier_config == ""
      then ok document
      else append_args_to_document "manager"
          (order.ranged (classifier_args agent_config applier_config)) document

  -- instantiateTemplate, as the pair of a text and an error
  unfoldable pub render_document : String → String → Result String
  render_document template shard_key = elim (instantiate_template template shard_key) [
    | text document ↦ ok document
    | uncovered ↦ docs.other_template template shard_key
  ]
