-- ===== src/Patches.antt =====
-- internal/controller/utils.go: getPatchesFromConfigMap, getShardComponentsPatches and
-- applyShardPatches.
pub mod Parsed
use shard_controller.Prelude.{
  String, Option, none, some, List, [], ◌∷◌, string_eq, ◌==◌, if◌then◌else◌, concat,
}
use shard_controller.Errors.{Error, failure, is_not_found, Result, ok, err, ◌>>=◌}

-- `libsveltosv1beta1.PatchSelector` and `Patch`: the fields that the source sets, the rest as one value.
pub record PatchSelector : Type 0 where
  pub kind : String
  pub group : String
  pub other : String

pub record Patch : Type 0 where
  pub patch : String
  pub target : Option PatchSelector

pub record ConfigMap : Type 0 where
  pub name : String
  -- the entries of `Data`, in the order in which `range` yields them
  pub entries : List (String × String)

-- `&libsveltosv1beta1.PatchSelector{Kind: "Deployment", Group: "apps"}`
abbrev pub default_target : PatchSelector
default_target = record { kind = "Deployment"; group = "apps"; other = "" }

-- `if p.Target == nil { p.Target = … }`
unfoldable pub with_target : Patch → Patch
with_target p = elim p.target [ none ↦ record p { target = some default_target } | some _ ↦ p ]

-- `unmarshal` is `yaml.Unmarshal` into a Patch, which is not code of this repository.
module _ (unmarshal : String → Result Patch) where
  -- the body of the loop of getPatchesFromConfigMap
  unfoldable pub parse_patch : String → String × String → Result Patch
  parse_patch config_map (key, value) = do
    p ← unmarshal value
    if p.patch == ""
        then err (
            failure (
              concat "ConfigMap " (
                concat config_map (concat ": value of key " (concat key " is not a valid Patch")))))
        else ok (with_target p)

  -- the loop, from some entry on
  unfoldable pub parse_entries : String → List (String × String) → Result (List Patch)
  parse_entries config_map [] = ok []
  parse_entries config_map (entry ∷ entries) =
      let rest = parse_entries config_map entries in
      do p ← parse_patch config_map entry; ps ← rest; ok (p ∷ ps)

  unfoldable pub get_patches_from_config_map : ConfigMap → Result (List Patch)
  get_patches_from_config_map config_map = parse_entries config_map.name config_map.entries

  -- `get` is `c.Get` of the ConfigMap `configMapName` in the Sveltos namespace.
  unfoldable pub get_shard_components_patches : String → Result ConfigMap → Result (List Patch)
  get_shard_components_patches config_map_name get =
      if config_map_name == "" then ok [] else elim get [
        | ok config_map ↦ get_patches_from_config_map config_map
        | err e ↦ if is_not_found e then ok [] else err e
      ]

-- What applyShardPatches calls: `k8s_utils.GetUnstructured`, the patcher of libsveltos and the JSON
-- encoder of an unstructured object. None of it is code of this repository.
pub record Patcher (U : Type 0) : Type 0 where
  pub get_unstructured : String → Result U
  pub run_unstructured : List Patch → U → Result (List U)
  pub encode : U → Result String

unfoldable pub apply_shard_patches : {U : Type 0} → Patcher U → String → List Patch → Result String
apply_shard_patches patcher deployment [] = ok deployment
apply_shard_patches patcher deployment (p ∷ ps) = do
  u ← patcher.get_unstructured deployment
  patched ← patcher.run_unstructured (p ∷ ps) u
  elim patched [ [] ↦ ok deployment | first ∷ _ ↦ patcher.encode first ]
