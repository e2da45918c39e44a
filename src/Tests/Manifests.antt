-- ===== src/Tests/Manifests.antt =====
-- The theorems on manifests, options and patches at concrete ones.
use shard_controller.Prelude.{◌≡◌, refl, String, none, some, List, [], ◌∷◌, map, string_eq, All₂}
use shard_controller.Errors.{Result, ok}
use shard_controller.Sharding.{classifier, get_template}
use shard_controller.Template.{text, action, escape, instantiate_template}
use shard_controller.Template.Pieces.{is_text, join, instantiate_template-join}
use shard_controller.Template.Manifests.{manifest_pieces, instantiate_template-get_template}
use shard_controller.Manifest.{
  Container, Deployment, set_deployment_options, append_args_to_container,
}
use shard_controller.Manifest.Options.{HasOption, set_deployment_options-HasOption}
use shard_controller.Manifest.Args.{extended, rendered, append_args_to_container-extended}
use shard_controller.Patches.{
  Patch, default_target, ConfigMap, with_target, parse_patch, parse_entries,
  get_patches_from_config_map,
}
use shard_controller.Patches.Parsed.{IsParsed, get_patches_from_config_map-IsParsed}

instantiate_template-join_example :
    instantiate_template (join action ("name: a-" ∷ " {x}\n" ∷ [])) "b+c"
    ≡ text (join (escape "b+c") ("name: a-" ∷ " {x}\n" ∷ []))
unfolding is_text
instantiate_template-join_example =
    instantiate_template-join ("name: a-" ∷ " {x}\n" ∷ []) "b+c" (refl, (refl, tt))

instantiate_template-get_template_example :
    (join action (manifest_pieces classifier) ≡ get_template classifier)
    × (instantiate_template (get_template classifier) "blue"
        ≡ text (join (escape "blue") (manifest_pieces classifier)))
instantiate_template-get_template_example = instantiate_template-get_template classifier "blue"

abbrev manager : Container String
manager = record {
  name = "manager";
  args = "--agent-in-mgmt-cluster=false" ∷ "--shard-key=blue" ∷ [];
  other = "";
}

abbrev deployment : Deployment String
deployment = record { containers = manager ∷ []; init_containers = []; other = "" }

set_deployment_options-HasOption_example :
    All₂ HasOption deployment.containers (set_deployment_options deployment).containers
    × All₂ HasOption deployment.init_containers (set_deployment_options deployment).init_containers
    × ((set_deployment_options deployment).other ≡ deployment.other)
set_deployment_options-HasOption_example = set_deployment_options-HasOption deployment

abbrev config_args : List (String × String)
config_args = ("--sveltos-agent-config", "a") ∷ ("--sveltos-applier-config", "b") ∷ []

append_args_to_container-extended_example :
    append_args_to_container "manager" config_args deployment ≡ record deployment {
      containers = map (extended "manager" (rendered config_args)) deployment.containers;
    }
append_args_to_container-extended_example =
    append_args_to_container-extended "manager" config_args deployment

-- A decoder for which a text is the patch itself.
unfoldable unmarshal : String → Result Patch
unmarshal value = ok (record { patch = value; target = none })

abbrev config_map : ConfigMap
config_map = record { name = "patches"; entries = ("a", "remove: x") ∷ [] }

abbrev patches : List Patch
patches = record { patch = "remove: x"; target = some default_target } ∷ []

get_patches_from_config_map-IsParsed_example : All₂ (IsParsed unmarshal) config_map.entries patches
unfolding unmarshal get_patches_from_config_map parse_entries parse_patch with_target
get_patches_from_config_map-IsParsed_example =
    get_patches_from_config_map-IsParsed unmarshal config_map patches refl
