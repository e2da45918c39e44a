-- ===== src/Package.antt =====
-- internal/controller/management_cluster.go and the setters of internal/controller/utils.go: the
-- package's variables that are written once, at startup.
use shard_controller.Prelude.{String}

pub record Package : Type 0 where
  pub sveltos_namespace : String
  pub shard_components_config_map : String

-- before anything is set: Go's zero values
unfoldable pub zero_package : Package
zero_package = record { sveltos_namespace = ""; shard_components_config_map = "" }

unfoldable pub set_sveltos_namespace : String → Package → Package
set_sveltos_namespace ns p = record p { sveltos_namespace = ns }

unfoldable pub get_sveltos_namespace : Package → String
get_sveltos_namespace p = p.sveltos_namespace

unfoldable pub set_shard_components_config_map : String → Package → Package
set_shard_components_config_map name p = record p { shard_components_config_map = name }

unfoldable pub get_shard_components_config_map : Package → String
get_shard_components_config_map p = p.shard_components_config_map
