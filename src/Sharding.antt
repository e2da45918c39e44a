-- ===== src/Sharding.antt =====
-- pkg/sharding/deployments.go: the five components of a shard and their manifest templates.
mod AddonController
mod Classifier
mod EventManager
mod HealthcheckManager
mod SveltosclusterManager
use shard_controller.Prelude.{String, List, [], ◌∷◌}
use AddonController.{addon_controller_template}
use Classifier.{classifier_template}
use EventManager.{event_manager_template}
use HealthcheckManager.{health_check_manager_template}
use SveltosclusterManager.{sveltos_cluster_manager_template}

pub data Component : Type 0 where
  addon_controller classifier sveltoscluster_manager event_manager healthcheck_manager : Component

-- GetAddonControllerTemplate, GetClassifierTemplate and the like
unfoldable pub get_template : Component → String
get_template addon_controller = addon_controller_template
get_template classifier = classifier_template
get_template sveltoscluster_manager = sveltos_cluster_manager_template
get_template event_manager = event_manager_template
get_template healthcheck_manager = health_check_manager_template

-- The order in which deployControllers and undeployControllers take them.
abbrev pub components : List Component
components =
    addon_controller ∷ classifier ∷ sveltoscluster_manager ∷ event_manager ∷ healthcheck_manager
    ∷ []
