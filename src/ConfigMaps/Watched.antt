-- ===== src/ConfigMaps/Watched.antt =====
-- The ConfigMap that is cached (configMapCacheOptions, cmd/main.go), the one whose events come to a
-- Reconcile (internal/controller/configmap_controller.go) and the one that is read for its patches
-- (getShardComponentsPatches, internal/controller/utils.go).
use shard_controller.Prelude.{
  ◌≡◌, Bool, ◌&&◌, String, Option, none, some, List, [], ◌∷◌, string_eq, ◌==◌,
}
use shard_controller.Package.{Package}
use shard_controller.Startup.Main.{Action, new_manager, ManagerOptions, CacheOptions}

-- The cache of controller-runtime, which is not code of this repository: which ConfigMaps it holds, by
-- namespace and name. Options for a namespace and a field restrict it to the objects of the namespace
-- whose field has the value.
pub record Cache : Type 0 where
  pub holds : Option CacheOptions → String → String → Bool
  pub holds_field :
      (o : CacheOptions) (namespace name : String)
      → o.field ≡ "metadata.name"
      → holds (some o) namespace name ≡ (namespace == o.namespace && name == o.value)

-- The options of the manager that the actions make.
unfoldable pub manager_of : {F : Type 0} → List (Action F) → Option (ManagerOptions F)
manager_of [] = none
manager_of (new_manager options ∷ rest) = some options
manager_of (_ ∷ rest) = manager_of rest
