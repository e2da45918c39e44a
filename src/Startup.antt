-- ===== src/Startup.antt =====
-- cmd/main.go: the goroutine capiWatchers with isCAPIInstalled, and capiCRDHandler.
-- Below it, Main has main with its flags and options.
pub mod Watchers
pub mod Main
pub mod Order
use shard_controller.Prelude.{
  ℕ, suc, Bool, true, false, ◌&&◌, String, Option, none, some, List, [], ◌∷◌, string_eq, ◌==◌,
  if◌then◌else◌, ltb,
}
use shard_controller.Errors.{Error, is_not_found, Result, ok, err}
use shard_controller.Process.{Gvk}

-- An entry of `Spec.Versions` of a CustomResourceDefinition.
pub record CrdVersion : Type 0 where
  pub name : String
  pub served : Bool

-- `clusterv1.GroupVersion`, a constant of Cluster API.
pub record GroupVersion : Type 0 where
  pub group : String
  pub version : String

module _ (group_version : GroupVersion) where
  unfoldable pub has_served : List CrdVersion → Bool
  has_served [] = false
  has_served (v ∷ versions) =
      let rest = has_served versions in
      if v.name == group_version.version && v.served then true else rest

  -- isCAPIInstalled, by what Get of the CRD of clusters answers
  unfoldable pub is_capi_installed : Result (List CrdVersion) → Result Bool
  is_capi_installed (ok versions) = ok (has_served versions)
  is_capi_installed (err e) = if is_not_found e then ok false else err e

-- `crd.ChangeType` of libsveltos, as far as the source tells its values apart.
pub data ChangeType : Type 0 where
  modify : ChangeType
  other_change : ChangeType

-- capiCRDHandler: whether the process sends itself SIGTERM
unfoldable pub capi_crd_handler : GroupVersion → Gvk → ChangeType → Bool
capi_crd_handler group_version gvk modify = false
capi_crd_handler group_version gvk other_change =
    gvk.group == group_version.group && gvk.version == group_version.version

-- What one turn of the loop of capiWatchers does.
pub data Turn : Type 0 where
  -- logs the error and sleeps for a second
  slept : Turn
  -- goes on at once
  went_on : Turn
  started_crd_watcher : Turn
  set_up_reconciler : Turn
  exited : Turn

-- `SetupWithManager` is wiring of controller-runtime; its error is an argument.
abbrev pub decided : Bool → Option Error → Turn
decided false set_up = started_crd_watcher
decided true none = set_up_reconciler
decided true (some _) = exited

abbrev pub max_retries : ℕ
max_retries = 20

-- capiWatchers from `retries` on, along the answers of isCAPIInstalled; it is still in the loop where
-- they end without a decision.
unfoldable pub capi_watchers : Option Error → ℕ → List (Result Bool) → List Turn
capi_watchers set_up retries [] = []
capi_watchers set_up retries (ok present ∷ answers) = decided present set_up ∷ []
capi_watchers set_up retries (err e ∷ answers) =
    (if ltb retries max_retries then slept else went_on)
    ∷ capi_watchers set_up (suc retries) answers
