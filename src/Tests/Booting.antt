-- ===== src/Tests/Booting.antt =====
-- The theorems on main, its ConfigMap and its controllers, at a startup that succeeds.
use shard_controller.Prelude.{
  ◌≡◌, refl, Bool, true, ◌&&◌, not, String, Option, none, some, ℕ, string_eq, ◌==◌, any, All,
}
use shard_controller.Package.{zero_package}
use shard_controller.ConfigMaps.Watched.{Cache}
use shard_controller.Startup.Main.{
  Flags, init_flags, CacheOptions, Results, main, main_manager, main_end, set_up_config_map,
  setup_checks, settle,
}
use shard_controller.Controllers.{controllers_of}
use shard_controller.Controllers.Configured.{IsConfigured, main-IsConfigured}
use shard_controller.Startup.Order.{is_nil, is_start, is_exit, is_set_up, all_set, main-starts}

abbrev pub flags : Flags ℕ
flags = record (init_flags 20) { shard_components_config_map = "patches" }

abbrev pub results : Results
results = record {
  init_scheme = none;
  namespace = "projectsveltos";
  get_config = none;
  get_config_for_logs = none;
  new_manager = none;
  set_up = λ k. none;
  add_healthz_check = none;
  add_readyz_check = none;
  start = none;
}

main-starts_example :
    (any is_start (main flags results) ≡ all_set flags results)
    × (any is_exit (main flags results) ≡ not (all_set flags results && is_nil results.start))
main-starts_example = main-starts flags results

pub flags_set_up : any is_set_up (main flags results) ≡ true
unfolding main main_manager set_up_config_map main_end setup_checks init_flags
flags_set_up = refl

abbrev held : Option CacheOptions → String → String → Bool
held none namespace name = true
held (some o) namespace name = namespace == o.namespace && name == o.value

abbrev cache : Cache
cache = record { holds = held; holds_field = λ o namespace name h. refl }

main-IsConfigured_example :
    All
      (IsConfigured flags results (settle (main flags results) zero_package))
      (controllers_of (main flags results) zero_package)
main-IsConfigured_example = main-IsConfigured flags results zero_package flags_set_up
