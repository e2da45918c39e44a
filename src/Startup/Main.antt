-- ===== src/Startup/Main.antt =====
-- cmd/main.go: initFlags, getDiagnosticsOptions, configMapCacheOptions, getSveltosNamespace, setupChecks
-- and main. What main does is a list of actions, by the results of the calls that are not code of
-- this repository; os.Exit(1) ends it, also the one in GetConfigOrDie.
use shard_controller.Prelude.{
  ◌*◌, ℤ, pos, Bool, true, false, String, Option, none, some, List, [], ◌∷◌, string_eq, ◌==◌,
  if◌then◌else◌,
}
use shard_controller.Errors.{Error}
use shard_controller.Package.{Package, set_sveltos_namespace, set_shard_components_config_map}

-- The variables that the flags set. `F` is float32, and a duration is in nanoseconds.
pub record Flags (F : Type 0) : Type 0 where
  pub diagnostics_address : String
  pub insecure_diagnostics : Bool
  pub agent_in_mgmt_cluster : Bool
  pub drift_detection_config : String
  pub sveltos_agent_config : String
  pub sveltos_applier_config : String
  pub tmp_report_mode : ℤ
  pub health_addr : String
  pub shard_components_config_map : String
  pub rest_config_qps : F
  pub rest_config_burst : ℤ
  pub webhook_port : ℤ
  pub sync_period : ℤ

-- `controller.ReportMode` is an int; the conversion `controller.ReportMode(tmpReportMode)` keeps it.
abbrev pub ReportMode : Type 0
ReportMode = ℤ

abbrev pub collect_from_management_cluster : ReportMode
collect_from_management_cluster = pos 0

abbrev pub agent_send_reports_no_gateway : ReportMode
agent_send_reports_no_gateway = pos 1

-- The values after initFlags, which pflag.Parse then changes as the command line says. `twenty` is the
-- constant 20 as a float32.
unfoldable pub init_flags : {F : Type 0} → F → Flags F
init_flags twenty = record {
  diagnostics_address = ":8443";
  insecure_diagnostics = false;
  agent_in_mgmt_cluster = false;
  drift_detection_config = "";
  sveltos_agent_config = "";
  sveltos_applier_config = "";
  tmp_report_mode = collect_from_management_cluster;
  health_addr = ":9440";
  shard_components_config_map = "";
  rest_config_qps = twenty;
  rest_config_burst = pos 30;
  webhook_port = pos 9443;
  sync_period = pos (10 * 60000000000);
}

-- `metricsserver.Options`; the filter provider is authentication and authorization, or none.
pub record DiagnosticsOptions : Type 0 where
  pub bind_address : String
  pub secure_serving : Bool
  pub has_filter : Bool

unfoldable pub get_diagnostics_options : {F : Type 0} → Flags F → DiagnosticsOptions
get_diagnostics_options flags =
    if flags.insecure_diagnostics
    then record {
      bind_address = flags.diagnostics_address;
      secure_serving = false;
      has_filter = false;
    }
    else record {
      bind_address = flags.diagnostics_address;
      secure_serving = true;
      has_filter = true;
    }

-- The ConfigMaps that the cache is told to hold: those of one namespace that one field selects, with
-- the field and the value that it is to have. Without options it holds all.
pub record CacheOptions : Type 0 where
  pub namespace : String
  pub field : String
  pub value : String

unfoldable pub config_map_cache_options : String → String → Option CacheOptions
config_map_cache_options namespace config_map_name =
    if config_map_name == ""
    then none
    else some (record { namespace = namespace; field = "metadata.name"; value = config_map_name })

-- `ctrl.Options` with the rest configuration that NewManager takes
pub record ManagerOptions (F : Type 0) : Type 0 where
  pub metrics : DiagnosticsOptions
  pub health_probe_bind_address : String
  pub webhook_port : ℤ
  pub sync_period : ℤ
  pub by_object : Option CacheOptions
  pub qps : F
  pub burst : ℤ

pub data Kind : Type 0 where
  sveltos_cluster_reconciler config_map_reconciler : Kind

-- The options in a reconciler's fields.
pub record ReconcilerOptions : Type 0 where
  pub agent_in_mgmt_cluster : Bool
  pub drift_detection_config : String
  pub sveltos_agent_config : String
  pub sveltos_applier_config : String

pub data Action (F : Type 0) : Type 0 where
  init_maps : Action F
  set_namespace : String → Action F
  set_config_map : String → Action F
  new_manager : ManagerOptions F → Action F
  register_for_log_settings : Action F
  -- a reconciler, and its report mode if it has one
  set_up : Kind → ReconcilerOptions → Option ReportMode → Action F
  go_capi_watchers : ReconcilerOptions → ReportMode → Action F
  add_healthz_check : Action F
  add_readyz_check : Action F
  start_manager : Action F
  exit_1 : Action F

-- What the calls return that can end main; `none` is nil. `namespace` is the variable NAMESPACE of the
-- environment.
pub record Results : Type 0 where
  pub init_scheme : Option Error
  pub namespace : String
  pub get_config : Option Error
  pub get_config_for_logs : Option Error
  pub new_manager : Option Error
  pub set_up : Kind → Option Error
  pub add_healthz_check : Option Error
  pub add_readyz_check : Option Error
  pub start : Option Error

-- `if err != nil { os.Exit(1) }`
abbrev pub or_exit : {F : Type 0} → Option Error → List (Action F) → List (Action F)
or_exit none rest = rest
or_exit (some _) rest = exit_1 ∷ []

-- getSveltosNamespace of cmd/main.go, which exits if the variable NAMESPACE is empty or missing
abbrev pub with_sveltos_namespace :
    {F : Type 0} → String → (String → List (Action F)) → List (Action F)
with_sveltos_namespace namespace rest = if namespace == "" then exit_1 ∷ [] else rest namespace

unfoldable pub reconciler_options : {F : Type 0} → Flags F → ReconcilerOptions
reconciler_options flags = record {
  agent_in_mgmt_cluster = flags.agent_in_mgmt_cluster;
  drift_detection_config = flags.drift_detection_config;
  sveltos_agent_config = flags.sveltos_agent_config;
  sveltos_applier_config = flags.sveltos_applier_config;
}

unfoldable pub manager_options : {F : Type 0} → Flags F → String → ManagerOptions F
manager_options flags namespace = record {
  metrics = get_diagnostics_options flags;
  health_probe_bind_address = flags.health_addr;
  webhook_port = flags.webhook_port;
  sync_period = flags.sync_period;
  by_object = config_map_cache_options namespace flags.shard_components_config_map;
  qps = flags.rest_config_qps;
  burst = flags.rest_config_burst;
}

module _ {F : Type 0} (flags : Flags F) (results : Results) where
  unfoldable pub setup_checks : List (Action F) → List (Action F)
  setup_checks rest =
      add_healthz_check
      ∷ or_exit results.add_healthz_check (add_readyz_check ∷ or_exit results.add_readyz_check rest)

  -- from `go capiWatchers(…)` on
  unfoldable pub main_end : List (Action F)
  main_end =
      go_capi_watchers (reconciler_options flags) flags.tmp_report_mode
      ∷ setup_checks (start_manager ∷ or_exit results.start [])

  -- the block `if shardComponentsConfigMap != ""`
  unfoldable pub set_up_config_map : List (Action F) → List (Action F)
  set_up_config_map rest =
      if flags.shard_components_config_map == ""
      then rest
      else set_up config_map_reconciler (reconciler_options flags) none
        ∷ or_exit (results.set_up config_map_reconciler) rest

  -- from `ctrl.GetConfigOrDie()` on
  unfoldable pub main_manager : List (Action F)
  main_manager = or_exit results.get_config (
      new_manager (manager_options flags results.namespace)
      ∷ or_exit results.new_manager (
          or_exit results.get_config_for_logs (
            register_for_log_settings
            ∷ set_up sveltos_cluster_reconciler (reconciler_options flags)
                (some flags.tmp_report_mode)
            ∷ or_exit (results.set_up sveltos_cluster_reconciler) (set_up_config_map main_end))))

  unfoldable pub main : List (Action F)
  main = or_exit results.init_scheme (
      init_maps
      ∷ with_sveltos_namespace results.namespace λ namespace.
        set_namespace namespace ∷ set_config_map flags.shard_components_config_map ∷ main_manager)

-- What the actions leave in the package's variables.
unfoldable pub settle : {F : Type 0} → List (Action F) → Package → Package
settle [] p = p
settle (set_namespace ns ∷ rest) p = settle rest (set_sveltos_namespace ns p)
settle (set_config_map name ∷ rest) p = settle rest (set_shard_components_config_map name p)
settle (_ ∷ rest) p = settle rest p
