-- ===== src/Controllers/Configured.antt =====
-- The controllers that main (cmd/main.go) sets up: whose objects they accept, and what they deploy with.
use shard_controller.Prelude.{
  ◌≡◌, refl, Bool, true, false, ◌&&◌, String, Option, none, some, List, [], ◌∷◌, string_eq, ◌==◌,
  any, All, if◌then◌else◌,
}
use shard_controller.Errors.{Error}
use shard_controller.Package.{
  Package, set_sveltos_namespace, get_sveltos_namespace, set_shard_components_config_map,
  get_shard_components_config_map,
}
use shard_controller.Process.{GoType, cluster, sveltos_cluster}
use shard_controller.Deploy.{Settings}
use shard_controller.Startup.Main.{
  Flags, sveltos_cluster_reconciler, config_map_reconciler, Action, exit_1, Results, or_exit,
  set_up_config_map, reconciler_options, setup_checks, main_end, main_manager, main, settle,
}
use shard_controller.Startup.Order.{is_set_up, main-set_up}
use shard_controller.Controllers.{
  Watched, clusters, config_maps, Controller, settings_of, controllers_of, cluster_controller,
  config_map_controller,
}

module _ {F : Type 0} (flags : Flags F) (results : Results) where
  -- The settings of the flags and of the environment.
  abbrev pub own_settings : Settings
  own_settings = record {
    agent_in_mgmt_cluster = flags.agent_in_mgmt_cluster;
    drift_detection_config = flags.drift_detection_config;
    sveltos_agent_config = flags.sveltos_agent_config;
    sveltos_applier_config = flags.sveltos_applier_config;
    sveltos_namespace = results.namespace;
    shard_components_config_map = flags.shard_components_config_map;
  }

  -- Of the ConfigMaps the one of the flags in the namespace of the environment, and every cluster.
  unfoldable pub is_own : Watched → String → String → Bool
  is_own (clusters _) namespace name = true
  is_own config_maps namespace name =
      name == flags.shard_components_config_map && namespace == results.namespace

  abbrev pub IsConfigured : Package → Controller → Type 0
  IsConfigured now c =
      (settings_of now c.options ≡ own_settings)
      × ((namespace name : String) → c.accepts now namespace name ≡ is_own c.watched namespace name)

  abbrev own_package : Package
  own_package = record {
    sveltos_namespace = results.namespace;
    shard_components_config_map = flags.shard_components_config_map;
  }

  -- Those that the actions set up from the given values of the package's variables.
  abbrev ConfiguredFrom : Package → List (Action F) → Type 0
  ConfiguredFrom p actions = All (IsConfigured own_package) (controllers_of actions p)

  abbrev AllConfigured : List (Action F) → Type 0
  AllConfigured = ConfiguredFrom own_package

  or_exit-ConfiguredFrom :
      (p : Package) (e : Option Error) (rest : List (Action F))
      → ConfiguredFrom p rest
      → ConfiguredFrom p (or_exit e rest)
  unfolding controllers_of
  or_exit-ConfiguredFrom p none rest h = h
  or_exit-ConfiguredFrom p (some _) rest h = tt

  or_exit-AllConfigured :
      (e : Option Error) (rest : List (Action F))
      → AllConfigured rest
      → AllConfigured (or_exit e rest)
  or_exit-AllConfigured = or_exit-ConfiguredFrom own_package

  if-ConfiguredFrom :
      (p : Package) (b : Bool) (xs ys : List (Action F))
      → ConfiguredFrom p xs
      → ConfiguredFrom p ys
      → ConfiguredFrom p (if b then xs else ys)
  if-ConfiguredFrom p true xs ys h k = h
  if-ConfiguredFrom p false xs ys h k = k

  cluster-IsConfigured :
      (t : GoType) → IsConfigured own_package (cluster_controller t (reconciler_options flags))
  unfolding cluster_controller settings_of is_own get_sveltos_namespace
      get_shard_components_config_map reconciler_options
  cluster-IsConfigured t = (refl, λ namespace name. refl)

  config_map-IsConfigured :
      IsConfigured own_package (config_map_controller own_package (reconciler_options flags))
  unfolding config_map_controller settings_of is_own get_sveltos_namespace
      get_shard_components_config_map reconciler_options
  config_map-IsConfigured = (refl, λ namespace name. refl)

  main_end-AllConfigured : AllConfigured (main_end flags results)
  unfolding main_end setup_checks controllers_of
  main_end-AllConfigured = (
    cluster-IsConfigured cluster,
    or_exit-AllConfigured results.add_healthz_check _ (
        or_exit-AllConfigured results.add_readyz_check _
          (or_exit-AllConfigured results.start _ tt)),
  )

  set_up_config_map-AllConfigured :
      (rest : List (Action F))
      → AllConfigured rest
      → AllConfigured (set_up_config_map flags results rest)
  unfolding set_up_config_map controllers_of
  set_up_config_map-AllConfigured rest h =
      if-ConfiguredFrom own_package (flags.shard_components_config_map == "") rest _ h (
        config_map-IsConfigured,
        or_exit-AllConfigured (results.set_up config_map_reconciler) rest h,
      )

  main_manager-AllConfigured : AllConfigured (main_manager flags results)
  unfolding main_manager controllers_of
  main_manager-AllConfigured = or_exit-AllConfigured results.get_config _ (
      or_exit-AllConfigured results.new_manager _ (
        or_exit-AllConfigured results.get_config_for_logs _ (
          cluster-IsConfigured sveltos_cluster,
          or_exit-AllConfigured (results.set_up sveltos_cluster_reconciler) _
              (set_up_config_map-AllConfigured (main_end flags results) main_end-AllConfigured),
        )))

  main-AllConfigured :
      (p : Package) → All (IsConfigured own_package) (controllers_of (main flags results) p)
  unfolding main controllers_of set_sveltos_namespace set_shard_components_config_map
  main-AllConfigured p =
      or_exit-ConfiguredFrom p results.init_scheme _ (
        if-ConfiguredFrom p (results.namespace == "") (exit_1 ∷ []) _ tt main_manager-AllConfigured)

  -- If main sets up a reconciler or starts the goroutine that sets one up: every controller that it sets
  -- up deploys, from the settings that main has left on, with the options of the flags in the
  -- namespace of the environment and with the ConfigMap of the flags, and accepts every cluster and of
  -- the ConfigMaps the one of the flags in that namespace.
  pub main-IsConfigured :
      (p : Package)
      → any is_set_up (main flags results) ≡ true
      → All (IsConfigured (settle (main flags results) p)) (controllers_of (main flags results) p)
  main-IsConfigured p h =
      let (rest, e, q) = main-set_up flags results p h in rw q (main-AllConfigured p)
