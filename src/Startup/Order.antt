-- ===== src/Startup/Order.antt =====
-- What main (cmd/main.go) comes to: when it starts the manager, when it exits, and what has been set by
-- then.
use shard_controller.Prelude.{
  ◌≡◌, Bool, true, false, ◌&&◌, ◌||◌, not, Option, none, some, List, ◌∷◌, arith, string_eq, ◌==◌,
  any,
}
use shard_controller.Errors.{Error}
use shard_controller.Package.{Package, set_sveltos_namespace, set_shard_components_config_map}
use shard_controller.Startup.Main.{
  Flags, sveltos_cluster_reconciler, config_map_reconciler, Action, init_maps, set_namespace,
  set_config_map, set_up, go_capi_watchers, start_manager, exit_1, Results, setup_checks, main_end,
  set_up_config_map, main_manager, main, settle,
}

abbrev pub is_nil : Option Error → Bool
is_nil none = true
is_nil (some _) = false

module _ {F : Type 0} where
  abbrev pub is_start : Action F → Bool
  is_start start_manager = true
  is_start _ = false

  abbrev pub is_exit : Action F → Bool
  is_exit exit_1 = true
  is_exit _ = false

  abbrev pub is_set_up : Action F → Bool
  is_set_up (set_up _ _ _) = true
  is_set_up (go_capi_watchers _ _) = true
  is_set_up _ = false

  abbrev pub watches_config_map : Action F → Bool
  watches_config_map (set_up config_map_reconciler _ _) = true
  watches_config_map _ = false

  module _ (flags : Flags F) (results : Results) where
    -- All calls up to the set up of the first reconciler return nil, and the environment has NAMESPACE.
    abbrev pub is_ready : Bool
    is_ready =
        is_nil results.init_scheme
        && not (results.namespace == "")
        && is_nil results.get_config
        && is_nil results.new_manager
        && is_nil results.get_config_for_logs

    -- And all other calls before the start of the manager.
    abbrev pub all_set : Bool
    all_set =
        is_ready
        && is_nil (results.set_up sveltos_cluster_reconciler)
        && (flags.shard_components_config_map == ""
            || is_nil (results.set_up config_map_reconciler))
        && is_nil results.add_healthz_check
        && is_nil results.add_readyz_check

    -- main starts the manager exactly if all calls before return nil and NAMESPACE is set, and it exits
    -- with 1 exactly if one of these fails or the manager returns an error.
    pub main-starts :
        (any is_start (main flags results) ≡ all_set)
        × (any is_exit (main flags results) ≡ not (all_set && is_nil results.start))
    unfolding main main_manager set_up_config_map main_end setup_checks
    main-starts = (ground arith, ground arith)

    abbrev opening : List (Action F) → List (Action F)
    opening rest =
        init_maps
        ∷ set_namespace results.namespace
        ∷ set_config_map flags.shard_components_config_map
        ∷ rest

    -- If main sets up a reconciler, or starts the goroutine that sets one up, it begins with the
    -- initialisation of the maps and with the settings of the package, and at its end these are the
    -- namespace of the environment and the ConfigMap of the flags, whatever they were before.
    pub main-set_up :
        (p : Package)
        → any is_set_up (main flags results) ≡ true
        → (rest : List (Action F)) × (main flags results ≡ opening rest)
          × (settle (main flags results) p ≡ record {
            sveltos_namespace = results.namespace;
            shard_components_config_map = flags.shard_components_config_map;
          })
    unfolding main main_manager set_up_config_map main_end setup_checks settle set_sveltos_namespace
        set_shard_components_config_map
    main-set_up p h = (main_manager flags results, ground arith, ground arith)

    -- The reconciler of the ConfigMap is set up exactly if all is well up to there and the flag names
    -- a ConfigMap.
    pub main-watches_config_map : any watches_config_map (main flags results) ≡ (
        is_ready
        && is_nil (results.set_up sveltos_cluster_reconciler)
        && not (flags.shard_components_config_map == ""))
    unfolding main main_manager set_up_config_map main_end setup_checks
    main-watches_config_map = ground arith
