-- ===== src/Tests/Removing.antt =====
-- The theorems on calls that fail, and on a restart, in a management cluster in which every removal is
-- done, and all removals return the same.
use shard_controller.Prelude.{
  ◌≡◌, ◌≢◌, refl, String, Option, none, some, List, [], ◌∷◌, arith, inl, ◌==◌, string_eq,
  if◌then◌else◌, lookup,
}
use shard_controller.Errors.{Error, failure}
use shard_controller.Reference.{ObjectReference, reference_eq}
use shard_controller.Shards.{Shards}
use shard_controller.Tracker.{State, init_maps, track_cluster}
use shard_controller.Tracker.Views.{shard_of, is_member, size}
use shard_controller.Tracker.Consistency.{IsSound}
use shard_controller.Tracker.Runs.{tracks, stops, perform, run}
use shard_controller.Tracker.Serving.{Removes, IsServing}
use shard_controller.Tracker.Restart.{run_restart}
use shard_controller.Tracker.Overtaken.{track_cluster_overtaken}
use shard_controller.Redeploy.Race.{System, reconciles, here, next}
use shard_controller.Redeploy.Serving.{IsServingSystem, Steps-IsServing}
use shard_controller.Tests.Sets.{list_set}
use shard_controller.Tests.Clusters.{
  Fleet, mem, without, mem-without, IsName, IsUp, IsDown, deploy, deploy-empty, deploy-IsUp,
  deploy_other, deploy_keeps_IsUp, fleet,
}
use shard_controller.Tracker.Healthy.{Healthy-IsInStep}
use shard_controller.Tests.Tracking.{alpha, beta, one, running_code, Healthy-one}

remove : Option Error → String → Fleet → Option Error × Fleet
remove e s w = if s == "" then (none, w) else (e, record w { up = without s w.up })

remove-empty : (e : Option Error) (w : Fleet) → remove e "" w ≡ (none, w)
unfolding remove
remove-empty e w = ground (arith, string_eq.beq_iff "" "")

remove-IsDown : (e : Option Error) (s : String) (w : Fleet) → IsName s → IsDown s (remove e s w).1
unfolding remove
remove-IsDown e s w k = ground (arith, mem-without s s w.up, string_eq.beq_iff s s)

remove_other :
    (e : Option Error) (s t : String) (w : Fleet) → s ≢ t → mem (remove e s w).1.up t ≡ mem w.up t
unfolding remove
remove_other e s t w ne = ground (arith, mem-without s t w.up, string_eq.beq_iff s t)

remove_keeps_IsDown :
    (e : Option Error) (s t : String) (w : Fleet) → IsDown t w → IsDown t (remove e s w).1
unfolding remove
remove_keeps_IsDown e s t w h = ground (arith, mem-without s t w.up)

unfoldable removing : Option Error → Shards Fleet
unfolding remove without
removing e = record {
  deploy = deploy;
  undeploy = remove e;
  IsKey = IsName;
  Running = IsUp;
  Gone = IsDown;
  deploy-empty = deploy-empty;
  undeploy-empty = remove-empty e;
  deploy-Running = deploy-IsUp;
  undeploy-Gone = λ s w k n. remove-IsDown e s w k;
  deploy_keeps_Running = λ s t w k kt h. deploy_keeps_IsUp s t w h;
  deploy_keeps_Gone = λ s t w k kt ne h. rw (deploy_other s t w ne) h;
  undeploy_keeps_Running = λ s t w k kt ne h. rw (remove_other e s t w ne) h;
  undeploy_keeps_Gone = λ s t w k kt h. remove_keeps_IsDown e s t w h;
}

obedient : Shards Fleet
unfolding removing
obedient = removing none

obedient-Removes : Removes obedient
unfolding obedient remove
obedient-Removes = record { undeploy-nil = λ s w a. ground arith }

-- The deployment of s1 fails.
abbrev empty : State (List ObjectReference) Fleet
empty = record { maps = init_maps; world = record { up = []; stubborn = "s1" ∷ [] } }

abbrev initial : System (List ObjectReference) Fleet
initial = record { state = empty; pending = [] }

initial-IsServingSystem : IsServingSystem obedient initial
unfolding init_maps shard_of is_member size lookup
initial-IsServingSystem = record {
  sound = record { owned = λ s c e. cc };
  annotated = record { annotation = λ d s e. cc };
  listed = λ k m. cc;
  serving = record { serving = λ t key p. absurd (p refl) };
}

Steps-IsServing_example :
    IsServing obedient (perform obedient (tracks alpha "s1") empty).1
    × IsSound (perform obedient (tracks alpha "s1") empty).1.maps
unfolding obedient
Steps-IsServing_example =
    Steps-IsServing obedient obedient-Removes {s = initial} initial-IsServingSystem
      (next here (reconciles (tracks alpha "s1"))) (tt, inl refl)

-- A process starts where s1 runs.
abbrev started : State (List ObjectReference) Fleet
started = record { maps = init_maps; world = record { up = "s1" ∷ []; stubborn = [] } }

run_restart_example :
    (size "s1" (run fleet (tracks alpha "s2" ∷ stops alpha ∷ []) started).1.maps ≡ 0)
    × fleet.Running "s1" (run fleet (tracks alpha "s2" ∷ stops alpha ∷ []) started).1.world
unfolding fleet mem
run_restart_example =
    run_restart fleet "s1" refl (λ e. ground (arith, string_eq.beq_iff "s1" ""))
      (tracks alpha "s2" ∷ stops alpha ∷ []) started refl (inl refl, (tt, tt))
      ((λ e. ground (arith, string_eq.beq_iff "s2" "s1")), (tt, tt)) refl

-- Removals are done and return an error.
late : Shards Fleet
unfolding removing
late = removing (some (failure "timeout"))

one-IsSound : IsSound one.maps
one-IsSound = (Healthy-IsInStep fleet Healthy-one).consistent.sound

track_cluster_overtaken_example :
    ((track_cluster late alpha "s2" one).0 ≡ some (failure "timeout"))
    × ((track_cluster late beta "s1" (track_cluster late alpha "s2" one).1).0 ≡ none)
    × ((track_cluster late alpha "s2"
          (track_cluster late beta "s1" (track_cluster late alpha "s2" one).1).1).0
        ≡ none)
    × (size "s1"
          (track_cluster late alpha "s2"
            (track_cluster late beta "s1" (track_cluster late alpha "s2" one).1).1).1.maps
        ≢ 0)
    × late.Gone "s1"
        (track_cluster late alpha "s2"
          (track_cluster late beta "s1" (track_cluster late alpha "s2" one).1).1).1.world
unfolding running_code late remove shard_of
track_cluster_overtaken_example =
    track_cluster_overtaken late alpha beta "s1" "s2"
      (λ e. ground (arith, string_eq.beq_iff "s1" "s2")) one one-IsSound refl refl refl refl
      (inl refl) refl refl refl
