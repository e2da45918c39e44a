-- ===== src/Tests/Tracking.antt =====
-- The theorems on the tracking of clusters at concrete clusters, shards and failures.
use shard_controller.Prelude.{
  ◌≡◌, ◌≢◌, refl, String, Option, none, some, List, [], ◌∷◌, false, arith, inl, lookup, insert,
  delete, string_eq,
}
use shard_controller.Errors.{Error}
use shard_controller.Reference.{ObjectReference, reference_eq}
use shard_controller.Tracker.{
  State, init_maps, track_cluster, stop_tracking_cluster, is_last, is_idle, erase_from, add_to,
  forget, leave_shard, join_shard, drop_member,
}
use shard_controller.Tracker.Views.{shard_of, is_member, size}
use shard_controller.Tracker.Consistency.{IsSound, IsConsistent}
use shard_controller.Tracker.Sync.{IsSynced}
use shard_controller.Prelude.{◌≤◌}
use shard_controller.Tracker.Bounds.{tracked_in, run-tracked_in}
use shard_controller.Tracker.Runs.{
  Event, tracks, stops, perform, run, assign_all, run-assign_all, run-IsSound,
}
use shard_controller.Tracker.Healthy.{Healthy, started, called, IsInStep, Healthy-IsInStep}
use shard_controller.Tracker.Attempts.{Attempts, first, failed, waited, track_cluster_eventually}
use shard_controller.Tracker.Failures.{stop_tracking_cluster_failure, track_cluster_revert}
use shard_controller.Tests.Sets.{list_set}
use shard_controller.Tests.Clusters.{Fleet, fleet, mem}

abbrev pub alpha : ObjectReference
alpha = record { namespace = "default"; name = "alpha"; kind = "Cluster"; api_version = "v1beta2" }

abbrev pub beta : ObjectReference
beta = record {
  namespace = "default";
  name = "beta";
  kind = "SveltosCluster";
  api_version = "v1beta1";
}

abbrev pub Clusters : Type 0
Clusters = State (List ObjectReference) Fleet

abbrev quiet : Fleet
quiet = record { up = []; stubborn = [] }

abbrev pub fresh : Clusters
fresh = record { maps = init_maps; world = quiet }

-- Both clusters join, one moves, one leaves.
abbrev script : List Event
script = tracks alpha "s1" ∷ tracks beta "s1" ∷ tracks alpha "s2" ∷ stops beta ∷ []

run-script : (run fleet script fresh).1.world.up ≡ "s2" ∷ []
unfolding run perform track_cluster leave_shard join_shard stop_tracking_cluster drop_member is_idle
    is_last erase_from add_to forget init_maps lookup insert delete list_set fleet
run-script = refl

-- Opened together: what a run of the tracking computes through.
unfoldable pub running_code : Clusters → List (Option Error) × Clusters
unfolding run perform track_cluster leave_shard join_shard stop_tracking_cluster drop_member is_idle
    is_last erase_from add_to forget init_maps lookup insert delete list_set fleet
running_code = run fleet script

run-assign_all_example :
    shard_of alpha (run fleet script fresh).1.maps
    ≡ assign_all script (run fleet script fresh).0 (λ k. shard_of k fresh.maps) alpha
run-assign_all_example = run-assign_all fleet script fresh alpha

fresh-IsSound : IsSound fresh.maps
unfolding running_code is_member
fresh-IsSound = record { owned = λ s c e. cc }

run-tracked_in_example :
    size "s1" (run fleet script fresh).1.maps ≤ tracked_in "s1" (run fleet script fresh).1.maps
run-tracked_in_example = run-tracked_in fleet script fresh "s1" fresh-IsSound

run-IsSound_example : IsSound (run fleet script fresh).1.maps
run-IsSound_example = run-IsSound fleet script fresh fresh-IsSound

abbrev pub one : Clusters
one = (perform fleet (tracks alpha "s1") fresh).1

pub Healthy-one : Healthy fleet one
unfolding running_code
Healthy-one = called (started quiet (λ t key. refl)) (tracks alpha "s1") (inl refl) refl

Healthy-IsInStep_example : IsInStep fleet one
Healthy-IsInStep_example = Healthy-IsInStep fleet Healthy-one

-- The deployment of s2 fails once.
abbrev broken : Clusters
broken = record one { world = record one.world { stubborn = "s2" ∷ [] } }

broken-IsInStep : IsInStep fleet broken
unfolding fleet
broken-IsInStep = record {
  annotated = record { annotation = (Healthy-IsInStep fleet Healthy-one).annotated.annotation };
  consistent = (Healthy-IsInStep fleet Healthy-one).consistent;
  synced = record {
    served = λ t key. record {
      running = ((Healthy-IsInStep fleet Healthy-one).synced.served t key).running;
      gone = ((Healthy-IsInStep fleet Healthy-one).synced.served t key).gone;
    };
  };
}

abbrev stopped : Clusters
stopped = (track_cluster fleet alpha "s2" broken).1

abbrev mended : Clusters
mended = record stopped { world = record stopped.world { stubborn = [] } }

mended-Attempts : Attempts fleet alpha "s2" broken mended
unfolding running_code
mended-Attempts = waited (failed first refl) _ (λ k key. ((λ h. h), (λ h. h)))

broken_elsewhere : shard_of alpha broken.maps ≢ some "s2"
unfolding running_code shard_of
broken_elsewhere e = ground (arith, string_eq.beq_iff "s1" "s2")

track_cluster_eventually_example :
    IsConsistent (track_cluster fleet alpha "s2" mended).1.maps
    × (shard_of alpha (track_cluster fleet alpha "s2" mended).1.maps ≡ some "s2")
    × IsSynced fleet (track_cluster fleet alpha "s2" mended).1
unfolding running_code
track_cluster_eventually_example =
    track_cluster_eventually fleet alpha "s2" (inl refl) broken mended broken-IsInStep
      broken_elsewhere mended-Attempts refl

track_cluster_revert_example :
    (track_cluster fleet alpha "s1" stopped ≡ (none, stopped))
    × (shard_of alpha stopped.maps ≡ some "s1")
    × (mem stopped.world.up "s1" ≡ false)
unfolding running_code shard_of
track_cluster_revert_example =
    track_cluster_revert fleet alpha "s1" "s2" broken refl (inl refl)
      (λ e. ground (arith, string_eq.beq_iff "s1" "s2")) refl refl refl refl

-- The removal of s1 fails.
abbrev stubborn : Clusters
stubborn = record one { world = record one.world { stubborn = "s1" ∷ [] } }

stop_tracking_cluster_failure_example :
    (s : String) × (shard_of alpha stubborn.maps ≡ some s)
    × (size s (stop_tracking_cluster fleet alpha stubborn).1.maps ≡ 0)
    × ((stop_tracking_cluster fleet alpha stubborn).1.world ≡ (fleet.undeploy s stubborn.world).1)
    × ((stop_tracking_cluster fleet alpha (stop_tracking_cluster fleet alpha stubborn).1).0 ≡ none)
    × ((stop_tracking_cluster fleet alpha (stop_tracking_cluster fleet alpha stubborn).1).1.world
        ≡ (fleet.undeploy s stubborn.world).1)
unfolding running_code
stop_tracking_cluster_failure_example =
    stop_tracking_cluster_failure fleet alpha (λ _. Unit {0}) stubborn
      (Healthy-IsInStep fleet Healthy-one).consistent refl
