-- ===== src/Tracker/Available.antt =====
-- trackCluster and stopTrackingCluster (internal/controller/utils.go) while the calls for the shards'
-- controllers are not refused.
use shard_controller.Prelude.{◌≡◌, refl, sym, inr, String, Option, none, some}
use shard_controller.Errors.{Error}
use shard_controller.Reference.{ObjectReference, RefSet}
use shard_controller.Shards.{Shards, IsAnnotation}
use shard_controller.Tracker.{State, key_or_empty}
use shard_controller.Tracker.Views.{shard_of}
use shard_controller.Tracker.Outcomes.{
  Leave, stays_out, leaves, undeployed, undeploy_failed, Join, joins, deployed, deploy_failed,
  Track, unchanged, stuck, moved, Stop, absent, others_left, last_one, track_cluster-Track,
  stop_tracking_cluster-Stop,
}
use shard_controller.Tracker.Sync.{IsAnnotated}
use shard_controller.Tracker.Runs.{Event, tracks, stops, perform}
use shard_controller.Tracker.Healthy.{IsAllowed}

-- In a world that is up, no call for a shard is refused, and the world stays up.
pub record IsAvailable {W : Type 0} (ctl : Shards W) (Up : W → Type 0) : Type 0 where
  pub deploys :
      (s : String) (w : W)
      → IsAnnotation ctl s
      → Up w
      → ((ctl.deploy s w).0 ≡ none) × Up (ctl.deploy s w).1
  pub undeploys :
      (s : String) (w : W)
      → IsAnnotation ctl s
      → Up w
      → ((ctl.undeploy s w).0 ≡ none) × Up (ctl.undeploy s w).1

module _ {S W : Type 0} ⦃sets : RefSet S⦄ (ctl : Shards W) (Up : W → Type 0)
    (available : IsAvailable ctl Up) where
  -- A call came to nil and left the world up.
  abbrev pub IsDone : Option Error × State S W → Type 0
  IsDone r = (r.0 ≡ none) × Up r.1.world

  module _ (c : ObjectReference) where
    Leave-IsDone :
        (old : Option String) (st : State S W) (r : Option Error × State S W)
        → ((o : String) → old ≡ some o → IsAnnotation ctl o)
        → Up st.world
        → Leave ctl c old st r
        → IsDone r
    Leave-IsDone old st r a u (stays_out _ e) = rw e (refl, u)
    Leave-IsDone old st r a u (leaves o p _ e) = rw e (refl, u)
    Leave-IsDone old st r a u (undeployed o w p _ q e) =
        rw e (refl, (rw q at (available.undeploys o st.world (a o p) u)).1)
    Leave-IsDone old st r a u (undeploy_failed o x w p _ q e) =
        rw e (rw q at (available.undeploys o st.world (a o p) u))

    Join-IsDone :
        (s : String) (st : State S W) (r : Option Error × State S W)
        → IsAnnotation ctl s
        → Up st.world
        → Join ctl c s st r
        → IsDone r
    Join-IsDone s st r a u (joins _ e) = rw e (refl, u)
    Join-IsDone s st r a u (deployed w _ q e) =
        rw e (refl, (rw q at (available.deploys s st.world a u)).1)
    Join-IsDone s st r a u (deploy_failed x w _ q e) =
        rw e (rw q at (available.deploys s st.world a u))

    module _ (st : State S W) (annotated : IsAnnotated ctl st.maps) (u : Up st.world) where
      Track-IsDone :
          (s : String) (r : Option Error × State S W)
          → IsAnnotation ctl s
          → Track ctl c s st r
          → IsDone r
      Track-IsDone s r a (unchanged _ e) = rw e (refl, u)
      Track-IsDone s r a (stuck x st' _ l e) =
          rw e (Leave-IsDone (shard_of c st.maps) st (some x, st') (annotated.annotation c) u l)
      Track-IsDone s r a (moved st' _ l j) =
          Join-IsDone s st' r a
            (Leave-IsDone (shard_of c st.maps) st (none, st') (annotated.annotation c) u l).1 j

      key_or_empty-IsAnnotation :
          (o : Option String) → shard_of c st.maps ≡ o → IsAnnotation ctl (key_or_empty o)
      key_or_empty-IsAnnotation none e = inr refl
      key_or_empty-IsAnnotation (some s) e = annotated.annotation c s e

      Stop-IsDone : (r : Option Error × State S W) → Stop ctl c st r → IsDone r
      Stop-IsDone r (absent _ e) = rw e (refl, u)
      Stop-IsDone r (others_left _ _ _ _ e) = rw e (refl, u)
      Stop-IsDone r (last_one s x w k _ _ q e) = rw e (
          rw q at (
            available.undeploys s st.world
              (rw (sym k) at (key_or_empty-IsAnnotation (shard_of c st.maps) refl)) u))

  pub perform-IsDone :
      (ev : Event) (st : State S W)
      → IsAllowed ctl ev
      → IsAnnotated ctl st.maps
      → Up st.world
      → IsDone (perform ctl ev st)
  unfolding perform
  perform-IsDone (tracks c s) st a h u =
      Track-IsDone c st h u s _ a (track_cluster-Track ctl c s st)
  perform-IsDone (stops c) st a h u = Stop-IsDone c st h u _ (stop_tracking_cluster-Stop ctl c st)
