-- ===== src/Tracker/Failures.antt =====
-- Two ways in which an error of the API server leaves internal/controller/utils.go out of step with
-- the deployments, in such a way that the call that the workqueue makes next returns nil.
use shard_controller.Prelude.{◌≡◌, ◌≢◌, refl, sym, ap, ◌∙◌, true, String, Option, none, some, arith}
use shard_controller.Errors.{Error}
use shard_controller.Reference.{ObjectReference, reference_eq, RefSet}
use shard_controller.Shards.{Shards, IsAnnotation, deploy_frame, undeploy_self}
use shard_controller.Tracker.{State, is_last, track_cluster, stop_tracking_cluster}
use shard_controller.Tracker.Views.{shard_of, size}
use shard_controller.Tracker.Outcomes.{
  Leave, stays_out, leaves, undeployed, undeploy_failed, Join, joins, deployed, deploy_failed,
  Track, unchanged, stuck, moved, Stop, absent, others_left, last_one, track_cluster-Track,
  track_cluster_same, stop_tracking_cluster-Stop,
}
use shard_controller.Tracker.Consistency.{IsConsistentOn, but_of_IsConsistentOn}
use shard_controller.Tracker.Calls.{
  stop_tracking_cluster-IsConsistentOn, stop_tracking_cluster-shard_of, track_cluster-shard_of,
}
use shard_controller.Tracker.Sizes.{size-stop}

module _ {S W : Type 0} ⦃sets : RefSet S⦄ (ctl : Shards W) (c : ObjectReference) where
  -- A cluster that is not tracked is in no set, so that stopping it again does nothing to the world.
  Stop-untracked :
      (X : ObjectReference → Type 0) (st : State S W)
      → IsConsistentOn X st.maps
      → shard_of c st.maps ≡ none
      → (r : Option Error × State S W) → Stop ctl c st r
      → (r.0 ≡ none) × (r.1.world ≡ st.world)
  Stop-untracked X st h e r (absent m f) = rw f (refl, refl)
  Stop-untracked X st h e r (others_left s k m z f) = let o = h.sound.owned s c m in cc
  Stop-untracked X st h e r (last_one s x w k m z u f) = let o = h.sound.owned s c m in cc

  Stop-failed_size :
      (X : ObjectReference → Type 0) (st : State S W) {x : Error}
      → IsConsistentOn X st.maps
      → (r : Option Error × State S W) → Stop ctl c st r
      → r.0 ≡ some x
      → (s : String) × (shard_of c st.maps ≡ some s)
        × (size s r.1.maps ≡ 0)
        × (r.1.world ≡ (ctl.undeploy s st.world).1)
  Stop-failed_size X st h r (absent m f) n = cc
  Stop-failed_size X st h r (others_left s k m z f) n = cc
  Stop-failed_size X st h r (last_one s x w k m z u f) n = (
    s,
    h.sound.owned s c m,
    rw f (size-stop s s c st.maps ∙ z),
    rw f (sym (ap (λ (p : Option Error × W). p.1) u)),
  )

  -- When stopTrackingCluster returns an error, from maps that agree on the clusters of X, the cluster was
  -- in a shard s, which has no cluster any more, and the world is as the removal of the controllers of
  -- s left it. A further call for the cluster returns nil and leaves the world so.
  pub stop_tracking_cluster_failure :
      (X : ObjectReference → Type 0) (st : State S W) {x : Error}
      → IsConsistentOn X st.maps
      → (stop_tracking_cluster ctl c st).0 ≡ some x
      → (s : String) × (shard_of c st.maps ≡ some s)
        × (size s (stop_tracking_cluster ctl c st).1.maps ≡ 0)
        × ((stop_tracking_cluster ctl c st).1.world ≡ (ctl.undeploy s st.world).1)
        × ((stop_tracking_cluster ctl c (stop_tracking_cluster ctl c st).1).0 ≡ none)
        × ((stop_tracking_cluster ctl c (stop_tracking_cluster ctl c st).1).1.world
            ≡ (ctl.undeploy s st.world).1)
  stop_tracking_cluster_failure X st h n =
      let (s, e, z, w) = Stop-failed_size X st h _ (stop_tracking_cluster-Stop ctl c st) n in
      let (o, v) =
        Stop-untracked X st'
          (stop_tracking_cluster-IsConsistentOn ctl X c st (but_of_IsConsistentOn X c st.maps h))
          (stop_tracking_cluster-shard_of ctl X c st c ∙ ground (arith, reference_eq.beq_iff c c)) _
          (stop_tracking_cluster-Stop ctl c st') in
      (s, e, z, w, o, v ∙ w)
    where
      st' : State S W
      st' = (stop_tracking_cluster ctl c st).1

  module _ (o s : String) (st : State S W) where
    -- A cluster that is the last of shard o gets another annotation s, and trackCluster returns an
    -- error although the removal of the controllers of o returns nil. If the annotation is then set back
    -- to o, trackCluster returns nil and changes nothing, with the cluster in o and no controller of o.
    pub track_cluster_revert :
        {x : Error}
        → ctl.IsKey o
        → IsAnnotation ctl s
        → s ≢ o
        → shard_of c st.maps ≡ some o
        → is_last c o st.maps ≡ true
        → (ctl.undeploy o st.world).0 ≡ none
        → (track_cluster ctl c s st).0 ≡ some x
        → (track_cluster ctl c o (track_cluster ctl c s st).1
            ≡ (none, (track_cluster ctl c s st).1))
          × (shard_of c (track_cluster ctl c s st).1.maps ≡ some o)
          × ctl.Gone o (track_cluster ctl c s st).1.world
    track_cluster_revert {x} key a ne e l u n = (
      track_cluster_same ctl c o (track_cluster ctl c s st).1 still,
      still,
      gone _ (track_cluster-Track ctl c s st) n,
    )
      where
        still : shard_of c (track_cluster ctl c s st).1.maps ≡ some o
        still = track_cluster-shard_of ctl (λ _. Unit {0}) c s st c ∙ rw n e

        left_world :
            (r : Option Error × State S W)
            → Leave ctl c (shard_of c st.maps) st r
            → r.0 ≡ none
            → ctl.Gone o r.1.world
        left_world r (stays_out e' f) m = cc
        left_world r (leaves o' e' l' f) m = cc
        left_world r (undeployed o' w e' l' u' f) m =
            let q : o' ≡ o = cc in rw f (undeploy_self ctl o' o st.world w key q u')
        left_world r (undeploy_failed o' y w e' l' u' f) m = cc

        joined_world :
            (st' : State S W) (r : Option Error × State S W)
            → Join ctl c s st' r
            → r.0 ≡ some x
            → ctl.Gone o st'.world
            → ctl.Gone o r.1.world
        joined_world st' r (joins i f) m g = cc
        joined_world st' r (deployed w i u' f) m g = cc
        joined_world st' r (deploy_failed y w i u' f) m g =
            rw f ((rw u' at (deploy_frame ctl s o st'.world a key ne)).1 g)

        gone :
            (r : Option Error × State S W)
            → Track ctl c s st r
            → r.0 ≡ some x
            → ctl.Gone o r.1.world
        gone r (unchanged e' f) m = cc
        gone r (stuck y st' _ (undeploy_failed o' z w e' l' u' f') f) m =
            cc (ap (λ (p : Option Error × W). p.0) u')
        gone r (stuck y st' _ (stays_out e' f') f) m = cc
        gone r (stuck y st' _ (leaves o' e' l' f') f) m = cc
        gone r (stuck y st' _ (undeployed o' w e' l' u' f') f) m = cc
        gone r (moved st' _ lv j) m = joined_world st' r j m (left_world _ lv refl)
