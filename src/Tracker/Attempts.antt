-- ===== src/Tracker/Attempts.antt =====
-- The workqueue repeats a trackCluster (internal/controller/utils.go) that failed: any number of
-- failed attempts, with time in between, and one that succeeds.
use shard_controller.Prelude.{◌≡◌, ◌≢◌, sym, ◌∙◌, String, none, some, arith}
use shard_controller.Errors.{Error}
use shard_controller.Reference.{ObjectReference, reference_eq, RefSet}
use shard_controller.Shards.{Shards, IsAnnotation}
use shard_controller.Tracker.{State, track_cluster}
use shard_controller.Tracker.Views.{shard_of}
use shard_controller.Tracker.Consistency.{IsConsistent, IsConsistentBut, but_of_IsConsistentOn}
use shard_controller.Tracker.Calls.{
  track_cluster-IsConsistentBut, track_cluster-shard_of, track_cluster-recovers,
}
use shard_controller.Tracker.Sync.{IsSynced, IsAnnotated}
use shard_controller.Tracker.Retry.{
  IsPending, IsPending-frame, IsSynced-IsPending, track_cluster-IsPending, track_cluster-completes,
}
use shard_controller.Tracker.Healthy.{IsInStep}

module _ {S W : Type 0} ⦃sets : RefSet S⦄ (ctl : Shards W) (c : ObjectReference) (s : String) where
  -- The states of failed attempts to track `c` in `s`. Between them the management cluster may
  -- change in ways that concern no deployment of a shard.
  pub data Attempts (st : State S W) : State S W → Type 0 where
    first : Attempts st st
    failed :
        {t : State S W} {x : Error}
        → Attempts st t
        → (track_cluster ctl c s t).0 ≡ some x
        → Attempts st (track_cluster ctl c s t).1
    waited :
        {t : State S W}
        → Attempts st t
        → (w : W)
        → ((k : String)
            → ctl.IsKey k
            → (ctl.Running k t.world → ctl.Running k w) × (ctl.Gone k t.world → ctl.Gone k w))
        → Attempts st (record t { world = w })

  record IsUnderWay (st : State S W) : Type 0 where
    annotated : IsAnnotated ctl st.maps
    elsewhere : shard_of c st.maps ≢ some s
    consistent : IsConsistentBut (λ _. Unit {0}) c st.maps
    pending : IsPending ctl c s st

  module _ (a : IsAnnotation ctl s) where
    failed-shard_of :
        (t : State S W) {x : Error}
        → (track_cluster ctl c s t).0 ≡ some x
        → (d : ObjectReference) → shard_of d (track_cluster ctl c s t).1.maps ≡ shard_of d t.maps
    failed-shard_of t n d = rw n at (track_cluster-shard_of ctl (λ _. Unit {0}) c s t d)

    Attempts-IsUnderWay : {st t : State S W} → IsUnderWay st → Attempts st t → IsUnderWay t
    Attempts-IsUnderWay u first = u
    Attempts-IsUnderWay u (failed {t = t} r n) =
        let v = Attempts-IsUnderWay u r in
        record {
          annotated = record {
            annotation = λ d k e. v.annotated.annotation d k (sym (failed-shard_of t n d) ∙ e);
          };
          elsewhere = λ e. v.elsewhere (sym (failed-shard_of t n c) ∙ e);
          consistent = track_cluster-IsConsistentBut ctl (λ _. Unit {0}) c s t v.consistent;
          pending = track_cluster-IsPending ctl c s t a v.annotated v.elsewhere v.pending n;
        }
    Attempts-IsUnderWay u (waited {t = t} r w keep) =
        let v = Attempts-IsUnderWay u r in
        record {
          annotated = v.annotated;
          elsewhere = v.elsewhere;
          consistent = v.consistent;
          pending = IsPending-frame ctl c s t w keep v.pending;
        }

    -- Let the maps agree and the controllers of each shard run exactly if it has clusters, and let s be
    -- the key of a shard or empty. However many attempts to move a cluster to s from elsewhere fail,
    -- with changes in between that concern no deployment of a shard, the first one that returns nil
    -- leaves both maps in agreement, the cluster in s, and the controllers of every shard running
    -- exactly if it has clusters.
    pub track_cluster_eventually :
        (st t : State S W)
        → IsInStep ctl st
        → shard_of c st.maps ≢ some s
        → Attempts st t
        → (track_cluster ctl c s t).0 ≡ none
        → IsConsistent (track_cluster ctl c s t).1.maps
          × (shard_of c (track_cluster ctl c s t).1.maps ≡ some s)
          × IsSynced ctl (track_cluster ctl c s t).1
    track_cluster_eventually st t h ne r n =
        let v =
          Attempts-IsUnderWay
            (record {
              annotated = h.annotated;
              elsewhere = ne;
              consistent = but_of_IsConsistentOn (λ _. Unit {0}) c st.maps h.consistent;
              pending = IsSynced-IsPending ctl c s st h.synced;
            })
            r in
        (
          track_cluster-recovers ctl (λ _. Unit {0}) c s t v.consistent v.elsewhere n,
          rw n at (track_cluster-shard_of ctl (λ _. Unit {0}) c s t c)
              ∙ ground (arith, reference_eq.beq_iff c c),
          track_cluster-completes ctl c s t a v.annotated v.elsewhere v.pending n,
        )
