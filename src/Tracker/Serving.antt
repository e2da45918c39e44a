-- ===== src/Tracker/Serving.antt =====
-- What trackCluster and stopTrackingCluster (internal/controller/utils.go) keep when their calls of
-- deployControllers fail: a shard with clusters is never without its controllers.
use shard_controller.Prelude.{
  ◌≡◌, ◌≢◌, sym, ◌∙◌, String, Option, none, some, arith, string_eq, ◌==◌, Bool-cases, inl, inr,
  eq_of_test, ne_of_test,
}
use shard_controller.Errors.{Error}
use shard_controller.Reference.{ObjectReference, reference_eq, RefSet}
use shard_controller.Shards.{Shards, IsAnnotation, deploy_keeps, undeploy_frame, deploy_self}
use shard_controller.Tracker.{State, key_or_empty}
use shard_controller.Tracker.Views.{shard_of, size, size-erase_from, size-forget}
use shard_controller.Tracker.Sizes.{
  size-erase_last, size-erase_ne, size-add_to_ne, size-stop, size-at, size-busy,
}
use shard_controller.Tracker.Outcomes.{
  Leave, stays_out, leaves, undeployed, undeploy_failed, Join, joins, deployed, deploy_failed,
  Track, unchanged, stuck, moved, Stop, absent, others_left, last_one, track_cluster-Track,
  stop_tracking_cluster-Stop,
}
use shard_controller.Tracker.Sync.{IsAnnotated, key_IsAnnotation}
use shard_controller.Tracker.Runs.{Event, tracks, stops, perform}
use shard_controller.Tracker.Healthy.{IsAllowed}

-- No removal of a shard's controllers is refused. Deployments may be, in whole or in part.
pub record Removes {W : Type 0} (ctl : Shards W) : Type 0 where
  pub undeploy-nil : (s : String) (w : W) → IsAnnotation ctl s → (ctl.undeploy s w).0 ≡ none

module _ {S W : Type 0} ⦃sets : RefSet S⦄ (ctl : Shards W) where
  -- At one shard.
  abbrev Serves : String → State S W → Type 0
  Serves t st = size t st.maps ≢ 0 → ctl.Running t st.world

  -- A shard that has clusters has its controllers.
  pub record IsServing (st : State S W) : Type 0 where
    pub serving : (t : String) → ctl.IsKey t → Serves t st

  module _ (removes : Removes ctl) (c : ObjectReference) (t : String) (key : ctl.IsKey t) where
    Leave-Serves :
        {old : Option String} {st : State S W} {r : Option Error × State S W}
        → Leave ctl c old st r
        → ((o : String) → old ≡ some o → IsAnnotation ctl o)
        → Serves t st
        → Serves t r.1
    Leave-Serves (stays_out e f) a h = rw f h
    Leave-Serves {st = st} (leaves o e l f) a h =
        rw f (λ p. h (λ z. p (ground (arith, size-erase_from o c st.maps t))))
    Leave-Serves {st = st} (undeployed o w e l u f) a h = rw f (elim (Bool-cases (o == t)) [
      | inl q ↦ λ p. absurd (p (size-erase_last o t c st.maps l (eq_of_test o t q)))
      | inr q ↦ λ p.
          (rw u at (undeploy_frame ctl o t st.world (a o e) key (ne_of_test o t q))).0
            (h (λ z. p (size-erase_ne o t c st.maps (ne_of_test o t q) ∙ z)))
    ])
    Leave-Serves {st = st} (undeploy_failed o x w e l u f) a h =
        let k = rw u at (removes.undeploy-nil o st.world (a o e)) in cc

    Join-Serves :
        {s : String} {st : State S W} {r : Option Error × State S W}
        → Join ctl c s st r
        → IsAnnotation ctl s
        → Serves t st
        → Serves t r.1
    Join-Serves {s} {st} (joins i f) a h = rw f (elim (Bool-cases (s == t)) [
      | inl q ↦ λ p. h (size-busy s t c st.maps i (eq_of_test s t q))
      | inr q ↦ λ p. h (λ z. p (size-add_to_ne s t c st.maps (ne_of_test s t q) ∙ z))
    ])
    Join-Serves {s} {st} (deployed w i u f) a h = rw f (elim (Bool-cases (s == t)) [
      | inl q ↦ λ p. deploy_self ctl s t st.world w key (eq_of_test s t q) u
      | inr q ↦ λ p. rw u at (
          deploy_keeps ctl s t st.world a key
            (h (λ z. p (size-add_to_ne s t c st.maps (ne_of_test s t q) ∙ z))))
    ])
    Join-Serves {s} {st} (deploy_failed x w i u f) a h =
        rw f (λ p. rw u at (deploy_keeps ctl s t st.world a key (h p)))

    Stop-Serves :
        {st : State S W} {r : Option Error × State S W}
        → Stop ctl c st r
        → IsAnnotation ctl (key_or_empty (shard_of c st.maps))
        → Serves t st
        → Serves t r.1
    Stop-Serves {st} (absent e f) a h = rw f (λ p. h (λ z. p (size-forget c st.maps t ∙ z)))
    Stop-Serves {st} (others_left s e m z f) a h =
        rw f (λ p.
          h (λ y. p (size-stop s t c st.maps ∙ ground (arith, size-erase_from s c st.maps t))))
    Stop-Serves {st} (last_one s x w e m z u f) a h = rw f (elim (Bool-cases (s == t)) [
      | inl q ↦ λ p.
          absurd (p (size-stop s t c st.maps ∙ sym (size-at s t c st.maps (eq_of_test s t q)) ∙ z))
      | inr q ↦ λ p. (rw u at (undeploy_frame ctl s t st.world (rw e a) key (ne_of_test s t q))).0 (
          h (λ y. p (size-stop s t c st.maps ∙ size-erase_ne s t c st.maps (ne_of_test s t q) ∙ y)))
    ])

  -- Whatever a call returns, a shard that has clusters has its controllers after it.
  pub perform-IsServing :
      Removes ctl
      → (ev : Event) (st : State S W) → IsAllowed ctl ev
      → IsAnnotated ctl st.maps
      → IsServing st
      → IsServing (perform ctl ev st).1
  unfolding perform
  perform-IsServing removes (tracks c s) st a all h = record {
    serving = λ t key. go t key _ (track_cluster-Track ctl c s st);
  }
    where
      go :
          (t : String)
          → ctl.IsKey t
          → (r : Option Error × State S W) → Track ctl c s st r
          → Serves t r.1
      go t key r (unchanged e f) = rw f (h.serving t key)
      go t key r (stuck x st' ne l f) =
          rw f (Leave-Serves removes c t key l (all.annotation c) (h.serving t key))
      go t key r (moved st' ne l j) =
          Join-Serves removes c t key j a
            (Leave-Serves removes c t key l (all.annotation c) (h.serving t key))
  perform-IsServing removes (stops c) st a all h = record {
    serving = λ t key.
        Stop-Serves removes c t key (stop_tracking_cluster-Stop ctl c st)
          (key_IsAnnotation ctl _ (all.annotation c)) (h.serving t key);
  }
