-- ===== src/Redeploy/Serving.antt =====
-- The interleavings of redeployAllShards with the other reconcilers (internal/controller/utils.go), with
-- deployments that fail: a shard with clusters is never without its controllers.
use shard_controller.Prelude.{◌≡◌, true, String, Option, none, some, List, ◌∷◌, arith, string_eq}
use shard_controller.Errors.{Error}
use shard_controller.Reference.{RefSet}
use shard_controller.Shards.{Shards, IsAnnotation, deploy_keeps}
use shard_controller.Tracker.Sync.{IsAnnotated}
use shard_controller.Tracker.Consistency.{IsSound}
use shard_controller.Tracker.Runs.{perform-IsSound}
use shard_controller.Tracker.Healthy.{IsAllowed, perform-IsAnnotated}
use shard_controller.Tracker.Serving.{Removes, IsServing, perform-IsServing}
use shard_controller.Redeploy.Active.{contains}
use shard_controller.Redeploy.Synced.{listed_IsAnnotation}
use shard_controller.Redeploy.Race.{
  System, Step, reconciles, lists, deploys, fails, Steps, here, next,
}

module _ {S W : Type 0} ⦃sets : RefSet S⦄ (ctl : Shards W) where
  -- The annotations of the clusters in the steps can be deployed.
  abbrev pub IsAllowedStep : {s t : System S W} → Step ctl s t → Type 0
  IsAllowedStep (reconciles ev) = IsAllowed ctl ev
  IsAllowedStep (lists entries r p) = Unit {0}
  IsAllowedStep (deploys key keys w p u) = Unit {0}
  IsAllowedStep (fails key keys e w p u) = Unit {0}

  abbrev pub IsAllowedSteps : {s t : System S W} → Steps ctl s t → Type 0
  IsAllowedSteps here = Unit {0}
  IsAllowedSteps (next r step) = IsAllowedSteps r × IsAllowedStep step

  pub record IsServingSystem (s : System S W) : Type 0 where
    pub sound : IsSound s.state.maps
    pub annotated : IsAnnotated ctl s.state.maps
    pub listed : (k : String) → contains s.pending k ≡ true → IsAnnotation ctl k
    pub serving : IsServing ctl s.state

  module _ (removes : Removes ctl) where
    -- A call that deploys a listed shard, by what it returns.
    deployed-IsServing :
        (s : System S W) (key : String) (keys : List String) (r : Option Error × W)
        → s.pending ≡ key ∷ keys
        → ctl.deploy key s.state.world ≡ r
        → IsServingSystem s
        → IsServing ctl (record s.state { world = r.1 })
    deployed-IsServing s key keys r p u h = record {
      serving = λ t k q. rw u at (
          deploy_keeps ctl key t s.state.world
            (h.listed key (rw p (ground (arith, string_eq.beq_iff key key)))) k
            (h.serving.serving t k q));
    }

    Step-IsServingSystem :
        {s t : System S W}
        → (step : Step ctl s t) → IsAllowedStep step
        → IsServingSystem s
        → IsServingSystem t
    Step-IsServingSystem {s} (reconciles ev) a h = record {
      sound = perform-IsSound ctl ev s.state h.sound;
      annotated = perform-IsAnnotated ctl ev s.state a h.annotated;
      listed = h.listed;
      serving = perform-IsServing ctl removes ev s.state a h.annotated h.serving;
    }
    Step-IsServingSystem {s} (lists entries r p) a h = record {
      sound = h.sound;
      annotated = h.annotated;
      listed = listed_IsAnnotation ctl entries s.state.maps r h.sound h.annotated;
      serving = h.serving;
    }
    Step-IsServingSystem {s} (deploys key keys w p u) a h = record {
      sound = h.sound;
      annotated = h.annotated;
      listed = λ k m. h.listed k (rw p (ground arith));
      serving = deployed-IsServing s key keys (none, w) p u h;
    }
    Step-IsServingSystem {s} (fails key keys e w p u) a h = record {
      sound = h.sound;
      annotated = h.annotated;
      listed = λ k m. cc;
      serving = deployed-IsServing s key keys (some e, w) p u h;
    }

    Steps-IsServingSystem :
        {s t : System S W}
        → IsServingSystem s
        → (r : Steps ctl s t) → IsAllowedSteps r
        → IsServingSystem t
    Steps-IsServingSystem h here a = h
    Steps-IsServingSystem h (next r step) a =
        Step-IsServingSystem step a.1 (Steps-IsServingSystem h r a.0)

    -- Let no removal of controllers be refused, and start from a state in which every shard with
    -- clusters has its controllers, the sets of the maps are sound, and the shards of the tracked
    -- clusters and those that redeployAllShards has still to deploy can be deployed. Then, whatever
    -- deployments fail and however the reconcilers and the steps of redeployAllShards interleave, for
    -- clusters with annotations that can be deployed, every shard with clusters has its controllers in
    -- the end, and a cluster is in the set of no shard but its own.
    pub Steps-IsServing :
        {s t : System S W}
        → IsServingSystem s
        → (r : Steps ctl s t) → IsAllowedSteps r
        → IsServing ctl t.state × IsSound t.state.maps
    Steps-IsServing h r a = let q = Steps-IsServingSystem h r a in (q.serving, q.sound)
