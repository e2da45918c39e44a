-- ===== src/Tracker/Runs.antt =====
-- Histories of calls of trackCluster and stopTrackingCluster (internal/controller/utils.go), with
-- any results, against the map from clusters to shards that they maintain.
use shard_controller.Prelude.{
  ◌≡◌, refl, ap, ◌∙◌, String, Option, none, some, List, [], ◌∷◌, ◌==◌, if◌then◌else◌,
}
use mathlib.Core.Path.{fun_ext}
use shard_controller.Errors.{Error}
use shard_controller.Reference.{ObjectReference, reference_eq, RefSet}
use shard_controller.Shards.{Shards}
use shard_controller.Tracker.{State, track_cluster, stop_tracking_cluster}
use shard_controller.Tracker.Views.{shard_of}
use shard_controller.Tracker.Consistency.{IsSound}
use shard_controller.Tracker.Calls.{
  on_nil, track_cluster-IsConsistentBut, track_cluster-shard_of,
  stop_tracking_cluster-IsConsistentOn, stop_tracking_cluster-shard_of,
}

-- What a Reconcile comes to: the cluster is there with an annotation, or it is gone.
pub data Event : Type 0 where
  tracks : ObjectReference → String → Event
  stops : ObjectReference → Event

-- The specification: the shard of each cluster.
abbrev pub Assignment : Type 0
Assignment = ObjectReference → Option String

-- A failed trackCluster assigns nothing; stopTrackingCluster removes whatever it returns.
unfoldable pub assign : Event → Option Error → Assignment → Assignment
assign (tracks c s) e f d = on_nil e (if c == d then some s else f d) (f d)
assign (stops c) e f d = if c == d then none else f d

unfoldable pub assign_all : List Event → List (Option Error) → Assignment → Assignment
assign_all (ev ∷ evs) (e ∷ es) f = assign_all evs es (assign ev e f)
assign_all _ _ f = f

module _ {S W : Type 0} ⦃sets : RefSet S⦄ (ctl : Shards W) where
  unfoldable pub perform : Event → State S W → Option Error × State S W
  perform (tracks c s) = track_cluster ctl c s
  perform (stops c) = stop_tracking_cluster ctl c

  -- Every call in turn, with what each returns.
  unfoldable pub run : List Event → State S W → List (Option Error) × State S W
  run [] st = ([], st)
  run (ev ∷ evs) st = let (e, st') = perform ev st in let (es, st'') = run evs st' in (e ∷ es, st'')

  pub perform-assign :
      (ev : Event) (st : State S W) (d : ObjectReference)
      → shard_of d (perform ev st).1.maps ≡ assign ev (perform ev st).0 (λ k. shard_of k st.maps) d
  unfolding perform assign
  perform-assign (tracks c s) st d = track_cluster-shard_of ctl (λ _. Unit {0}) c s st d
  perform-assign (stops c) st d = stop_tracking_cluster-shard_of ctl (λ _. Unit {0}) c st d

  -- After any calls, failed ones included, `clusterMap` is what the specification says.
  pub run-assign_all :
      (evs : List Event) (st : State S W) (d : ObjectReference)
      → shard_of d (run evs st).1.maps ≡ assign_all evs (run evs st).0 (λ k. shard_of k st.maps) d
  unfolding run assign_all
  run-assign_all [] st d = refl
  run-assign_all (ev ∷ evs) st d =
      run-assign_all evs (perform ev st).1 d
      ∙ ap (λ (f : Assignment). assign_all evs (run evs (perform ev st).1).0 f d)
          (fun_ext (perform-assign ev st))

  pub perform-IsSound :
      (ev : Event) (st : State S W) → IsSound st.maps → IsSound (perform ev st).1.maps
  unfolding perform
  perform-IsSound (tracks c s) st h =
      (track_cluster-IsConsistentBut ctl (λ _. ⊥) c s st
        (record { sound = h; complete = λ _ _ x. absurd x.0 })).sound
  perform-IsSound (stops c) st h =
      (stop_tracking_cluster-IsConsistentOn ctl (λ _. ⊥) c st
        (record { sound = h; complete = λ _ _ x. absurd x.0 })).sound

  -- After any calls, failed ones included, a cluster is in the set of no shard but its own.
  pub run-IsSound :
      (evs : List Event) (st : State S W) → IsSound st.maps → IsSound (run evs st).1.maps
  unfolding run
  run-IsSound [] st h = h
  run-IsSound (ev ∷ evs) st h = run-IsSound evs _ (perform-IsSound ev st h)
