-- ===== src/Tracker/Restart.antt =====
-- The maps of internal/controller/utils.go are empty when the process starts (InitMaps), whatever shards
-- run: what becomes of a shard that no cluster asks for any more.
use shard_controller.Prelude.{
  ◌≡◌, ◌≢◌, sym, ap, ◌∙◌, String, Option, none, some, List, [], ◌∷◌, All, arith, string_eq, nat_eq,
  ◌==◌, Bool-cases, inl, inr, eq_of_test, ne_of_test, Bool, true, false, if◌then◌else◌, lookup,
}
use shard_controller.Errors.{Error}
use shard_controller.Reference.{ObjectReference, reference_eq, RefSet}
use shard_controller.Shards.{Shards, IsAnnotation, deploy_keeps, undeploy_frame}
use shard_controller.Tracker.{State, init_maps, track_cluster, key_or_empty}
use shard_controller.Tracker.Views.{shard_of, is_member, size, is_member_of_size}
use shard_controller.Tracker.Outcomes.{
  Leave, stays_out, leaves, undeployed, undeploy_failed, Join, joins, deployed, deploy_failed,
  Track, unchanged, stuck, moved, Stop, absent, others_left, last_one, track_cluster-Track,
  stop_tracking_cluster-Stop,
}
use shard_controller.Tracker.Calls.{on_nil, track_cluster-shard_of, stop_tracking_cluster-shard_of}
use shard_controller.Tracker.Sync.{IsAnnotated, key_IsAnnotation}
use shard_controller.Tracker.Runs.{Event, tracks, stops, perform, run, run-IsSound}
use shard_controller.Tracker.Healthy.{IsAllowed, perform-IsAnnotated}

-- No cluster gets the shard as its annotation.
abbrev pub IsElsewhere : String → Event → Type 0
IsElsewhere t (tracks c s) = s ≢ t
IsElsewhere t (stops c) = Unit {0}

assigned_elsewhere :
    (r : Option Error) (b : Bool) (s t : String) (o : Option String)
    → s ≢ t
    → o ≢ some t
    → on_nil r (if b then some s else o) o ≢ some t
assigned_elsewhere none true s t o ne h e = let p : s ≡ t = cc in ne p
assigned_elsewhere none false s t o ne h e = h e
assigned_elsewhere (some x) b s t o ne h e = h e

key_or_empty-ne : (o : Option String) (t : String) → t ≢ "" → o ≢ some t → key_or_empty o ≢ t
key_or_empty-ne none t ne h e = ne (sym e)
key_or_empty-ne (some s) t ne h e = h (ap (λ (k : String). some k) e)

module _ {S W : Type 0} ⦃sets : RefSet S⦄ (ctl : Shards W) (t : String) where
  -- The controllers of the shard are there, and no tracked cluster is in it.
  pub record IsLeft (st : State S W) : Type 0 where
    pub untracked : (d : ObjectReference) → shard_of d st.maps ≢ some t
    pub left : ctl.Running t st.world

  module _ (key : ctl.IsKey t) (c : ObjectReference) where
    Leave-Running :
        {old : Option String} {st : State S W} {r : Option Error × State S W}
        → Leave ctl c old st r
        → ((o : String) → old ≡ some o → IsAnnotation ctl o)
        → old ≢ some t
        → ctl.Running t st.world
        → ctl.Running t r.1.world
    Leave-Running (stays_out e f) a ne h = rw f h
    Leave-Running (leaves o e l f) a ne h = rw f h
    Leave-Running {st = st} (undeployed o w e l u f) a ne h =
        rw f ((rw u at (undeploy_frame ctl o t st.world (a o e) key (λ q. ne (rw q at e)))).0 h)
    Leave-Running {st = st} (undeploy_failed o x w e l u f) a ne h =
        rw f ((rw u at (undeploy_frame ctl o t st.world (a o e) key (λ q. ne (rw q at e)))).0 h)

    Join-Running :
        {s : String} {st : State S W} {r : Option Error × State S W}
        → Join ctl c s st r
        → IsAnnotation ctl s
        → ctl.Running t st.world
        → ctl.Running t r.1.world
    Join-Running (joins i f) a h = rw f h
    Join-Running {s} {st} (deployed w i u f) a h =
        rw f (rw u at (deploy_keeps ctl s t st.world a key h))
    Join-Running {s} {st} (deploy_failed x w i u f) a h =
        rw f (rw u at (deploy_keeps ctl s t st.world a key h))

    Stop-Running :
        {st : State S W} {r : Option Error × State S W}
        → Stop ctl c st r
        → IsAnnotation ctl (key_or_empty (shard_of c st.maps))
        → key_or_empty (shard_of c st.maps) ≢ t
        → ctl.Running t st.world
        → ctl.Running t r.1.world
    Stop-Running (absent e f) a ne h = rw f h
    Stop-Running (others_left s e m z f) a ne h = rw f h
    Stop-Running {st} (last_one s x w e m z u f) a ne h =
        rw f ((rw u at (undeploy_frame ctl s t st.world (rw e a) key (λ q. ne (sym e ∙ q)))).0 h)

  perform-IsLeft :
      ctl.IsKey t
      → t ≢ ""
      → (ev : Event) (st : State S W) → IsAllowed ctl ev
      → IsElsewhere t ev
      → IsAnnotated ctl st.maps
      → IsLeft st
      → IsLeft (perform ctl ev st).1
  unfolding perform
  perform-IsLeft key full (tracks c s) st a ne all h = record {
    untracked = λ d. rw (track_cluster-shard_of ctl (λ _. Unit {0}) c s st d) (
        assigned_elsewhere (track_cluster ctl c s st).0 (c == d) s t (shard_of d st.maps) ne
          (h.untracked d));
    left = go _ (track_cluster-Track ctl c s st);
  }
    where
      go : (r : Option Error × State S W) → Track ctl c s st r → ctl.Running t r.1.world
      go r (unchanged e f) = rw f h.left
      go r (stuck x st' _ l f) =
          rw f (Leave-Running key c l (all.annotation c) (h.untracked c) h.left)
      go r (moved st' _ l j) =
          Join-Running key c j a (Leave-Running key c l (all.annotation c) (h.untracked c) h.left)
  perform-IsLeft key full (stops c) st a ne all h = record {
    untracked = λ d.
        let k = stop_tracking_cluster-shard_of ctl (λ _. Unit {0}) c st d in
        λ e. ground (arith, h.untracked d);
    left =
        Stop-Running key c (stop_tracking_cluster-Stop ctl c st)
          (key_IsAnnotation ctl _ (all.annotation c))
          (key_or_empty-ne (shard_of c st.maps) t full (h.untracked c)) h.left;
  }

  run-IsLeft :
      ctl.IsKey t
      → t ≢ ""
      → (evs : List Event) (st : State S W) → All (IsAllowed ctl) evs
      → All (IsElsewhere t) evs
      → IsAnnotated ctl st.maps
      → IsLeft st
      → IsLeft (run ctl evs st).1
  unfolding run
  run-IsLeft key full [] st a ne all h = h
  run-IsLeft key full (ev ∷ evs) st a ne all h =
      run-IsLeft key full evs (perform ctl ev st).1 a.1 ne.1 (perform-IsAnnotated ctl ev st a.0 all)
        (perform-IsLeft key full ev st a.0 ne.0 all h)

  -- Let the process start, with the empty maps, while the controllers of a shard are there. As long as no
  -- cluster has the shard for its annotation, the shard has no cluster and its controllers stay, after
  -- any calls of trackCluster and stopTrackingCluster, failed ones included.
  pub run_restart :
      ctl.IsKey t
      → t ≢ ""
      → (evs : List Event) (st : State S W) → st.maps ≡ init_maps
      → All (IsAllowed ctl) evs
      → All (IsElsewhere t) evs
      → ctl.Running t st.world
      → (size t (run ctl evs st).1.maps ≡ 0) × ctl.Running t (run ctl evs st).1.world
  unfolding init_maps shard_of is_member lookup
  run_restart key full evs st e a ne h =
      let k =
        run-IsLeft key full evs st a ne (record { annotation = λ d s p. cc })
          (record { untracked = λ d p. cc; left = h }) in
      let sound = run-IsSound ctl evs st (record { owned = λ s c p. cc }) in
      (
        elim (Bool-cases (size t (run ctl evs st).1.maps == 0)) [
          | inl z ↦ eq_of_test (size t (run ctl evs st).1.maps) 0 z
          | inr z ↦
              let (c, m) =
                is_member_of_size t (run ctl evs st).1.maps
                  (ne_of_test (size t (run ctl evs st).1.maps) 0 z) in
              absurd (k.untracked c (sound.owned t c m))
        ],
        k.left,
      )
