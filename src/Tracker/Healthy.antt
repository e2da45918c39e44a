-- ===== src/Tracker/Healthy.antt =====
-- Histories in which every call of trackCluster and stopTrackingCluster
-- (internal/controller/utils.go) returns nil, from the empty maps of InitMaps.
use shard_controller.Prelude.{
  ◌≡◌, refl, sym, ◌∙◌, Bool, Option, true, false, String, none, some, arith, lookup, ◌==◌,
  if◌then◌else◌,
}
use shard_controller.Reference.{reference_eq, RefSet}
use shard_controller.Shards.{Shards, IsAnnotation}
use shard_controller.Tracker.{State, init_maps, track_cluster}
use shard_controller.Tracker.Views.{shard_of, is_member, size}
use shard_controller.Tracker.Consistency.{IsConsistent, but_of_IsConsistentOn}
use shard_controller.Errors.{Error}
use shard_controller.Tracker.Calls.{
  on_nil, track_cluster-IsConsistentOn, track_cluster-shard_of,
  stop_tracking_cluster-IsConsistentOn, stop_tracking_cluster-shard_of,
}
use shard_controller.Tracker.Sync.{
  IsSynced, IsAnnotated, track_cluster-IsSynced, stop_tracking_cluster-IsSynced,
}
use shard_controller.Tracker.Runs.{Event, tracks, stops, perform}

module _ {W : Type 0} (ctl : Shards W) where
  abbrev pub IsAllowed : Event → Type 0
  IsAllowed (tracks c s) = IsAnnotation ctl s
  IsAllowed (stops c) = Unit

  IsAnnotation-of_if :
      (b : Bool) (s t : String) (o : Option String)
      → (if b then some s else o) ≡ some t
      → IsAnnotation ctl s
      → (o ≡ some t → IsAnnotation ctl t)
      → IsAnnotation ctl t
  IsAnnotation-of_if true s t o e a h = let p : s ≡ t = cc in rw p at a
  IsAnnotation-of_if false s t o e a h = h e

  IsAnnotation-of_nil :
      (r : Option Error) (b : Bool) (s t : String) (o : Option String)
      → on_nil r (if b then some s else o) o ≡ some t
      → IsAnnotation ctl s
      → (o ≡ some t → IsAnnotation ctl t)
      → IsAnnotation ctl t
  IsAnnotation-of_nil none b s t o e a h = IsAnnotation-of_if b s t o e a h
  IsAnnotation-of_nil (some x) b s t o e a h = h e

module _ {S W : Type 0} ⦃sets : RefSet S⦄ (ctl : Shards W) where
  -- The states after calls that all returned nil, in a cluster that had no shard's controllers.
  pub data Healthy : State S W → Type 0 where
    started :
        (w : W)
        → ((t : String) → ctl.IsKey t → ctl.Gone t w)
        → Healthy (record { maps = init_maps; world = w })
    called :
        {st : State S W}
        → Healthy st
        → (ev : Event) → IsAllowed ctl ev
        → (perform ctl ev st).0 ≡ none
        → Healthy (perform ctl ev st).1

  pub record IsInStep (st : State S W) : Type 0 where
    pub annotated : IsAnnotated ctl st.maps
    pub consistent : IsConsistent st.maps
    pub synced : IsSynced ctl st

  started-IsInStep :
      (w : W)
      → ((t : String) → ctl.IsKey t → ctl.Gone t w)
      → IsInStep (record { maps = init_maps; world = w })
  unfolding init_maps shard_of is_member size lookup
  started-IsInStep w gone = record {
    annotated = record { annotation = λ d s e. cc };
    consistent = record { sound = record { owned = λ s c e. cc }; complete = λ s d _ e. cc };
    synced = record {
      served = λ t key. record { running = λ p. absurd (p refl); gone = λ _. gone t key };
    };
  }

  -- The clusters that are tracked keep annotations that the tracking can be given.
  pub perform-IsAnnotated :
      (ev : Event) (st : State S W)
      → IsAllowed ctl ev
      → IsAnnotated ctl st.maps
      → IsAnnotated ctl (perform ctl ev st).1.maps
  unfolding perform
  perform-IsAnnotated (tracks c s) st a h = record {
    annotation = λ d t e.
        IsAnnotation-of_nil ctl (track_cluster ctl c s st).0 (c == d) s t (shard_of d st.maps)
          (sym (track_cluster-shard_of ctl (λ _. Unit {0}) c s st d) ∙ e) a (h.annotation d t);
  }
  perform-IsAnnotated (stops c) st a h = record {
    annotation = λ d t e.
        ground (arith, h.annotation d t, stop_tracking_cluster-shard_of ctl (λ _. Unit {0}) c st d);
  }

  pub perform-IsInStep :
      (ev : Event) (st : State S W)
      → IsAllowed ctl ev
      → IsInStep st
      → (perform ctl ev st).0 ≡ none
      → IsInStep (perform ctl ev st).1
  unfolding perform
  perform-IsInStep (tracks c s) st a h n = record {
    annotated = perform-IsAnnotated (tracks c s) st a h.annotated;
    consistent = track_cluster-IsConsistentOn ctl (λ _. Unit {0}) c s st h.consistent n;
    synced = track_cluster-IsSynced ctl c s st a h.annotated h.synced n;
  }
  perform-IsInStep (stops c) st a h n = record {
    annotated = perform-IsAnnotated (stops c) st a h.annotated;
    consistent =
        stop_tracking_cluster-IsConsistentOn ctl (λ _. Unit {0}) c st
          (but_of_IsConsistentOn (λ _. Unit {0}) c st.maps h.consistent);
    synced = stop_tracking_cluster-IsSynced ctl c st h.annotated h.synced n;
  }

  -- From the empty maps and a world without controllers of shards, while every call returns nil and
  -- every annotation is the key of a shard or empty, the two maps agree, and the controllers of a
  -- shard run exactly while some cluster is in the shard.
  pub Healthy-IsInStep : {st : State S W} → Healthy st → IsInStep st
  Healthy-IsInStep (started w gone) = started-IsInStep w gone
  Healthy-IsInStep (called {st = st} h ev a n) = perform-IsInStep ev st a (Healthy-IsInStep h) n
