-- ===== src/Tracker/Calls.antt =====
-- trackCluster and stopTrackingCluster (internal/controller/utils.go) on the two maps, when the calls
-- for the deployments succeed and when they fail.
use shard_controller.Prelude.{
  ◌≡◌, ◌≢◌, refl, true, false, String, Option, none, some, arith, ◌==◌, string_eq, if◌then◌else◌,
  inl, inr, Bool-cases, ap, ◌∙◌,
}
use shard_controller.Errors.{Error}
use shard_controller.Reference.{ObjectReference, reference_eq, RefSet}
use shard_controller.Shards.{Shards}
use shard_controller.Tracker.{
  State, erase_from, forget, track_cluster, stop_tracking_cluster, key_or_empty,
}
use shard_controller.Tracker.Views.{
  shard_of, is_member, shard_of-erase_from, shard_of-add_to, shard_of-forget,
}
use shard_controller.Tracker.Outcomes.{
  Leave, stays_out, leaves, undeployed, undeploy_failed, Join, joins, deployed, deploy_failed,
  Track, unchanged, stuck, moved, Stop, absent, others_left, last_one, track_cluster-Track,
  stop_tracking_cluster-Stop,
}
use shard_controller.Tracker.Consistency.{
  IsConsistentBut, IsConsistentOn, IsOut, but_of_IsConsistentOn, erase_from-IsConsistentBut,
  erase_from-IsOut, untracked-IsOut, add_to-IsConsistentOn, forget-IsConsistentOn,
  erase_from-forget,
}

-- The first value where a call returned nil, the second where it returned an error.
abbrev pub on_nil {ℓ} : {A : Type ℓ} → Option Error → A → A → A
on_nil none new old = new
on_nil (some _) new old = old

module _ {S W : Type 0} ⦃sets : RefSet S⦄ (ctl : Shards W) (X : ObjectReference → Type 0)
    (c : ObjectReference) where
  -- After the block `if alreadyTracked`, passed or left with an error.
  Leave-IsConsistentBut :
      {old : Option String} {st : State S W} {r : Option Error × State S W}
      → Leave ctl c old st r
      → IsConsistentBut X c st.maps
      → IsConsistentBut X c r.1.maps
  Leave-IsConsistentBut (stays_out e f) h = rw f h
  Leave-IsConsistentBut {st = st} (leaves o e l f) h =
      rw f (erase_from-IsConsistentBut X c st.maps o h)
  Leave-IsConsistentBut {st = st} (undeployed o w e l u f) h =
      rw f (erase_from-IsConsistentBut X c st.maps o h)
  Leave-IsConsistentBut (undeploy_failed o x w e l u f) h = rw f h

  Leave-IsOut :
      {st : State S W} {r : Option Error × State S W}
      → Leave ctl c (shard_of c st.maps) st r
      → IsConsistentBut X c st.maps
      → r.0 ≡ none
      → IsOut c r.1.maps
  Leave-IsOut {st = st} (stays_out e f) h n = rw f (untracked-IsOut X c st.maps h e)
  Leave-IsOut {st = st} (leaves o e l f) h n = rw f (erase_from-IsOut X c st.maps o h e)
  Leave-IsOut {st = st} (undeployed o w e l u f) h n = rw f (erase_from-IsOut X c st.maps o h e)
  Leave-IsOut (undeploy_failed o x w e l u f) h n = cc

  Leave-shard_of :
      {old : Option String} {st : State S W} {r : Option Error × State S W}
      → Leave ctl c old st r
      → (d : ObjectReference) → shard_of d r.1.maps ≡ shard_of d st.maps
  Leave-shard_of (stays_out e f) d = rw f
  Leave-shard_of {st = st} (leaves o e l f) d = rw f (shard_of-erase_from o c st.maps d)
  Leave-shard_of {st = st} (undeployed o w e l u f) d = rw f (shard_of-erase_from o c st.maps d)
  Leave-shard_of (undeploy_failed o x w e l u f) d = rw f

  Join-IsConsistentOn :
      {s : String} {st : State S W} {r : Option Error × State S W}
      → Join ctl c s st r
      → IsConsistentBut X c st.maps
      → IsOut c st.maps
      → r.0 ≡ none
      → IsConsistentOn X r.1.maps
  Join-IsConsistentOn {s} {st} (joins i f) h out n =
      rw f (add_to-IsConsistentOn X c st.maps s h out)
  Join-IsConsistentOn {s} {st} (deployed w i u f) h out n =
      rw f (add_to-IsConsistentOn X c st.maps s h out)
  Join-IsConsistentOn (deploy_failed x w i u f) h out n = cc

  Join-IsConsistentBut :
      {s : String} {st : State S W} {r : Option Error × State S W}
      → Join ctl c s st r
      → IsConsistentBut X c st.maps
      → IsOut c st.maps
      → IsConsistentBut X c r.1.maps
  Join-IsConsistentBut {s} {st} (joins i f) h out =
      rw f (but_of_IsConsistentOn X c _ (add_to-IsConsistentOn X c st.maps s h out))
  Join-IsConsistentBut {s} {st} (deployed w i u f) h out =
      rw f (but_of_IsConsistentOn X c _ (add_to-IsConsistentOn X c st.maps s h out))
  Join-IsConsistentBut (deploy_failed x w i u f) h out = rw f h

  -- `clusterMap` after the second half of trackCluster.
  Join-shard_of :
      {s : String} {st : State S W} {r : Option Error × State S W}
      → Join ctl c s st r
      → (d : ObjectReference)
      → shard_of d r.1.maps
        ≡ on_nil r.0 (if c == d then some s else shard_of d st.maps) (shard_of d st.maps)
  Join-shard_of {s} {st} (joins i f) d = rw f (shard_of-add_to s c st.maps d)
  Join-shard_of {s} {st} (deployed w i u f) d = rw f (shard_of-add_to s c st.maps d)
  Join-shard_of (deploy_failed x w i u f) d = rw f

  module _ (s : String) (st : State S W) where
    -- A call of trackCluster that returns nil keeps the maps consistent.
    pub track_cluster-IsConsistentOn :
        IsConsistentOn X st.maps
        → (track_cluster ctl c s st).0 ≡ none
        → IsConsistentOn X (track_cluster ctl c s st).1.maps
    track_cluster-IsConsistentOn h = go _ (track_cluster-Track ctl c s st)
      where
        go :
            (r : Option Error × State S W)
            → Track ctl c s st r
            → r.0 ≡ none
            → IsConsistentOn X r.1.maps
        go r (unchanged e f) n = rw f h
        go r (stuck x st' ne l f) n = cc
        go r (moved st' ne l j) n =
            Join-IsConsistentOn j (Leave-IsConsistentBut l (but_of_IsConsistentOn X c _ h))
              (Leave-IsOut l (but_of_IsConsistentOn X c _ h) refl) n

    pub track_cluster-recovers :
        IsConsistentBut X c st.maps
        → shard_of c st.maps ≢ some s
        → (track_cluster ctl c s st).0 ≡ none
        → IsConsistentOn X (track_cluster ctl c s st).1.maps
    track_cluster-recovers h ne = go _ (track_cluster-Track ctl c s st)
      where
        go :
            (r : Option Error × State S W)
            → Track ctl c s st r
            → r.0 ≡ none
            → IsConsistentOn X r.1.maps
        go r (unchanged e f) n = absurd (ne e)
        go r (stuck x st' _ l f) n = cc
        go r (moved st' _ l j) n =
            Join-IsConsistentOn j (Leave-IsConsistentBut l h) (Leave-IsOut l h refl) n

    pub track_cluster-IsConsistentBut :
        IsConsistentBut X c st.maps → IsConsistentBut X c (track_cluster ctl c s st).1.maps
    track_cluster-IsConsistentBut h = go _ (track_cluster-Track ctl c s st)
      where
        go : (r : Option Error × State S W) → Track ctl c s st r → IsConsistentBut X c r.1.maps
        go r (unchanged e f) = rw f h
        go r (stuck x st' ne l f) = rw f (Leave-IsConsistentBut l h)
        go r (moved st' ne l j) =
            Join-IsConsistentBut j (Leave-IsConsistentBut l h) (Leave-IsOut l h refl)

    pub track_cluster-shard_of :
        (d : ObjectReference)
        → shard_of d (track_cluster ctl c s st).1.maps
          ≡ on_nil
              (track_cluster ctl c s st).0
              (if c == d then some s else shard_of d st.maps)
              (shard_of d st.maps)
    track_cluster-shard_of d = go _ (track_cluster-Track ctl c s st)
      where
        go :
            (r : Option Error × State S W)
            → Track ctl c s st r
            → shard_of d r.1.maps
              ≡ on_nil r.0 (if c == d then some s else shard_of d st.maps) (shard_of d st.maps)
        go r (unchanged e f) = rw f (ground (arith, reference_eq.beq_iff c d))
        go r (stuck x st' ne l f) = rw f (Leave-shard_of l d)
        go r (moved st' ne l j) =
            Join-shard_of j d
            ∙ ap (λ (o : Option String). on_nil r.0 (if c == d then some s else o) o)
                (Leave-shard_of l d)

  module _ (st : State S W) where
    pub stop_tracking_cluster-IsConsistentOn :
        IsConsistentBut X c st.maps → IsConsistentOn X (stop_tracking_cluster ctl c st).1.maps
    stop_tracking_cluster-IsConsistentOn h = go _ (stop_tracking_cluster-Stop ctl c st)
      where
        absent_everywhere :
            (s : String)
            → is_member (key_or_empty (shard_of c st.maps)) c st.maps ≡ false
            → is_member s c st.maps ≡ false
        absent_everywhere s e = elim (Bool-cases (is_member s c st.maps)) [
          | inr n ↦ n
          | inl m ↦ let e' = rw (h.sound.owned s c m) at e in cc e'
        ]

        erased :
            (s : String)
            → s ≡ key_or_empty (shard_of c st.maps)
            → is_member s c st.maps ≡ true
            → IsConsistentOn X (erase_from s c (forget c st.maps))
        erased s e m = rw (erase_from-forget c st.maps s) (
            forget-IsConsistentOn X c _ (erase_from-IsConsistentBut X c st.maps s h)
              (erase_from-IsOut X c st.maps s h (h.sound.owned s c m)))

        go : (r : Option Error × State S W) → Stop ctl c st r → IsConsistentOn X r.1.maps
        go r (absent e f) = rw f (forget-IsConsistentOn X c st.maps h (λ s. absent_everywhere s e))
        go r (others_left s e m z f) = rw f (erased s e m)
        go r (last_one s x w e m z u f) = rw f (erased s e m)

    pub stop_tracking_cluster-shard_of :
        (d : ObjectReference)
        → shard_of d (stop_tracking_cluster ctl c st).1.maps
          ≡ (if c == d then none else shard_of d st.maps)
    stop_tracking_cluster-shard_of d = go _ (stop_tracking_cluster-Stop ctl c st)
      where
        go :
            (r : Option Error × State S W)
            → Stop ctl c st r
            → shard_of d r.1.maps ≡ (if c == d then none else shard_of d st.maps)
        go r (absent e f) = rw f (shard_of-forget c st.maps d)
        go r (others_left s e m z f) =
            rw (f, shard_of-erase_from s c (forget c st.maps) d) (shard_of-forget c st.maps d)
        go r (last_one s x w e m z u f) =
            rw (f, shard_of-erase_from s c (forget c st.maps) d) (shard_of-forget c st.maps d)
