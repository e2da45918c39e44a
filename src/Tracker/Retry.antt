-- ===== src/Tracker/Retry.antt =====
-- A trackCluster that returned an error is called again with the same arguments (the workqueue of
-- controller-runtime retries a failed Reconcile): what failed attempts leave, and that a later
-- successful one puts right.
use shard_controller.Prelude.{
  ◌≡◌, ◌≢◌, refl, sym, ◌∙◌, ◌⊎◌, true, String, Option, none, some, ◌==◌, string_eq, inl, inr,
  Bool-cases, ne_of_test, eq_of_test, ap,
}
use shard_controller.Errors.{Error}
use shard_controller.Reference.{ObjectReference, RefSet}
use shard_controller.Shards.{
  Shards, IsAnnotation, deploy_frame, undeploy_frame, deploy_self, undeploy_self,
}
use shard_controller.Tracker.{State, is_last, track_cluster}
use shard_controller.Tracker.Views.{shard_of, size}
use shard_controller.Tracker.Outcomes.{
  Leave, stays_out, leaves, undeployed, undeploy_failed, Join, joins, deployed, deploy_failed,
  Track, unchanged, stuck, moved, track_cluster-Track,
}
use shard_controller.Tracker.Sizes.{
  size-erase_last, size-erase_ne, size-add_to_self, size-idle, size-busy,
}
use shard_controller.Tracker.Sync.{
  IsServed, IsSynced, IsAnnotated, IsServed-frame, IsServed-running, IsServed-gone, Leave-IsServed,
  Join-IsServed,
}

module _ {S W : Type 0} ⦃sets : RefSet S⦄ (ctl : Shards W) (c : ObjectReference) (s : String) where
  -- A shard is served, or it is the new shard and has no cluster yet.
  abbrev pub IsReadyAt : String → State S W → Type 0
  IsReadyAt t st = IsServed ctl t st ⊎ ((s ≡ t) × (size t st.maps ≡ 0))

  -- Or it is the old shard, `c` is its last cluster, and its controllers are not all removed.
  abbrev pub IsPendingAt : String → State S W → Type 0
  IsPendingAt t st = IsReadyAt t st ⊎ ((shard_of c st.maps ≡ some t) × (is_last c t st.maps ≡ true))

  -- Nothing but the move of `c` to `s` is unfinished.
  pub record IsPending (st : State S W) : Type 0 where
    pub at : (t : String) → ctl.IsKey t → IsPendingAt t st

  module _ (t : String) (key : ctl.IsKey t) where
    Leave-done :
        {st : State S W} {r : Option Error × State S W}
        → Leave ctl c (shard_of c st.maps) st r
        → shard_of c st.maps ≢ some s
        → IsAnnotated ctl st.maps
        → r.0 ≡ none
        → IsPendingAt t st
        → IsReadyAt t r.1
    Leave-done l ne a n (inl (inl h)) = inl (Leave-IsServed ctl c t key l (a.annotation c) n h)
    Leave-done (stays_out e f) ne a n (inl (inr (q, z))) = inr (q, rw f z)
    Leave-done {st} (leaves o e l f) ne a n (inl (inr (q, z))) =
        inr (q, rw f (size-erase_ne o t c st.maps (λ p. ne (e ∙ ap some (p ∙ sym q))) ∙ z))
    Leave-done {st} (undeployed o w e l u f) ne a n (inl (inr (q, z))) =
        inr (q, rw f (size-erase_ne o t c st.maps (λ p. ne (e ∙ ap some (p ∙ sym q))) ∙ z))
    Leave-done (stays_out e f) ne a n (inr (q, z)) = cc
    Leave-done {st} (leaves o e l f) ne a n (inr (q, z)) = cc
    Leave-done {st} (undeployed o w e l u f) ne a n (inr (q, z)) =
        let p : o ≡ t = cc in
        inl (
          rw f (
            IsServed-gone ctl t _ (size-erase_last o t c st.maps l p)
              (undeploy_self ctl o t st.world w key p u)))
    Leave-done (undeploy_failed o x w e l u f) ne a n h = cc

    Leave-failed :
        {st : State S W} {r : Option Error × State S W} {x : Error}
        → Leave ctl c (shard_of c st.maps) st r
        → IsAnnotated ctl st.maps
        → r.0 ≡ some x
        → IsPendingAt t st
        → IsPendingAt t r.1
    Leave-failed (stays_out e f) a n h = cc
    Leave-failed (leaves o e l f) a n h = cc
    Leave-failed (undeployed o w e l u f) a n h = cc
    Leave-failed {st} (undeploy_failed o y w e l u f) a n (inl (inr h)) = inl (inr (rw f h))
    Leave-failed {st} (undeploy_failed o y w e l u f) a n (inr h) = inr (rw f h)
    Leave-failed {st} (undeploy_failed o y w e l u f) a n (inl (inl h)) =
        rw f (elim (Bool-cases (o == t)) [
          | inl q ↦ let p = eq_of_test o t q in inr (e ∙ ap some p, rw p at l)
          | inr q ↦ inl (
              inl (
                IsServed-frame ctl t st _ refl
                  (rw u at
                    (undeploy_frame ctl o t st.world (a.annotation c o e) key (ne_of_test o t q)))
                  h))
        ])

    Join-done :
        {st : State S W} {r : Option Error × State S W}
        → Join ctl c s st r
        → IsAnnotation ctl s
        → r.0 ≡ none
        → IsReadyAt t st
        → IsServed ctl t r.1
    Join-done j a n (inl h) = Join-IsServed ctl c t key j a n h
    Join-done {st} (joins i f) a n (inr (q, z)) = absurd (size-busy s t c st.maps i q z)
    Join-done {st} (deployed w i u f) a n (inr (q, z)) = rw f (
        IsServed-running ctl t _ (size-add_to_self s t c st.maps q)
          (deploy_self ctl s t st.world w key q u))
    Join-done (deploy_failed y w i u f) a n h = cc

    Join-failed :
        {st : State S W} {r : Option Error × State S W} {x : Error}
        → Join ctl c s st r
        → IsAnnotation ctl s
        → r.0 ≡ some x
        → IsReadyAt t st
        → IsPendingAt t r.1
    Join-failed (joins i f) a n h = cc
    Join-failed (deployed w i u f) a n h = cc
    Join-failed {st} (deploy_failed y w i u f) a n (inr h) = inl (inr (rw f h))
    Join-failed {st} (deploy_failed y w i u f) a n (inl h) = rw f (elim (Bool-cases (s == t)) [
      | inl q ↦ inl (inr (eq_of_test s t q, size-idle s t c st.maps i (eq_of_test s t q)))
      | inr q ↦ inl (
          inl (
            IsServed-frame ctl t st _ refl
              (rw u at (deploy_frame ctl s t st.world a key (ne_of_test s t q))) h))
    ])

  -- What happens to the cluster meanwhile, without touching a shard's deployments.
  pub IsPending-frame :
      (st : State S W) (w : W)
      → ((t : String)
          → ctl.IsKey t
          → (ctl.Running t st.world → ctl.Running t w) × (ctl.Gone t st.world → ctl.Gone t w))
      → IsPending st
      → IsPending (record st { world = w })
  IsPending-frame st w keep h = record { at = λ t key. go t key (h.at t key) }
    where
      go : (t : String) → ctl.IsKey t → IsPendingAt t st → IsPendingAt t (record st { world = w })
      go t key (inl (inl v)) = inl (inl (IsServed-frame ctl t st _ refl (keep t key) v))
      go t key (inl (inr v)) = inl (inr v)
      go t key (inr v) = inr v

  -- From a state in step with the maps, the first call starts with nothing pending.
  pub IsSynced-IsPending : (st : State S W) → IsSynced ctl st → IsPending st
  IsSynced-IsPending st h = record { at = λ t key. inl (inl (h.served t key)) }

  module _ (st : State S W) (a : IsAnnotation ctl s) (all : IsAnnotated ctl st.maps) where
    -- A failed attempt to move a cluster to a shard leaves nothing else unfinished, even after
    -- earlier failed attempts.
    pub track_cluster-IsPending :
        {x : Error}
        → shard_of c st.maps ≢ some s
        → IsPending st
        → (track_cluster ctl c s st).0 ≡ some x
        → IsPending (track_cluster ctl c s st).1
    track_cluster-IsPending {x} ne h n = record {
      at = λ t key. go t key _ (track_cluster-Track ctl c s st) n;
    }
      where
        go :
            (t : String)
            → ctl.IsKey t
            → (r : Option Error × State S W) → Track ctl c s st r
            → r.0 ≡ some x
            → IsPendingAt t r.1
        go t key r (unchanged e f) n = absurd (ne e)
        go t key r (stuck y st' _ l f) n = rw f (Leave-failed t key l all refl (h.at t key))
        go t key r (moved st' _ l j) n =
            Join-failed t key j a n (Leave-done t key l ne all refl (h.at t key))

    -- Once an attempt succeeds, the controllers of every shard run exactly if it has clusters.
    pub track_cluster-completes :
        shard_of c st.maps ≢ some s
        → IsPending st
        → (track_cluster ctl c s st).0 ≡ none
        → IsSynced ctl (track_cluster ctl c s st).1
    track_cluster-completes ne h n = record {
      served = λ t key. go t key _ (track_cluster-Track ctl c s st) n;
    }
      where
        go :
            (t : String)
            → ctl.IsKey t
            → (r : Option Error × State S W) → Track ctl c s st r
            → r.0 ≡ none
            → IsServed ctl t r.1
        go t key r (unchanged e f) n = absurd (ne e)
        go t key r (stuck y st' _ l f) n = cc
        go t key r (moved st' _ l j) n =
            Join-done t key j a n (Leave-done t key l ne all refl (h.at t key))
