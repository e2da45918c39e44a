-- ===== src/Tracker/Sync.antt =====
-- The deployments that are there against the maps (internal/controller/utils.go): the controllers of
-- a shard run exactly while some cluster matches the shard.
use shard_controller.Prelude.{
  ◌≡◌, ◌≢◌, refl, sym, ◌∙◌, String, Option, none, some, ◌==◌, string_eq, inl, inr, Bool-cases,
  ne_of_test, eq_of_test,
}
use shard_controller.Errors.{Error}
use shard_controller.Reference.{ObjectReference, reference_eq, RefSet}
use shard_controller.Shards.{
  Shards, IsAnnotation, deploy_frame, undeploy_frame, deploy_self, undeploy_self,
}
use shard_controller.Tracker.{Maps, State, track_cluster, stop_tracking_cluster, key_or_empty}
use shard_controller.Tracker.Sizes.{
  size-erase_last, size-erase_other, size-erase_absent, size-member, size-erase_ne,
  size-add_to_self, size-add_to_ne, size-stop, size-at, size-busy,
}
use shard_controller.Tracker.Views.{shard_of, is_member, size, size-forget}
use shard_controller.Tracker.Outcomes.{
  Leave, stays_out, leaves, undeployed, undeploy_failed, Join, joins, deployed, deploy_failed,
  Track, unchanged, stuck, moved, Stop, absent, others_left, last_one, track_cluster-Track,
  stop_tracking_cluster-Stop,
}

pub key_IsAnnotation :
    {W : Type 0} (ctl : Shards W) (o : Option String)
    → ((s : String) → o ≡ some s → IsAnnotation ctl s)
    → IsAnnotation ctl (key_or_empty o)
key_IsAnnotation ctl none a = inr refl
key_IsAnnotation ctl (some s) a = a s refl

module _ {S W : Type 0} ⦃sets : RefSet S⦄ (ctl : Shards W) where
  -- At one shard.
  pub record IsServed (t : String) (st : State S W) : Type 0 where
    pub running : size t st.maps ≢ 0 → ctl.Running t st.world
    pub gone : size t st.maps ≡ 0 → ctl.Gone t st.world

  -- The controllers of a shard run if some cluster is in it, and none is there otherwise.
  pub record IsSynced (st : State S W) : Type 0 where
    pub served : (t : String) → ctl.IsKey t → IsServed t st

  -- A write that leaves the length alone and a call that keeps what is there.
  pub IsServed-frame :
      (t : String) (st st' : State S W)
      → size t st'.maps ≡ size t st.maps
      → (ctl.Running t st.world → ctl.Running t st'.world)
        × (ctl.Gone t st.world → ctl.Gone t st'.world)
      → IsServed t st
      → IsServed t st'
  IsServed-frame t st st' e frame h = record {
    running = λ p. frame.0 (h.running (λ z. p (e ∙ z)));
    gone = λ z. frame.1 (h.gone (sym e ∙ z));
  }

  pub IsServed-running :
      (t : String) (st : State S W) → size t st.maps ≢ 0 → ctl.Running t st.world → IsServed t st
  IsServed-running t st p r = record { running = λ _. r; gone = λ z. absurd (p z) }

  pub IsServed-gone :
      (t : String) (st : State S W) → size t st.maps ≡ 0 → ctl.Gone t st.world → IsServed t st
  IsServed-gone t st z g = record { running = λ p. absurd (p z); gone = λ _. g }

  module _ (c : ObjectReference) (t : String) (key : ctl.IsKey t) where
    pub Leave-IsServed :
        {old : Option String} {st : State S W} {r : Option Error × State S W}
        → Leave ctl c old st r
        → ((o : String) → old ≡ some o → IsAnnotation ctl o)
        → r.0 ≡ none
        → IsServed t st
        → IsServed t r.1
    Leave-IsServed (stays_out e f) a n h = rw f h
    Leave-IsServed {st = st} (leaves o e l f) a n h = rw f (elim (Bool-cases (o == t)) [
      | inl q ↦ elim (Bool-cases (is_member o c st.maps)) [
        | inl m ↦
            IsServed-running t _ (size-erase_other o t c st.maps m l (eq_of_test o t q))
              (h.running (size-member o t c st.maps m (eq_of_test o t q)))
        | inr m ↦
            IsServed-frame t st _ (size-erase_absent o t c st.maps m (eq_of_test o t q))
              ((λ p. p), (λ g. g)) h
      ]
      | inr q ↦
          IsServed-frame t st _ (size-erase_ne o t c st.maps (ne_of_test o t q))
            ((λ p. p), (λ g. g)) h
    ])
    Leave-IsServed {st = st} (undeployed o w e l u f) a n h = rw f (elim (Bool-cases (o == t)) [
      | inl q ↦
          IsServed-gone t _ (size-erase_last o t c st.maps l (eq_of_test o t q))
            (undeploy_self ctl o t st.world w key (eq_of_test o t q) u)
      | inr q ↦
          IsServed-frame t st _ (size-erase_ne o t c st.maps (ne_of_test o t q))
            (rw u at (undeploy_frame ctl o t st.world (a o e) key (ne_of_test o t q))) h
    ])
    Leave-IsServed (undeploy_failed o x w e l u f) a n h = cc

    pub Join-IsServed :
        {s : String} {st : State S W} {r : Option Error × State S W}
        → Join ctl c s st r
        → IsAnnotation ctl s
        → r.0 ≡ none
        → IsServed t st
        → IsServed t r.1
    Join-IsServed {s} {st} (joins i f) a n h = rw f (elim (Bool-cases (s == t)) [
      | inl q ↦
          IsServed-running t _ (size-add_to_self s t c st.maps (eq_of_test s t q))
            (h.running (size-busy s t c st.maps i (eq_of_test s t q)))
      | inr q ↦
          IsServed-frame t st _ (size-add_to_ne s t c st.maps (ne_of_test s t q))
            ((λ p. p), (λ g. g)) h
    ])
    Join-IsServed {s} {st} (deployed w i u f) a n h = rw f (elim (Bool-cases (s == t)) [
      | inl q ↦
          IsServed-running t _ (size-add_to_self s t c st.maps (eq_of_test s t q))
            (deploy_self ctl s t st.world w key (eq_of_test s t q) u)
      | inr q ↦
          IsServed-frame t st _ (size-add_to_ne s t c st.maps (ne_of_test s t q))
            (rw u at (deploy_frame ctl s t st.world a key (ne_of_test s t q))) h
    ])
    Join-IsServed (deploy_failed x w i u f) a n h = cc

    pub Stop-IsServed :
        {st : State S W} {r : Option Error × State S W}
        → Stop ctl c st r
        → ((o : String) → shard_of c st.maps ≡ some o → IsAnnotation ctl o)
        → r.0 ≡ none
        → IsServed t st
        → IsServed t r.1
    Stop-IsServed {st} (absent e f) a n h =
        rw f (IsServed-frame t st _ (size-forget c st.maps t) ((λ p. p), (λ g. g)) h)
    Stop-IsServed {st} (others_left s e m z f) a n h = rw f (elim (Bool-cases (s == t)) [
      | inl q ↦
          IsServed-running t _
            (λ y. z (size-at s t c st.maps (eq_of_test s t q) ∙ sym (size-stop s t c st.maps) ∙ y))
            (h.running (size-member s t c st.maps m (eq_of_test s t q)))
      | inr q ↦
          IsServed-frame t st _
            (size-stop s t c st.maps ∙ size-erase_ne s t c st.maps (ne_of_test s t q))
            ((λ p. p), (λ g. g)) h
    ])
    Stop-IsServed {st} (last_one s none w e m z u f) a n h = rw f (elim (Bool-cases (s == t)) [
      | inl q ↦
          IsServed-gone t _
            (size-stop s t c st.maps ∙ sym (size-at s t c st.maps (eq_of_test s t q)) ∙ z)
            (undeploy_self ctl s t st.world w key (eq_of_test s t q) u)
      | inr q ↦
          IsServed-frame t st _
            (size-stop s t c st.maps ∙ size-erase_ne s t c st.maps (ne_of_test s t q))
            (rw u at (
              undeploy_frame ctl s t st.world (rw e (key_IsAnnotation ctl _ a)) key
                (ne_of_test s t q)))
            h
    ])
    Stop-IsServed {st} (last_one s (some x) w e m z u f) a n h = cc

  -- The clusters that are tracked have annotations.
  pub record IsAnnotated (m : Maps S) : Type 0 where
    pub annotation : (d : ObjectReference) (s : String) → shard_of d m ≡ some s → IsAnnotation ctl s

  module _ (c : ObjectReference) where
    pub track_cluster-IsSynced :
        (s : String) (st : State S W)
        → IsAnnotation ctl s
        → IsAnnotated st.maps
        → IsSynced st
        → (track_cluster ctl c s st).0 ≡ none
        → IsSynced (track_cluster ctl c s st).1
    track_cluster-IsSynced s st a all sy n = record {
      served = λ t key. go t key _ (track_cluster-Track ctl c s st) n;
    }
      where
        go :
            (t : String)
            → ctl.IsKey t
            → (r : Option Error × State S W) → Track ctl c s st r
            → r.0 ≡ none
            → IsServed t r.1
        go t key r (unchanged e f) n = rw f (sy.served t key)
        go t key r (stuck x st' ne l f) n = cc
        go t key r (moved st' ne l j) n =
            Join-IsServed c t key j a n
              (Leave-IsServed c t key l (all.annotation c) refl (sy.served t key))

    pub stop_tracking_cluster-IsSynced :
        (st : State S W)
        → IsAnnotated st.maps
        → IsSynced st
        → (stop_tracking_cluster ctl c st).0 ≡ none
        → IsSynced (stop_tracking_cluster ctl c st).1
    stop_tracking_cluster-IsSynced st all sy n = record {
      served = λ t key.
          Stop-IsServed c t key (stop_tracking_cluster-Stop ctl c st) (all.annotation c) n
            (sy.served t key);
    }
