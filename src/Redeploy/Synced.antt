-- ===== src/Redeploy/Synced.antt =====
-- redeployAllShards (internal/controller/utils.go), with no other call in between, keeps the deployments in step
-- with the maps.
use shard_controller.Prelude.{
  ◌≡◌, ◌≢◌, true, false, String, none, List, [], ◌∷◌, arith, string_eq, nat_eq, ◌==◌, Dict, ◌∙◌,
  ◌⊎◌, sym, inl, inr, Bool-cases, eq_of_test, ne_of_test,
}
use mathlib.Core.Bool.{false≢true}
use shard_controller.Reference.{RefSet}
use shard_controller.Shards.{Shards, IsAnnotation, deploy_frame, deploy_self}
use shard_controller.Tracker.{State, Maps}
use shard_controller.Tracker.Views.{size, is_member_of_size}
use shard_controller.Tracker.Sync.{IsSynced, IsAnnotated}
use shard_controller.Tracker.Consistency.{IsSound}
use shard_controller.Redeploy.{active_shards, deploy_each, redeploy_all_shards}
use shard_controller.Redeploy.Active.{contains, IsRange, contains-active_shards-size}

module _ {W : Type 0} (ctl : Shards W) where
  deploy_each-cons :
      (k : String) (keys : List String) (w : W)
      → (deploy_each ctl (k ∷ keys) w).0 ≡ none
      → (ctl.deploy k w ≡ (none, (ctl.deploy k w).1))
        × (deploy_each ctl (k ∷ keys) w ≡ deploy_each ctl keys (ctl.deploy k w).1)
  unfolding deploy_each
  deploy_each-cons k keys w n = ground arith

  module _ (t : String) (key : ctl.IsKey t) where
    -- One call: its own shard runs afterwards, and another is as it was.
    deploy-Running :
        (k : String) (w w' : W)
        → IsAnnotation ctl k
        → ctl.deploy k w ≡ (none, w')
        → ctl.Running t w ⊎ ((k == t) ≡ true)
        → ctl.Running t w'
    deploy-Running k w w' a u h = elim (Bool-cases (k == t)) [
      | inl e ↦ deploy_self ctl k t w w' key (eq_of_test k t e) u
      | inr e ↦ elim h [
        | inl r ↦ (rw u at (deploy_frame ctl k t w a key (ne_of_test k t e))).0 r
        | inr m ↦ absurd (false≢true (sym e ∙ m))
      ]
    ]

    deploy_each-Running :
        (keys : List String) (w : W)
        → ((k : String) → contains keys k ≡ true → IsAnnotation ctl k)
        → (deploy_each ctl keys w).0 ≡ none
        → ctl.Running t w ⊎ (contains keys t ≡ true)
        → ctl.Running t (deploy_each ctl keys w).1
    deploy_each-Running [] w a n (inl h) = unfold deploy_each in h
    deploy_each-Running [] w a n (inr h) = cc
    deploy_each-Running (k ∷ keys) w a n h =
        let (u, e) = deploy_each-cons k keys w n in
        let ak = a k (ground (arith, string_eq.beq_iff k k)) in
        let later =
          deploy_each-Running keys (ctl.deploy k w).1 (λ j m. a j (ground arith)) (rw e at n) in
        rw e (
          later (elim h [
            | inl r ↦ inl (deploy-Running k w _ ak u (inl r))
            | inr m ↦ elim (Bool-cases (k == t)) [
              | inl q ↦ inl (deploy-Running k w _ ak u (inr q))
              | inr q ↦ inr (ground arith)
            ]
          ]))

    deploy_each-Gone :
        (keys : List String) (w : W)
        → ((k : String) → contains keys k ≡ true → IsAnnotation ctl k)
        → (deploy_each ctl keys w).0 ≡ none
        → contains keys t ≡ false
        → ctl.Gone t w
        → ctl.Gone t (deploy_each ctl keys w).1
    deploy_each-Gone [] w a n m h = unfold deploy_each in h
    deploy_each-Gone (k ∷ keys) w a n m h =
        let (u, e) = deploy_each-cons k keys w n in
        let ak = a k (ground (arith, string_eq.beq_iff k k)) in
        rw e (
          deploy_each-Gone keys (ctl.deploy k w).1 (λ j q. a j (ground arith)) (rw e at n)
            (ground arith)
            ((deploy_frame ctl k t w ak key (λ q. ground (arith, string_eq.beq_iff k t))).1 h))

module _ {S W : Type 0} ⦃sets : RefSet S⦄ (ctl : Shards W) where
  pub listed_IsAnnotation :
      (entries : Dict String S) (m : Maps S)
      → IsRange entries m.shard_map
      → IsSound m
      → IsAnnotated ctl m
      → (k : String) → contains (active_shards entries) k ≡ true
      → IsAnnotation ctl k
  listed_IsAnnotation entries m r h a k e =
      let (c, mem) =
        is_member_of_size k m (λ z. ground (arith, contains-active_shards-size entries m k r)) in
      a.annotation c k (h.owned k c mem)

  -- If the sets of the maps are sound, the shards of the tracked clusters can be deployed, and the
  -- controllers of every shard run exactly if it has clusters, then this is so after a call of
  -- redeployAllShards that returns nil.
  pub redeploy_all_shards-IsSynced :
      (entries : Dict String S) (st : State S W)
      → IsRange entries st.maps.shard_map
      → IsSound st.maps
      → IsAnnotated ctl st.maps
      → IsSynced ctl st
      → (redeploy_all_shards ctl entries st).0 ≡ none
      → IsSynced ctl (redeploy_all_shards ctl entries st).1
  unfolding redeploy_all_shards
  redeploy_all_shards-IsSynced entries st r h a sy n = record {
    served = λ t key. record {
      running = λ p.
          deploy_each-Running ctl t key (active_shards entries) st.world
            (listed_IsAnnotation entries st.maps r h a) n (inl ((sy.served t key).running p));
      gone = λ z.
          deploy_each-Gone ctl t key (active_shards entries) st.world
            (listed_IsAnnotation entries st.maps r h a) n
            (contains-active_shards-size entries st.maps t r ∙ ground arith)
            ((sy.served t key).gone z);
    };
  }

  -- If the sets of the maps are sound and the shards of the tracked clusters are annotations that can
  -- be deployed, then after a call of redeployAllShards that returns nil the controllers of every shard
  -- with clusters run, whatever ran before.
  pub redeploy_all_shards-Running :
      (entries : Dict String S) (st : State S W)
      → IsRange entries st.maps.shard_map
      → IsSound st.maps
      → IsAnnotated ctl st.maps
      → (redeploy_all_shards ctl entries st).0 ≡ none
      → (t : String) → ctl.IsKey t
      → t ≢ ""
      → size t st.maps ≢ 0
      → ctl.Running t (redeploy_all_shards ctl entries st).1.world
  unfolding redeploy_all_shards
  redeploy_all_shards-Running entries st r h a n t key ne p =
      deploy_each-Running ctl t key (active_shards entries) st.world
        (listed_IsAnnotation entries st.maps r h a) n
        (inr (
          contains-active_shards-size entries st.maps t r ∙ ground (arith, string_eq.beq_iff t "")))
