-- ===== src/Shards.antt =====
-- What the cluster tracking (trackCluster, stopTrackingCluster, redeployAllShards in
-- internal/controller/utils.go) needs of deployControllers and undeployControllers. `W` is the state
-- of the management cluster.
use shard_controller.Prelude.{◌≡◌, ◌≢◌, ◌⊎◌, inl, inr, ap, String, Option, none}
use shard_controller.Errors.{Error, Action}

pub record Shards (W : Type 0) : Type 1 where
  pub deploy : String → Action W
  pub undeploy : String → Action W
  -- The keys for which deployments can exist at all.
  pub IsKey : String → Type 0
  -- All deployments of a shard are there; none of them is there.
  pub Running : String → W → Type 0
  pub Gone : String → W → Type 0
  -- Clusters without a shard annotation have the empty key: nothing is deployed for it.
  pub deploy-empty : (w : W) → deploy "" w ≡ (none, w)
  pub undeploy-empty : (w : W) → undeploy "" w ≡ (none, w)
  pub deploy-Running :
      (s : String) (w : W) → IsKey s → (deploy s w).0 ≡ none → Running s (deploy s w).1
  pub undeploy-Gone :
      (s : String) (w : W) → IsKey s → (undeploy s w).0 ≡ none → Gone s (undeploy s w).1
  -- Whatever it returns, a call that deploys removes nothing, and one that removes deploys nothing; and
  -- one shard's deployments are not touched by a call for another.
  pub deploy_keeps_Running :
      (s t : String) (w : W) → IsKey s → IsKey t → Running t w → Running t (deploy s w).1
  pub deploy_keeps_Gone :
      (s t : String) (w : W) → IsKey s → IsKey t → s ≢ t → Gone t w → Gone t (deploy s w).1
  pub undeploy_keeps_Running :
      (s t : String) (w : W) → IsKey s → IsKey t → s ≢ t → Running t w → Running t (undeploy s w).1
  pub undeploy_keeps_Gone :
      (s t : String) (w : W) → IsKey s → IsKey t → Gone t w → Gone t (undeploy s w).1

module _ {W : Type 0} (ctl : Shards W) where
  -- The annotations that the tracking can be given: none, or the key of a shard.
  abbrev pub IsAnnotation : String → Type 0
  IsAnnotation s = ctl.IsKey s ⊎ (s ≡ "")

  -- What the laws say of one other shard `t`, whatever the calls return.
  pub deploy_frame :
      (s t : String) (w : W)
      → IsAnnotation s
      → ctl.IsKey t
      → s ≢ t
      → (ctl.Running t w → ctl.Running t (ctl.deploy s w).1)
        × (ctl.Gone t w → ctl.Gone t (ctl.deploy s w).1)
  deploy_frame s t w (inl k) kt ne =
      (ctl.deploy_keeps_Running s t w k kt, ctl.deploy_keeps_Gone s t w k kt ne)
  deploy_frame s t w (inr e) kt ne = rw (e, ctl.deploy-empty w) ((λ r. r), (λ g. g))

  -- A call that deploys, for the same shard or another.
  pub deploy_keeps :
      (s t : String) (w : W)
      → IsAnnotation s
      → ctl.IsKey t
      → ctl.Running t w
      → ctl.Running t (ctl.deploy s w).1
  deploy_keeps s t w (inl k) kt r = ctl.deploy_keeps_Running s t w k kt r
  deploy_keeps s t w (inr e) kt r = rw (e, ctl.deploy-empty w) r

  pub undeploy_frame :
      (s t : String) (w : W)
      → IsAnnotation s
      → ctl.IsKey t
      → s ≢ t
      → (ctl.Running t w → ctl.Running t (ctl.undeploy s w).1)
        × (ctl.Gone t w → ctl.Gone t (ctl.undeploy s w).1)
  undeploy_frame s t w (inl k) kt ne =
      (ctl.undeploy_keeps_Running s t w k kt ne, ctl.undeploy_keeps_Gone s t w k kt)
  undeploy_frame s t w (inr e) kt ne = rw (e, ctl.undeploy-empty w) ((λ r. r), (λ g. g))

  -- And of the shard itself, by the call's result.
  pub deploy_self :
      (s t : String) (w w' : W)
      → ctl.IsKey t
      → s ≡ t
      → ctl.deploy s w ≡ (none, w')
      → ctl.Running t w'
  deploy_self s t w w' kt e u =
      rw (ap (λ (p : Option Error × W). p.1) (rw e at u)) at
        (ctl.deploy-Running t w kt (ap (λ (p : Option Error × W). p.0) (rw e at u)))

  pub undeploy_self :
      (s t : String) (w w' : W)
      → ctl.IsKey t
      → s ≡ t
      → ctl.undeploy s w ≡ (none, w')
      → ctl.Gone t w'
  undeploy_self s t w w' kt e u =
      rw (ap (λ (p : Option Error × W). p.1) (rw e at u)) at
        (ctl.undeploy-Gone t w kt (ap (λ (p : Option Error × W). p.0) (rw e at u)))
