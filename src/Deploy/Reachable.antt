-- ===== src/Deploy/Reachable.antt =====
-- The tracking (trackCluster, stopTrackingCluster) together with the calls that it makes
-- (deployControllers, undeployControllers), internal/controller/utils.go.
use shard_controller.Prelude.{
  any, All, List, none, ◌∙◌, ◌≡◌, String, not, nat_eq, ◌==◌, Bool-cases, inl, inr, eq_of_test,
  ne_of_test,
}
use shard_controller.Reference.{RefSet}
use shard_controller.Sharding.{Component}
use shard_controller.Documents.{Documents}
use shard_controller.Tracker.{State}
use shard_controller.Tracker.Views.{size}
use shard_controller.Tracker.Healthy.{Healthy, IsInStep, Healthy-IsInStep}
use shard_controller.Process.{Scheme, Names, returned}
use shard_controller.Process.Resync.{Item, reconcile_all, IsAllowedShard}
use shard_controller.Process.Answers.{Answers, wanted, wants}
use shard_controller.Process.Convergence.{IsCovered, reconcile_all-size}
use shard_controller.Deploy.{Settings, Api}
use shard_controller.Deploy.Objects.{IsServer, Naming}
use shard_controller.Deploy.Whole.{controllers}

module _ {S U R W : Type 0} ⦃sets : RefSet S⦄ (docs : Documents U R) (api : Api U W)
    (settings : Settings) (naming : Naming docs api settings) (server : IsServer api) where
  IsInStep-has :
      (st : State S W)
      → IsInStep (controllers docs api settings naming server) st
      → (s : String) → naming.IsKey s
      → (c : Component)
      → server.has settings.sveltos_namespace (naming.name_of c s) st.world
        ≡ not (size s st.maps == 0)
  unfolding controllers
  IsInStep-has st h s key c =
      let served = h.synced.served s key in
      elim (Bool-cases (size s st.maps == 0)) [
        | inl e ↦ rw e (served.gone (eq_of_test (size s st.maps) 0 e) c)
        | inr e ↦ rw e (served.running (ne_of_test (size s st.maps) 0 e) c)
      ]

  -- Let the documents parse to objects of the components' names, and the API server do what IsServer
  -- says. From the empty maps and a cluster without deployments of shards, while every call returns
  -- nil and every annotation is the key of a shard or empty, each of the five deployments of a shard
  -- is there exactly if the shard has clusters.
  pub Healthy-controllers :
      (st : State S W)
      → Healthy (controllers docs api settings naming server) st
      → (s : String) → naming.IsKey s
      → (c : Component)
      → server.has settings.sveltos_namespace (naming.name_of c s) st.world
        ≡ not (size s st.maps == 0)
  Healthy-controllers st h =
      IsInStep-has st (Healthy-IsInStep (controllers docs api settings naming server) h)

  -- Let the documents parse to objects of the components' names, the API server do what IsServer says,
  -- and its answers on clusters not change. Take a state in which the maps and the deployments are in
  -- step, and items that cover the tracked clusters, with annotations that are keys of shards or
  -- empty. If the reconciles of the items all return nil, then each of the five deployments of a shard
  -- is there exactly if the API server wants some cluster of the items in the shard.
  pub reconcile_all-controllers :
      (scheme : Scheme) (names : Names) (answers : Answers W scheme names) (items : List Item)
      (st st' : State S W)
      → IsInStep (controllers docs api settings naming server) st
      → IsCovered (controllers docs api settings naming server) scheme names answers items st
      → All
          (λ i.
            IsAllowedShard
              (controllers docs api settings naming server)
              (wanted scheme names answers i))
          items
      → reconcile_all
          (controllers docs api settings naming server)
          scheme
          names
          answers.get
          items
          st
        ≡ returned (none, st')
      → (s : String) → naming.IsKey s
      → (c : Component)
      → server.has settings.sveltos_namespace (naming.name_of c s) st'.world
        ≡ any (wants scheme names answers s) items
  reconcile_all-controllers scheme names answers items st st' b cover a h s key c =
      let (after, sizes) =
        reconcile_all-size (controllers docs api settings naming server) scheme names answers items
          st st' b cover a h in
      IsInStep-has st' after s key c ∙ sizes s
