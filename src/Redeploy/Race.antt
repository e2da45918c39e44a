-- ===== src/Redeploy/Race.antt =====
-- The calls of the reconcilers interleaved: redeployAllShards (internal/controller/utils.go) lists the
-- active shards under the lock and deploys them one by one without it, so that trackCluster and
-- stopTrackingCluster run in between.
use shard_controller.Prelude.{
  ◌≡◌, refl, sym, ◌∙◌, true, String, Option, none, some, List, [], ◌∷◌, arith, string_eq, nat_eq,
  Dict,
}
use shard_controller.Errors.{Error}
use shard_controller.Reference.{ObjectReference, RefSet}
use shard_controller.Shards.{Shards}
use shard_controller.Tracker.{State, is_last, stop_tracking_cluster}
use shard_controller.Tracker.Views.{shard_of, size, is_last-size}
use shard_controller.Tracker.Sizes.{size-erase_last, size-stop}
use shard_controller.Tracker.Outcomes.{
  Stop, absent, others_left, last_one, stop_tracking_cluster-Stop,
}
use shard_controller.Tracker.Runs.{Event, stops, perform, perform-IsSound}
use shard_controller.Tracker.Consistency.{IsSound}
use shard_controller.Redeploy.{active_shards}
use shard_controller.Redeploy.Active.{IsRange}

-- The shared state, and the shards that the ConfigMap reconciler has still to deploy.
pub record System (S W : Type 0) : Type 0 where
  pub state : State S W
  pub pending : List String

module _ {S W : Type 0} ⦃sets : RefSet S⦄ (ctl : Shards W) where
  pub data Step (s : System S W) : System S W → Type 0 where
    -- a Reconcile of a cluster, under the lock, whatever it returns
    reconciles : (ev : Event) → Step s (record s { state = (perform ctl ev s.state).1 })
    -- a Reconcile of the ConfigMap lists the active shards, in the order of `entries`
    lists :
        (entries : Dict String S)
        → IsRange entries s.state.maps.shard_map
        → s.pending ≡ []
        → Step s (record s { pending = active_shards entries })
    -- it deploys the next one, and ends at an error
    deploys :
        (key : String) (keys : List String) (w : W)
        → s.pending ≡ key ∷ keys
        → ctl.deploy key s.state.world ≡ (none, w)
        → Step s (record { state = record s.state { world = w }; pending = keys })
    fails :
        (key : String) (keys : List String) (e : Error) (w : W)
        → s.pending ≡ key ∷ keys
        → ctl.deploy key s.state.world ≡ (some e, w)
        → Step s (record { state = record s.state { world = w }; pending = [] })

  pub data Steps (s : System S W) : System S W → Type 0 where
    here : Steps s s
    next : {t u : System S W} → Steps s t → Step t u → Steps s u

  -- Whatever steps are taken from maps in which a cluster is in the set of no shard but its own, this
  -- is so in the end.
  pub Steps-IsSound : {s t : System S W} → IsSound s.state.maps → Steps s t → IsSound t.state.maps
  Steps-IsSound h here = h
  Steps-IsSound h (next r (reconciles ev)) = perform-IsSound ctl ev _ (Steps-IsSound h r)
  Steps-IsSound h (next r (lists entries x p)) = Steps-IsSound h r
  Steps-IsSound h (next r (deploys key keys w p u)) = Steps-IsSound h r
  Steps-IsSound h (next r (fails key keys e w p u)) = Steps-IsSound h r

  Stop-size :
      (c : ObjectReference) (s : String) (st : State S W)
      → shard_of c st.maps ≡ some s
      → is_last c s st.maps ≡ true
      → (r : Option Error × State S W) → Stop ctl c st r
      → size s r.1.maps ≡ 0
  Stop-size c s st e l r (absent m f) =
      let k = rw e at m in absurd (ground (arith, is_last-size c s st.maps))
  Stop-size c s st e l r (others_left k q m z f) =
      let p : s ≡ k = rw e at (sym q) in absurd (z (size-erase_last k k c st.maps (rw p at l) refl))
  Stop-size c s st e l r (last_one k x w q m z u f) =
      let p : s ≡ k = rw e at (sym q) in rw (f, p) (size-stop k k c st.maps ∙ z)

  -- The last cluster of a shard, the first that redeployAllShards lists, can go between the listing and
  -- the deployment. If that deployment succeeds, the steps lead to a state in which the shard has no
  -- cluster and its controllers run.
  pub redeploy_race :
      (c : ObjectReference) (s : String) (st : State S W) (entries : Dict String S)
      (keys : List String)
      → ctl.IsKey s
      → shard_of c st.maps ≡ some s
      → is_last c s st.maps ≡ true
      → IsRange entries st.maps.shard_map
      → active_shards entries ≡ s ∷ keys
      → (ctl.deploy s (stop_tracking_cluster ctl c st).1.world).0 ≡ none
      → (t : System S W) × Steps (record { state = st; pending = [] }) t
        × (size s t.state.maps ≡ 0)
        × ctl.Running s t.state.world
  unfolding perform
  redeploy_race c s st entries keys key e l range head n = (
    record { state = record stopped { world = w }; pending = keys },
    next (next (next here (lists entries range refl)) (reconciles (stops c)))
        (deploys s keys w head (ground arith)),
    Stop-size c s st e l _ (stop_tracking_cluster-Stop ctl c st),
    ctl.deploy-Running s stopped.world key n,
  )
    where
      stopped : State S W
      stopped = (stop_tracking_cluster ctl c st).1

      w : W
      w = (ctl.deploy s stopped.world).1
