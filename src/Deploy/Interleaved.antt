-- ===== src/Deploy/Interleaved.antt =====
-- deployControllers and undeployControllers (internal/controller/utils.go) call by call, with the calls of
-- other deployControllers between their own: redeployAllShards runs without the lock.
use shard_controller.Prelude.{◌≡◌, ◌≢◌, refl, true, String, Option, none, some, List, [], ◌∷◌, All}
use shard_controller.Errors.{Error, Action, go_on, for_each}
use shard_controller.Sharding.{Component, components}
use shard_controller.Patches.{Patch}
use shard_controller.Documents.{Documents}
use shard_controller.Deploy.{Settings, Api, deploy_component, undeploy_component}
use shard_controller.Deploy.Objects.{
  IsServer, Naming, deploy_component-Deployed, undeploy_component-Removed,
}
use shard_controller.Deploy.Effects.{Deployed-own, Deployed-keeps, Removed-other}
use shard_controller.Deploy.Whole.{of_components, IsRunning}

module _ {U R W : Type 0} (docs : Documents U R) (api : Api U W) (settings : Settings)
    (naming : Naming docs api settings) where
  -- Calls for single components, of any shards, with any patches.
  pub data Others (w : W) : W → Type 0 where
    still : Others w w
    other :
        {v : W}
        → Others w v
        → (t : String) (patches : List Patch) (c : Component) → naming.IsKey t
        → Others w (deploy_component docs api settings t patches c v).1

  -- A loop over components up to its first error, with others' calls before each of its own.
  pub data Interleaved (f : Component → Action W)
      : List Component → W → Option Error × W → Type 0 where
    ends : {w v : W} → Others w v → Interleaved f [] w (none, v)
    calls :
        {c : Component} {rest : List Component} {w v u : W} {r : Option Error × W}
        → Others w v
        → f c v ≡ (none, u)
        → Interleaved f rest u r
        → Interleaved f (c ∷ rest) w r
    fails :
        {c : Component} {rest : List Component} {w v u : W} {e : Error}
        → Others w v
        → f c v ≡ (some e, u)
        → Interleaved f (c ∷ rest) w (some e, u)

  -- The loop with nothing in between is one of them.
  pub for_each-Interleaved :
      (f : Component → Action W) (cs : List Component) (w : W)
      → Interleaved f cs w (for_each f cs w)
  unfolding for_each
  for_each-Interleaved f [] w = ends still
  for_each-Interleaved f (c ∷ rest) w = go (f c w) refl (λ v. for_each-Interleaved f rest v)
    where
      go :
          (r : Option Error × W)
          → f c w ≡ r
          → ((v : W) → Interleaved f rest v (for_each f rest v))
          → Interleaved f (c ∷ rest) w (go_on r.0 (for_each f rest) r.1)
      go (none, v) e later = calls still e (later v)
      go (some x, v) e later = fails still e

  module _ (server : IsServer api) where
    Others-keeps :
        (ns n : String) {w v : W} → Others w v → server.has ns n w ≡ true → server.has ns n v ≡ true
    Others-keeps ns n still h = h
    Others-keeps ns n (other {v} o t patches c key) h =
        Deployed-keeps docs api settings naming server c t key v
          (deploy_component-Deployed docs api settings naming c t key v patches) ns n
          (Others-keeps ns n o h)

    module _ (f : Component → Action W) (ns n : String)
        (keep : (c : Component) (w : W)
          → server.has ns n w ≡ true
          → server.has ns n (f c w).1 ≡ true) where
      Interleaved-keeps :
          {cs : List Component} {w : W} {r : Option Error × W}
          → Interleaved f cs w r
          → server.has ns n w ≡ true
          → server.has ns n r.1 ≡ true
      Interleaved-keeps (ends o) h = Others-keeps ns n o h
      Interleaved-keeps (calls {c} {v = v} o e i) h =
          Interleaved-keeps i (rw e at (keep c v (Others-keeps ns n o h)))
      Interleaved-keeps (fails {c} {v = v} o e) h = rw e at (keep c v (Others-keeps ns n o h))

    module _ (s : String) (key : naming.IsKey s) where
      abbrev Has : Component → W → Type 0
      Has c w = server.has settings.sveltos_namespace (naming.name_of c s) w ≡ true

      deploy_component_keeps :
          (patches : List Patch) (ns n : String) (c : Component) (w : W)
          → server.has ns n w ≡ true
          → server.has ns n (deploy_component docs api settings s patches c w).1 ≡ true
      deploy_component_keeps patches ns n c w =
          Deployed-keeps docs api settings naming server c s key w
            (deploy_component-Deployed docs api settings naming c s key w patches) ns n

      Interleaved-All :
          (patches : List Patch) {cs : List Component} {w : W} {r : Option Error × W}
          → Interleaved (deploy_component docs api settings s patches) cs w r
          → r.0 ≡ none
          → All (λ c. Has c r.1) cs
      Interleaved-All patches (ends o) z = tt
      Interleaved-All patches (calls {c} {v = v} o e i) z = (
        Interleaved-keeps (deploy_component docs api settings s patches) _ _
            (deploy_component_keeps patches _ _) i
            (rw e at (
              Deployed-own docs api settings naming server c s key v
                (deploy_component-Deployed docs api settings naming c s key v patches)
                (rw e refl))),
        Interleaved-All patches i z,
      )
      Interleaved-All patches (fails o e) z = cc

      -- If the loop of deployControllers comes to nil, with the calls of other deployControllers anywhere
      -- between its own, the deployments of all five components are there.
      pub deploy_interleaved-IsRunning :
          (patches : List Patch) (w : W) (r : Option Error × W)
          → Interleaved (deploy_component docs api settings s patches) components w r
          → r.0 ≡ none
          → IsRunning docs api settings naming server s r.1
      deploy_interleaved-IsRunning patches w r i z = of_components _ (Interleaved-All patches i z)

      -- However the loop of deployControllers ends, with the calls of other deployControllers anywhere
      -- between its own, every deployment that was there before, of whatever name, is there.
      pub deploy_interleaved_keeps :
          (patches : List Patch) (w : W) (r : Option Error × W)
          → Interleaved (deploy_component docs api settings s patches) components w r
          → (ns n : String) → server.has ns n w ≡ true
          → server.has ns n r.1 ≡ true
      deploy_interleaved_keeps patches w r i ns n h =
          Interleaved-keeps (deploy_component docs api settings s patches) ns n
            (deploy_component_keeps patches ns n) i h

      -- However the loop of undeployControllers ends, with the calls of other deployControllers anywhere
      -- between its own: if the deployments of another shard were there, they are there in the end.
      pub undeploy_interleaved-IsRunning :
          (t : String)
          → naming.IsKey t
          → s ≢ t
          → (w : W) (r : Option Error × W)
          → Interleaved (undeploy_component docs api settings s) components w r
          → IsRunning docs api settings naming server t w
          → IsRunning docs api settings naming server t r.1
      undeploy_interleaved-IsRunning t kt ne w r i h c =
          Interleaved-keeps (undeploy_component docs api settings s) _ _
            (λ d v.
              Removed-other docs api settings naming server d s key v
                (undeploy_component-Removed docs api settings naming d s key v) _ _
                (naming.apart d c s t key kt ne))
            i (h c)
