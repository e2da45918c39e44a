-- ===== src/Deploy/Failures.antt =====
-- deployControllers and undeployControllers (internal/controller/utils.go) when they return an error: which calls
-- have been made, and what is there.
use shard_controller.Prelude.{
  ◌≡◌, sym, ◌∙◌, ◌⊎◌, inl, inr, true, false, String, Option, none, some, List, ◌∷◌, ◌++◌, All,
  All-mono,
}
use shard_controller.Errors.{nil_and, Error, for_each}
use shard_controller.Errors.Sequences.{for_each-All, for_each-failed}
use shard_controller.Sharding.{Component, components}
use shard_controller.Patches.{Patch}
use shard_controller.Documents.{Documents}
use shard_controller.Deploy.{
  Settings, Api, deploy_component, undeploy_component, deploy_controllers, undeploy_controllers,
}
use shard_controller.Deploy.Objects.{
  IsServer, Naming, deploy_component-Deployed, undeploy_component-Removed,
}
use shard_controller.Deploy.Effects.{Deployed-own, Deployed-keeps, Removed-own, Removed-keeps}
use shard_controller.Deploy.Whole.{deploy_controllers-cases, undeploy_controllers-key}

module _ {U R W : Type 0} (docs : Documents U R) (api : Api U W) (settings : Settings)
    (naming : Naming docs api settings) (server : IsServer api) (s : String)
    (key : naming.IsKey s) where
  abbrev pub Has : W → Component → Type 0
  Has w c = server.has settings.sveltos_namespace (naming.name_of c s) w ≡ true

  abbrev pub Lacks : W → Component → Type 0
  Lacks w c = server.has settings.sveltos_namespace (naming.name_of c s) w ≡ false

  -- If deployControllers returns an error, either the patches could not be had, and nothing has changed;
  -- or the calls for the components before one, in their order, returned nil, and the deployments of
  -- these are there, and the call for that one returned the error and was the last.
  pub deploy_controllers_failed :
      (w w' : W) (e : Error)
      → deploy_controllers docs api settings s w ≡ (some e, w')
      → (w' ≡ w)
        ⊎ ((patches : List Patch) × (done : List Component) × (c : Component) × (rest : List
              Component)
            × (mid : W) × (components ≡ done ++ c ∷ rest)
            × (for_each (deploy_component docs api settings s patches) done w ≡ (none, mid))
            × All (Has w') done
            × (deploy_component docs api settings s patches c mid ≡ (some e, w')))
  deploy_controllers_failed w w' e h =
      elim (deploy_controllers-cases docs api settings naming server s w key) [
        | inl (x, k) ↦ inl (let q = sym h ∙ k in cc)
        | inr (patches, k) ↦
            let f : Component → W → Option Error × W =
              deploy_component docs api settings s patches in
            let (done, c, rest, q, z, u) = for_each-failed f components w w' e (sym k ∙ h) in
            inr (
              patches,
              done,
              c,
              rest,
              (for_each f done w).1,
              q,
              nil_and (for_each f done w) z,
              All-mono (Has (for_each f done w).1) (Has w') done
                  (λ d p. rw u at (
                    Deployed-keeps docs api settings naming server c s key (for_each f done w).1
                      (deploy_component-Deployed docs api settings naming c s key
                        (for_each f done w).1 patches)
                      settings.sveltos_namespace (naming.name_of d s) p))
                  (for_each-All f (λ d v. Has v d)
                    (λ d v.
                      Deployed-own docs api settings naming server d s key v
                        (deploy_component-Deployed docs api settings naming d s key v patches))
                    (λ a d v.
                      Deployed-keeps docs api settings naming server d s key v
                        (deploy_component-Deployed docs api settings naming d s key v patches)
                        settings.sveltos_namespace (naming.name_of a s))
                    done w z),
              u,
            )
      ]

  -- If undeployControllers returns an error, the calls for the components before one, in their order,
  -- returned nil, and the deployments of these are gone, and the call for that one returned the error
  -- and was the last.
  pub undeploy_controllers_failed :
      (w w' : W) (e : Error)
      → undeploy_controllers docs api settings s w ≡ (some e, w')
      → (done : List Component) × (c : Component) × (rest : List Component) × (mid : W)
        × (components ≡ done ++ c ∷ rest)
        × (for_each (undeploy_component docs api settings s) done w ≡ (none, mid))
        × All (Lacks w') done
        × (undeploy_component docs api settings s c mid ≡ (some e, w'))
  undeploy_controllers_failed w w' e h =
      let f : Component → W → Option Error × W = undeploy_component docs api settings s in
      let (done, c, rest, q, z, u) =
        for_each-failed f components w w' e
          (sym (undeploy_controllers-key docs api settings naming server s w key) ∙ h) in
      (
        done,
        c,
        rest,
        (for_each f done w).1,
        q,
        nil_and (for_each f done w) z,
        All-mono (Lacks (for_each f done w).1) (Lacks w') done
            (λ d p. rw u at (
              Removed-keeps docs api settings naming server c s key (for_each f done w).1
                (undeploy_component-Removed docs api settings naming c s key (for_each f done w).1)
                settings.sveltos_namespace (naming.name_of d s) p))
            (for_each-All f (λ d v. Lacks v d)
              (λ d v.
                Removed-own docs api settings naming server d s key v
                  (undeploy_component-Removed docs api settings naming d s key v))
              (λ a d v.
                Removed-keeps docs api settings naming server d s key v
                  (undeploy_component-Removed docs api settings naming d s key v)
                  settings.sveltos_namespace (naming.name_of a s))
              done w z),
        u,
      )
