-- ===== src/Deploy/Effects.antt =====
-- What the calls for one component (internal/controller/utils.go) reach, keep and leave alone.
use shard_controller.Prelude.{
  ◌≡◌, ◌≢◌, refl, sym, ◌∙◌, true, false, String, Option, none, some, Bool-cases, inl, inr, arith,
}
use shard_controller.Errors.{Error, is_not_found}
use shard_controller.Sharding.{Component}
use shard_controller.Documents.{Documents}
use shard_controller.Deploy.{Settings, Api, ignore_not_found}
use shard_controller.Deploy.Objects.{
  IsServer, Naming, Deployed, refused, applied, Removed, kept, deleted,
}

-- A deletion, with the answer that the deployment is not there taken for success.
module _ {U W : Type 0} (api : Api U W) (server : IsServer api) (ns n : String) (w : W) where
  ignore_not_found-own :
      (r : Option Error × W)
      → api.delete ns n w ≡ r
      → (ignore_not_found r).0 ≡ none
      → server.has ns n (ignore_not_found r).1 ≡ false
  ignore_not_found-own (none, w') h z = rw h at (server.delete_own ns n w (rw h refl))
  ignore_not_found-own (some e, w') h z = elim (Bool-cases (is_not_found e)) [
    | inl y ↦ rw y (rw h at (server.delete_not_found ns n w e (rw h refl) y))
    | inr y ↦ absurd (ground arith)
  ]

  ignore_not_found-world : (r : Option Error × W) → (ignore_not_found r).1 ≡ r.1
  ignore_not_found-world (none, w') = refl
  ignore_not_found-world (some e, w') = elim (Bool-cases (is_not_found e)) [
    | inl y ↦ rw y refl
    | inr y ↦ rw y refl
  ]

module _ {U R W : Type 0} (docs : Documents U R) (api : Api U W) (settings : Settings)
    (naming : Naming docs api settings) (server : IsServer api) (c : Component) (s : String)
    (key : naming.IsKey s) (w : W) where
  pub Deployed-own :
      {r : Option Error × W}
      → Deployed docs api settings naming c s key w r
      → r.0 ≡ none
      → server.has settings.sveltos_namespace (naming.name_of c s) r.1 ≡ true
  Deployed-own (refused e) z = cc
  Deployed-own (applied u ns n) z = rw (ns, n) at (server.apply_own u w z)

  pub Deployed-keeps :
      {r : Option Error × W}
      → Deployed docs api settings naming c s key w r
      → (ns n : String) → server.has ns n w ≡ true
      → server.has ns n r.1 ≡ true
  Deployed-keeps (refused e) ns n h = h
  Deployed-keeps (applied u p q) ns n h = server.apply_keeps u ns n w h

  pub Deployed-other :
      {r : Option Error × W}
      → Deployed docs api settings naming c s key w r
      → (ns n : String) → naming.name_of c s ≢ n
      → server.has ns n w ≡ false
      → server.has ns n r.1 ≡ false
  Deployed-other (refused e) ns n ne h = h
  Deployed-other (applied u p q) ns n ne h = server.apply_other u ns n w (λ e. ne (sym q ∙ e)) h

  pub Removed-own :
      {r : Option Error × W}
      → Removed docs api settings naming c s key w r
      → r.0 ≡ none
      → server.has settings.sveltos_namespace (naming.name_of c s) r.1 ≡ false
  Removed-own (kept e) z = cc
  Removed-own (deleted ns n p q) z =
      rw (sym p, sym q) (ignore_not_found-own api server ns n w (api.delete ns n w) refl z)

  pub Removed-keeps :
      {r : Option Error × W}
      → Removed docs api settings naming c s key w r
      → (ns n : String) → server.has ns n w ≡ false
      → server.has ns n r.1 ≡ false
  Removed-keeps (kept e) ns n h = h
  Removed-keeps (deleted ns' n' p q) ns n h =
      rw (ignore_not_found-world api server ns' n' w (api.delete ns' n' w))
        (server.delete_keeps ns' n' ns n w h)

  pub Removed-other :
      {r : Option Error × W}
      → Removed docs api settings naming c s key w r
      → (ns n : String) → naming.name_of c s ≢ n
      → server.has ns n w ≡ true
      → server.has ns n r.1 ≡ true
  Removed-other (kept e) ns n ne h = h
  Removed-other (deleted ns' n' p q) ns n ne h =
      rw (ignore_not_found-world api server ns' n' w (api.delete ns' n' w))
        (server.delete_other ns' n' ns n w (λ e. ne (sym q ∙ e)) h)
