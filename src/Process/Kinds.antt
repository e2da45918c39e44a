-- ===== src/Process/Kinds.antt =====
-- InitScheme (internal/controller/utils.go), and what processCluster needs of the scheme that it makes.
use shard_controller.Prelude.{◌≡◌, ◌∙◌, [], ◌∷◌, some}
use shard_controller.Errors.{Result, ok, ◌>>=◌, >>=-ok}
use shard_controller.Process.{Gvk, GoType, cluster, sveltos_cluster, Scheme, Names, first_kind}
use shard_controller.Process.Requests.{HasKind}

-- `runtime.NewScheme` and the functions AddToScheme of the four packages, none of which is code of this
-- repository; `R` is a scheme.
pub record Registrars (R : Type 0) : Type 0 where
  pub new_scheme : R
  pub add_client_go : R → Result R
  pub add_cluster_api : R → Result R
  pub add_sveltos : R → Result R
  pub add_api_extensions : R → Result R
  -- what a scheme knows
  pub view : R → Scheme

unfoldable pub init_scheme : {R : Type 0} → Registrars R → Result R
init_scheme registrars = do
  core ← registrars.add_client_go registrars.new_scheme
  capi ← registrars.add_cluster_api core
  sveltos ← registrars.add_sveltos capi
  registrars.add_api_extensions sveltos

-- AddToScheme registers the types of its package under one kind each, and takes no other away.
pub record Registers {R : Type 0} (registrars : Registrars R) (names : Names) (kind : GoType → Gvk)
    : Type 0 where
  pub usable : (t : GoType) → first_kind names (kind t ∷ []) ≡ some (kind t)
  pub adds_cluster :
      (s s' : R)
      → registrars.add_cluster_api s ≡ ok s'
      → (registrars.view s').object_kinds cluster ≡ ok (kind cluster ∷ [])
  pub adds_sveltos :
      (s s' : R)
      → registrars.add_sveltos s ≡ ok s'
      → (registrars.view s').object_kinds sveltos_cluster ≡ ok (kind sveltos_cluster ∷ [])
  pub sveltos_keeps :
      (s s' : R)
      → registrars.add_sveltos s ≡ ok s'
      → (registrars.view s').object_kinds cluster ≡ (registrars.view s).object_kinds cluster
  pub api_extensions_keeps :
      (s s' : R) (t : GoType)
      → registrars.add_api_extensions s ≡ ok s'
      → (registrars.view s').object_kinds t ≡ (registrars.view s).object_kinds t

-- The steps of an InitScheme that returns a scheme.
init_scheme-ok :
    {R : Type 0} (registrars : Registrars R) (s : R)
    → init_scheme registrars ≡ ok s
    → (core : R) × (capi : R) × (sveltos : R) × (registrars.add_cluster_api core ≡ ok capi)
      × (registrars.add_sveltos capi ≡ ok sveltos)
      × (registrars.add_api_extensions sveltos ≡ ok s)
unfolding init_scheme
init_scheme-ok registrars s h =
    let (core, _, h1) = >>=-ok (registrars.add_client_go registrars.new_scheme) _ h in
    let (capi, e, h2) = >>=-ok (registrars.add_cluster_api core) _ h1 in
    let (sveltos, f, g) = >>=-ok (registrars.add_sveltos capi) _ h2 in
    (core, capi, sveltos, e, f, g)

-- If InitScheme returns a scheme, and each AddToScheme registers the types of its package under one
-- kind and takes no other away, then the scheme knows both types of clusters under their kinds.
pub init_scheme-HasKind :
    {R : Type 0} (registrars : Registrars R) (names : Names) (kind : GoType → Gvk) (s : R)
    → Registers registrars names kind
    → init_scheme registrars ≡ ok s
    → (t : GoType) → HasKind (registrars.view s) names t (kind t)
init_scheme-HasKind registrars names kind s r h cluster =
    let (core, capi, sveltos, e, f, g) = init_scheme-ok registrars s h in
    record {
      gvks = kind cluster ∷ [];
      known =
          r.api_extensions_keeps sveltos s cluster g
          ∙ r.sveltos_keeps capi sveltos f
          ∙ r.adds_cluster core capi e;
      usable = r.usable cluster;
    }
init_scheme-HasKind registrars names kind s r h sveltos_cluster =
    let (core, capi, sveltos, e, f, g) = init_scheme-ok registrars s h in
    record {
      gvks = kind sveltos_cluster ∷ [];
      known = r.api_extensions_keeps sveltos s sveltos_cluster g ∙ r.adds_sveltos capi sveltos f;
      usable = r.usable sveltos_cluster;
    }
