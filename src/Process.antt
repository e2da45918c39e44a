-- ===== src/Process.antt =====
-- internal/controller/utils.go: processCluster with getObjectReferenceFromObject and
-- addTypeInformationToObject, and the Reconcile methods of cluster_controller.go and
-- sveltoscluster_controller.go, which call it for their kind.
pub mod Requests
pub mod Resync
pub mod Kinds
pub mod Answers
pub mod Convergence
pub mod Settled
use shard_controller.Prelude.{
  ◌≡◌, Bool, true, false, ◌||◌, String, Option, none, some, List, [], ◌∷◌, string_eq, ◌==◌,
  if◌then◌else◌, Dict, lookup,
}
use shard_controller.Errors.{Error, not_found, wrapped, is_not_found, Result, ok, err, Action}
use shard_controller.Reference.{ObjectReference, RefSet}
use shard_controller.Shards.{Shards}
use shard_controller.Tracker.{State, track_cluster, stop_tracking_cluster}

-- `schema.GroupVersionKind`
pub record Gvk : Type 0 where
  pub group : String
  pub version : String
  pub kind : String

-- The Go types of the objects that are reconciled: `clusterv1.Cluster` and
-- `libsveltosv1beta1.SveltosCluster`.
pub data GoType : Type 0 where
  cluster sveltos_cluster : GoType

-- The part of a `client.Object` that the controllers read and write. A zero deletion timestamp is
-- `none`.
pub record Object : Type 0 where
  pub go_type : GoType
  pub namespace : String
  pub name : String
  pub gvk : Gvk
  pub annotations : Dict String String
  pub deletion_timestamp : Option String

pub record Request : Type 0 where
  pub namespace : String
  pub name : String

-- The runtime scheme and the API machinery are not code of this repository.
pub record Scheme : Type 0 where
  -- `scheme.ObjectKinds(obj)`, which goes by the Go type of the object
  pub object_kinds : GoType → Result (List Gvk)
  -- `gvk.ToAPIVersionAndKind()`
  pub to_api_version_and_kind : Gvk → String × String

-- `libsveltosv1beta1.ShardAnnotation` and `runtime.APIVersionInternal`, constants of other modules.
pub record Names : Type 0 where
  pub shard_annotation : String
  pub version_internal : String

-- A call returns, or it panics: of the panics in processCluster only that of addTypeInformationToObject is
-- told apart; one of template.Must comes as an error.
pub data Outcome (A : Type 0) : Type 0 where
  returned : A → Outcome A
  panicked : Outcome A

-- the loop of addTypeInformationToObject
unfoldable pub first_kind : Names → List Gvk → Option Gvk
first_kind names [] = none
first_kind names (gvk ∷ gvks) =
    let rest = first_kind names gvks in
    if gvk.kind == ""
    then rest
    else if gvk.version == "" || gvk.version == names.version_internal
    then rest
    else some gvk

abbrev pub set_kind : Option Gvk → Object → Object
set_kind none obj = obj
set_kind (some gvk) obj = record obj { gvk = gvk }

unfoldable pub add_type_information : Scheme → Names → Object → Outcome Object
add_type_information scheme names obj = elim (scheme.object_kinds obj.go_type) [
  | err _ ↦ panicked
  | ok gvks ↦ returned (set_kind (first_kind names gvks) obj)
]

-- the reference that both branches of processCluster build, from a namespace, a name and the GVK
unfoldable pub make_reference : Scheme → String → String → Gvk → ObjectReference
make_reference scheme namespace name gvk =
    let (api_version, kind) = scheme.to_api_version_and_kind gvk in
    record { namespace = namespace; name = name; kind = kind; api_version = api_version }

unfoldable pub get_object_reference : Scheme → Names → Object → Outcome ObjectReference
get_object_reference scheme names obj = elim (add_type_information scheme names obj) [
  | panicked ↦ panicked
  | returned typed ↦ returned (make_reference scheme typed.namespace typed.name typed.gvk)
]

-- `annotations[ShardAnnotation]`, "" if the annotations are empty or lack it
unfoldable pub current_shard : Names → Object → String
current_shard names obj = elim (lookup names.shard_annotation obj.annotations) [
  | none ↦ ""
  | some shard ↦ shard
]

-- `c.Get(ctx, req.NamespacedName, cluster)` reads the object of that name into `cluster`, whose Go type
-- says where to look, or returns an error. The client is not code of this repository.
abbrev pub Getter : Type 0 → Type 0
Getter W = GoType → Request → W → Result Object

-- `&clusterv1.Cluster{}` and `&libsveltosv1beta1.SveltosCluster{}` of the Reconcile methods
unfoldable pub empty_object : GoType → Object
empty_object t = record {
  go_type = t;
  namespace = "";
  name = "";
  gvk = record { group = ""; version = ""; kind = "" };
  annotations = [];
  deletion_timestamp = none;
}

module _ {S W : Type 0} ⦃sets : RefSet S⦄ (ctl : Shards W) (scheme : Scheme) (names : Names) where
  abbrev pub with_reference :
      Outcome ObjectReference
      → (ObjectReference → Action (State S W))
      → State S W
      → Outcome (Option Error × State S W)
  with_reference panicked f st = panicked
  with_reference (returned ref) f st = returned (f ref st)

  -- the branch of the cluster that Get found
  unfoldable pub process_found : Object → State S W → Outcome (Option Error × State S W)
  process_found obj = with_reference (get_object_reference scheme names obj) λ ref.
      elim obj.deletion_timestamp [
        | some _ ↦ stop_tracking_cluster ctl ref
        | none ↦ track_cluster ctl ref (current_shard names obj)
      ]

  -- the branch of a cluster that is not there; `empty` is the object that Reconcile made
  unfoldable pub process_missing : Request → Object → State S W → Outcome (Option Error × State S W)
  process_missing req empty =
      with_reference
        (elim (add_type_information scheme names empty) [
          | panicked ↦ panicked
          | returned typed ↦ returned (make_reference scheme req.namespace req.name typed.gvk)
        ])
        (stop_tracking_cluster ctl)

  unfoldable pub process_cluster :
      Getter W → Object → Request → State S W → Outcome (Option Error × State S W)
  process_cluster get empty req st = elim (get empty.go_type req st.world) [
    | ok read ↦ process_found (record read { go_type = empty.go_type }) st
    | err e ↦
        if is_not_found e
        then process_missing req empty st
        else returned (some (wrapped "Failed to fetch cluster" e), st)
  ]

  -- ClusterReconciler.Reconcile and SveltosClusterReconciler.Reconcile; the result beside the error
  -- is always empty
  unfoldable pub reconcile_cluster :
      Getter W → Request → State S W → Outcome (Option Error × State S W)
  unfolding empty_object process_cluster
  reconcile_cluster get = process_cluster get (empty_object cluster)

  unfoldable pub reconcile_sveltos_cluster :
      Getter W → Request → State S W → Outcome (Option Error × State S W)
  unfolding empty_object process_cluster
  reconcile_sveltos_cluster get = process_cluster get (empty_object sveltos_cluster)
