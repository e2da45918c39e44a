-- ===== src/Tests/Processing.antt =====
-- The theorem on the requests of the reconcilers at a concrete scheme and API server.
use shard_controller.Prelude.{
  ◌≡◌, refl, none, [], ◌∷◌, arith, string_eq, ◌==◌, if◌then◌else◌, concat,
}
use shard_controller.Errors.{not_found, ok, err}
use shard_controller.Process.{
  Gvk, cluster, sveltos_cluster, Request, Scheme, Names, returned, make_reference, empty_object,
  first_kind, Getter, process_cluster,
}
use shard_controller.Process.Requests.{
  request_event, perform_result, IsFaithful, HasKind, process_cluster-perform,
}
use shard_controller.Tests.Sets.{list_set}
use shard_controller.Tests.Clusters.{Fleet, fleet}
use shard_controller.Tests.Tracking.{one}

abbrev pub capi : Gvk
capi = record { group = "cluster.x-k8s.io"; version = "v1beta2"; kind = "Cluster" }

abbrev pub sveltos : Gvk
sveltos = record { group = "lib.projectsveltos.io"; version = "v1beta1"; kind = "SveltosCluster" }

abbrev pub scheme : Scheme
scheme = record {
  object_kinds = λ t. elim t [ cluster ↦ ok (capi ∷ []) | sveltos_cluster ↦ ok (sveltos ∷ []) ];
  to_api_version_and_kind = λ gvk. (concat gvk.group (concat "/" gvk.version), gvk.kind);
}

abbrev pub names : Names
names = record { shard_annotation = "shard"; version_internal = "__internal" }

-- An API server with every cluster but one, all in the shard s2.
unfoldable get : Getter Fleet
get t req w =
    if req.name == "gone"
    then err not_found
    else ok (record {
      go_type = t;
      namespace = req.namespace;
      name = req.name;
      gvk = record { group = ""; version = ""; kind = "" };
      annotations = ("shard", "s2") ∷ [];
      deletion_timestamp = none;
    })

get-IsFaithful : IsFaithful get
unfolding get
get-IsFaithful t req w obj h = ground arith

pub cluster-HasKind : HasKind scheme names cluster capi
unfolding first_kind
cluster-HasKind = record { gvks = capi ∷ []; known = refl; usable = refl }

abbrev request : Request
request = record { namespace = "default"; name = "alpha" }

process_cluster-perform_example :
    process_cluster fleet scheme names get (empty_object cluster) request one
    ≡ returned (
        perform_result fleet scheme names
          (request_event names
            (make_reference scheme request.namespace request.name capi)
            (get cluster request one.world))
          one)
unfolding empty_object
process_cluster-perform_example =
    process_cluster-perform fleet scheme names cluster capi cluster-HasKind request one get
      get-IsFaithful (empty_object cluster) refl
