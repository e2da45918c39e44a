-- ===== src/Process/Requests.antt =====
-- processCluster (internal/controller/utils.go) by the request alone: the object that is found, one
-- that is being deleted and one that is gone have the same key in the maps.
use shard_controller.Prelude.{
  ◌≡◌, refl, Option, none, some, String, List, lookup, arith, if◌then◌else◌, string_eq,
}
use shard_controller.Errors.{Error, wrapped, is_not_found, Result, ok, err}
use shard_controller.Reference.{ObjectReference, RefSet}
use shard_controller.Shards.{Shards}
use shard_controller.Tracker.{State}
use shard_controller.Tracker.Runs.{Event, tracks, stops, perform}
use shard_controller.Process.{
  Gvk, GoType, Object, Request, Scheme, Names, returned, first_kind, add_type_information,
  make_reference, get_object_reference, current_shard, Getter, process_found, process_missing,
  process_cluster,
}

-- The shard that the annotation of an object names, and the empty key without the annotation.
unfoldable pub annotated_shard : Names → Object → String
annotated_shard names obj = elim (lookup names.shard_annotation obj.annotations) [
  | some shard ↦ shard
  | none ↦ ""
]

-- What a reconcile of an object in the cluster comes to: an event for the tracking, or an error.
unfoldable pub request_event : Names → ObjectReference → Result Object → Result Event
request_event names ref (err e) =
    if is_not_found e then ok (stops ref) else err (wrapped "Failed to fetch cluster" e)
request_event names ref (ok obj) = elim obj.deletion_timestamp [
  | some _ ↦ ok (stops ref)
  | none ↦ ok (tracks ref (annotated_shard names obj))
]

-- The API server returns the object that was asked for.
abbrev pub IsFaithful : {W : Type 0} → Getter W → Type 0
IsFaithful {W} get =
    (t : GoType) (req : Request) (w : W) (obj : Object)
    → get t req w ≡ ok obj
    → (obj.namespace ≡ req.namespace) × (obj.name ≡ req.name)

-- The scheme knows the Go type, and `gvk` is the first usable kind of it.
pub record HasKind (scheme : Scheme) (names : Names) (t : GoType) (gvk : Gvk) : Type 0 where
  pub gvks : List Gvk
  pub known : scheme.object_kinds t ≡ ok gvks
  pub usable : first_kind names gvks ≡ some gvk

module _ (scheme : Scheme) (names : Names) (t : GoType) (gvk : Gvk) where
  add_type_information-returned :
      (obj : Object)
      → HasKind scheme names t gvk
      → obj.go_type ≡ t
      → add_type_information scheme names obj ≡ returned (record obj { gvk = gvk })
  unfolding add_type_information
  add_type_information-returned obj h e = ground (arith, h.known, h.usable)

  get_object_reference-returned :
      (obj : Object) (req : Request)
      → HasKind scheme names t gvk
      → obj.go_type ≡ t
      → (obj.namespace ≡ req.namespace) × (obj.name ≡ req.name)
      → get_object_reference scheme names obj
        ≡ returned (make_reference scheme req.namespace req.name gvk)
  unfolding get_object_reference
  get_object_reference-returned obj req h e same =
      ground (arith, add_type_information-returned obj h e)

module _ {S W : Type 0} ⦃sets : RefSet S⦄ (ctl : Shards W) (scheme : Scheme) (names : Names) where
  unfoldable pub perform_result : Result Event → State S W → Option Error × State S W
  perform_result (ok ev) st = perform ctl ev st
  perform_result (err e) st = (some e, st)

  module _ (t : GoType) (gvk : Gvk) (kind : HasKind scheme names t gvk) (req : Request)
      (st : State S W) where
    process_found-perform :
        (obj : Object)
        → obj.go_type ≡ t
        → (obj.namespace ≡ req.namespace) × (obj.name ≡ req.name)
        → process_found ctl scheme names obj st
          ≡ returned (
              perform_result
                (request_event names (make_reference scheme req.namespace req.name gvk) (ok obj))
                st)
    unfolding process_found perform_result request_event perform current_shard annotated_shard
    process_found-perform obj e same =
        ground (arith, get_object_reference-returned scheme names t gvk obj req kind e same)

    process_missing-perform :
        (empty : Object)
        → empty.go_type ≡ t
        → process_missing ctl scheme names req empty st
          ≡ returned (perform ctl (stops (make_reference scheme req.namespace req.name gvk)) st)
    unfolding process_missing perform
    process_missing-perform empty e =
        ground (arith, add_type_information-returned scheme names t gvk empty kind e)

    -- If the scheme knows the Go type and the API server returns the object that was asked for,
    -- processCluster does not panic: it turns every answer of the API server into one event for the
    -- tracking, or one error, under a key that depends on the request and the Go type only.
    pub process_cluster-perform :
        (get : Getter W)
        → IsFaithful get
        → (empty : Object) → empty.go_type ≡ t
        → process_cluster ctl scheme names get empty req st
          ≡ returned (
              perform_result
                (request_event names
                  (make_reference scheme req.namespace req.name gvk)
                  (get t req st.world))
                st)
    unfolding process_cluster request_event perform_result annotated_shard
    process_cluster-perform get faithful empty et = go (get t req st.world) refl
      where
        ref : ObjectReference
        ref = make_reference scheme req.namespace req.name gvk

        go :
            (r : Result Object)
            → get t req st.world ≡ r
            → process_cluster ctl scheme names get empty req st
              ≡ returned (perform_result (request_event names ref (get t req st.world)) st)
        go (ok obj) e = ground (
          arith,
          process_found-perform (record obj { go_type = empty.go_type }) et
              (faithful t req st.world obj e),
        )
        go (err x) e = ground (arith, process_missing-perform empty et)
