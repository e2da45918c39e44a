-- ===== src/Process/Resync.antt =====
-- Reconciles in turn (ClusterReconciler.Reconcile and SveltosClusterReconciler.Reconcile,
-- internal/controller), while the answers of the API server on clusters do not change.
use shard_controller.Prelude.{
  ◌≡◌, refl, ap, ◌∙◌, Option, none, some, String, List, [], ◌∷◌, ◌==◌, arith, string_eq,
  if◌then◌else◌,
}
use shard_controller.Errors.{Error, Result, ok, err}
use shard_controller.Reference.{ObjectReference, reference_eq, RefSet}
use shard_controller.Shards.{Shards, IsAnnotation}
use shard_controller.Tracker.{State}
use shard_controller.Tracker.Views.{shard_of}
use shard_controller.Tracker.Runs.{Event, tracks, stops, perform, assign, perform-assign}
use shard_controller.Tracker.Healthy.{IsAllowed, IsInStep, perform-IsInStep}
use shard_controller.Process.{
  GoType, cluster, sveltos_cluster, Object, Request, Scheme, Names, Outcome, returned, panicked,
  Getter, reconcile_cluster, reconcile_sveltos_cluster,
}
use shard_controller.Process.Requests.{request_event, annotated_shard, perform_result}

-- What is in the workqueues: which reconciler, and the request.
abbrev pub Item : Type 0
Item = GoType × Request

-- The shard that an answer of the API server asks for.
unfoldable pub desired : Names → Result Object → Option String
desired names (err e) = none
desired names (ok obj) = elim obj.deletion_timestamp [
  | some _ ↦ none
  | none ↦ some (annotated_shard names obj)
]

-- The event that brings the tracking there.
abbrev pub event_of : ObjectReference → Option String → Event
event_of ref none = stops ref
event_of ref (some s) = tracks ref s

request_event-event_of :
    (names : Names) (ref : ObjectReference) (r : Result Object) (ev : Event)
    → request_event names ref r ≡ ok ev
    → ev ≡ event_of ref (desired names r)
unfolding request_event desired
request_event-event_of names ref (err e) ev h = ground arith
request_event-event_of names ref (ok obj) ev h = ground arith

event_of-assign :
    (ref : ObjectReference) (o : Option String) (f : ObjectReference → Option String)
    (d : ObjectReference)
    → assign (event_of ref o) none f d ≡ (if ref == d then o else f d)
unfolding assign
event_of-assign ref none f d = refl
event_of-assign ref (some s) f d = refl

-- Of what the annotations of the answers have to be.
abbrev pub IsAllowedShard : {W : Type 0} → Shards W → Option String → Type 0
IsAllowedShard ctl none = Unit {0}
IsAllowedShard ctl (some s) = IsAnnotation ctl s

pub event_of-IsAllowed :
    {W : Type 0} (ctl : Shards W) (ref : ObjectReference) (o : Option String)
    → IsAllowedShard ctl o
    → IsAllowed ctl (event_of ref o)
event_of-IsAllowed ctl ref none a = tt
event_of-IsAllowed ctl ref (some s) a = a

module _ {S W : Type 0} ⦃sets : RefSet S⦄ (ctl : Shards W) (scheme : Scheme) (names : Names) where
  unfoldable pub reconcile_item : Getter W → Item → State S W → Outcome (Option Error × State S W)
  reconcile_item get (cluster, req) = reconcile_cluster ctl scheme names get req
  reconcile_item get (sveltos_cluster, req) = reconcile_sveltos_cluster ctl scheme names get req

  abbrev pub go_on_nil :
      (State S W → Outcome (Option Error × State S W))
      → Outcome (Option Error × State S W)
      → Outcome (Option Error × State S W)
  go_on_nil n panicked = panicked
  go_on_nil n (returned (some e, st)) = returned (some e, st)
  go_on_nil n (returned (none, st)) = n st

  -- One after the other, up to the first error.
  unfoldable pub reconcile_all :
      Getter W → List Item → State S W → Outcome (Option Error × State S W)
  reconcile_all get [] st = returned (none, st)
  reconcile_all get (i ∷ items) st = go_on_nil (reconcile_all get items) (reconcile_item get i st)

  perform_result-ok :
      (r : Result Event) (st st' : State S W)
      → perform_result ctl scheme names r st ≡ (none, st')
      → (ev : Event) × (r ≡ ok ev) × (perform ctl ev st ≡ (none, st'))
  unfolding perform_result
  perform_result-ok (ok ev) st st' h = (ev, refl, h)
  perform_result-ok (err e) st st' h = absurd (ground arith)

  -- One request that comes to no error: its cluster is then where the answer wants it, the others are
  -- where they were, and the deployments are in step if they were.
  pub record IsAppliedTo (ref : ObjectReference) (o : Option String) (st st' : State S W)
      : Type 0 where
    pub shards :
        (d : ObjectReference) → shard_of d st'.maps ≡ (if ref == d then o else shard_of d st.maps)
    pub in_step : IsAllowedShard ctl o → IsInStep ctl st → IsInStep ctl st'

  perform-IsAppliedTo :
      (ref : ObjectReference) (o : Option String) (st st' : State S W)
      → perform ctl (event_of ref o) st ≡ (none, st')
      → IsAppliedTo ref o st st'
  perform-IsAppliedTo ref o st st' h = record {
    shards = λ d.
        rw h at (perform-assign ctl (event_of ref o) st d)
        ∙ event_of-assign ref o (λ k. shard_of k st.maps) d;
    in_step = λ a b. rw h at (
        perform-IsInStep ctl (event_of ref o) st (event_of-IsAllowed ctl ref o a) b
          (ap (λ (p : Option Error × State S W). p.0) h));
  }

  pub request-IsAppliedTo :
      (ref : ObjectReference) (r : Result Object) (st st' : State S W)
      → perform_result ctl scheme names (request_event names ref r) st ≡ (none, st')
      → IsAppliedTo ref (desired names r) st st'
  request-IsAppliedTo ref r st st' h =
      let (ev, e, k) = perform_result-ok (request_event names ref r) st st' h in
      perform-IsAppliedTo ref (desired names r) st st'
        (rw (request_event-event_of names ref r ev e) at k)
