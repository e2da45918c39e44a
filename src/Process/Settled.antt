-- ===== src/Process/Settled.antt =====
-- Reconciles in turn (internal/controller) while the API server answers and no call is refused: they all
-- come to nil, and the deployments are then as the API server asks.
use shard_controller.Prelude.{
  any, ◌≡◌, refl, ap, ◌∙◌, not, true, Option, none, String, List, [], ◌∷◌, ◌==◌, arith, nat_eq, All,
}
use shard_controller.Errors.{Error, nil_and, is_not_found, Result, ok, err}
use shard_controller.Reference.{ObjectReference, RefSet}
use shard_controller.Shards.{Shards}
use shard_controller.Tracker.{State}
use shard_controller.Tracker.Views.{size}
use shard_controller.Tracker.Healthy.{IsInStep}
use shard_controller.Tracker.Runs.{Event, perform}
use shard_controller.Tracker.Available.{IsAvailable, perform-IsDone}
use shard_controller.Process.{Object, Scheme, Names, returned}
use shard_controller.Process.Requests.{request_event, perform_result}
use shard_controller.Process.Resync.{
  Item, desired, event_of, event_of-IsAllowed, reconcile_item, reconcile_all, IsAllowedShard,
}
use shard_controller.Process.Answers.{Answers, reference_of, wanted, wants}
use shard_controller.Process.Convergence.{
  IsCovered, reconcile_item-perform, item-IsAppliedTo, reconcile_all-size,
}

-- The API server answers: with an object, or that it is not there.
abbrev pub IsAnswer : Result Object → Type 0
IsAnswer (ok _) = Unit {0}
IsAnswer (err e) = is_not_found e ≡ true

request_event-IsAnswer :
    (names : Names) (ref : ObjectReference) (r : Result Object)
    → IsAnswer r
    → request_event names ref r ≡ ok (event_of ref (desired names r))
unfolding request_event desired
request_event-IsAnswer names ref (ok obj) a = ground arith
request_event-IsAnswer names ref (err e) a = rw a refl

module _ {S W : Type 0} ⦃sets : RefSet S⦄ (ctl : Shards W) (Up : W → Type 0)
    (available : IsAvailable ctl Up) (scheme : Scheme) (names : Names)
    (api : Answers W scheme names) where
  reconcile_item-IsDone :
      (i : Item) (st : State S W)
      → IsAnswer (api.answer i)
      → IsAllowedShard ctl (wanted scheme names api i)
      → IsInStep ctl st
      → Up st.world
      → (st' : State S W) × (reconcile_item ctl scheme names api.get i st ≡ returned (none, st'))
        × Up st'.world
  unfolding perform_result
  reconcile_item-IsDone i st a allowed b u =
      let ref = reference_of scheme names api i in
      let ev = event_of ref (wanted scheme names api i) in
      let (n, v) =
        perform-IsDone ctl Up available ev st
          (event_of-IsAllowed ctl ref (wanted scheme names api i) allowed) b.annotated u in
      (
        (perform ctl ev st).1,
        reconcile_item-perform ctl scheme names api i st
            ∙ ap (λ (r : Result Event). returned (perform_result ctl scheme names r st))
                (request_event-IsAnswer names ref (api.answer i) a)
            ∙ ap (λ (r : Option Error × State S W). returned r) (nil_and (perform ctl ev st) n),
        v,
      )

  reconcile_all-nil :
      (items : List Item) (st : State S W)
      → All (λ i. IsAnswer (api.answer i)) items
      → All (λ i. IsAllowedShard ctl (wanted scheme names api i)) items
      → IsInStep ctl st
      → Up st.world
      → (st' : State S W) × (reconcile_all ctl scheme names api.get items st ≡ returned (none, st'))
  unfolding reconcile_all
  reconcile_all-nil [] st a allowed b u = (st, refl)
  reconcile_all-nil (i ∷ items) st a allowed b u =
      let (mid, e, v) = reconcile_item-IsDone i st a.0 allowed.0 b u in
      let b' = (item-IsAppliedTo ctl scheme names api i st mid e).in_step allowed.0 b in
      let (st', k) = reconcile_all-nil items mid a.1 allowed.1 b' v in (st', rw e k)

  -- If the scheme knows both types of clusters, the API server answers on each item, with the same
  -- answers throughout, no call for a shard's controllers is refused, the maps and the deployments are
  -- in step, the annotations are keys of shards or empty, and every cluster that is tracked is among the
  -- items: then the requests of the items all come to nil, after which the maps and the deployments are
  -- in step, and the shards with clusters are those that the API server wants some cluster in.
  pub reconcile_all-settled :
      (items : List Item) (st : State S W)
      → All (λ i. IsAnswer (api.answer i)) items
      → All (λ i. IsAllowedShard ctl (wanted scheme names api i)) items
      → IsInStep ctl st
      → IsCovered ctl scheme names api items st
      → Up st.world
      → (st' : State S W) × (reconcile_all ctl scheme names api.get items st ≡ returned (none, st'))
        × IsInStep ctl st'
        × ((s : String) → not (size s st'.maps == 0) ≡ any (wants scheme names api s) items)
  reconcile_all-settled items st a allowed b cover u =
      let (st', e) = reconcile_all-nil items st a allowed b u in
      let (after, sizes) = reconcile_all-size ctl scheme names api items st st' b cover allowed e in
      (st', e, after, sizes)
