-- ===== src/Process/Convergence.antt =====
-- What the reconcilers (internal/controller) come to when every cluster has been reconciled without
-- an error: the maps and the deployments are what the API server asks for.
use shard_controller.Prelude.{
  any, ◌≡◌, ◌≢◌, refl, sym, ap, ◌∙◌, not, Option, none, some, String, List, [], ◌∷◌, ◌==◌, arith,
  string_eq, nat_eq, All, inl, inr, Bool-cases, test_of_ne, ne_of_test,
}
use shard_controller.Errors.{Error}
use shard_controller.Reference.{ObjectReference, reference_eq, RefSet}
use shard_controller.Shards.{Shards}
use shard_controller.Tracker.{State}
use shard_controller.Tracker.Views.{shard_of, size, is_member_of_size}
use shard_controller.Tracker.Sizes.{size-member}
use shard_controller.Tracker.Consistency.{IsConsistent}
use shard_controller.Tracker.Healthy.{IsInStep}
use shard_controller.Process.{
  cluster, sveltos_cluster, Scheme, Names, Outcome, returned, panicked, empty_object,
  reconcile_cluster, reconcile_sveltos_cluster,
}
use shard_controller.Process.Answers.{
  Answers, In, All-In, any-In, any_of_In, reference_of, wanted, assigned, assigned-cases,
  assigned-wanted, wants, wants-some, some-wants,
}
use mathlib.Core.Bool.{false≢true}
use shard_controller.Process.Requests.{request_event, perform_result, process_cluster-perform}
use shard_controller.Process.Resync.{
  Item, reconcile_item, reconcile_all, go_on_nil, IsAllowedShard, IsAppliedTo, request-IsAppliedTo,
}

module _ {S W : Type 0} ⦃sets : RefSet S⦄ (ctl : Shards W) (scheme : Scheme) (names : Names)
    (api : Answers W scheme names) where
  pub reconcile_item-perform :
      (i : Item) (st : State S W)
      → reconcile_item ctl scheme names api.get i st
        ≡ returned (
            perform_result ctl scheme names
              (request_event names (reference_of scheme names api i) (api.answer i))
              st)
  unfolding reconcile_item reference_of empty_object reconcile_cluster reconcile_sveltos_cluster
  reconcile_item-perform (cluster, req) st = rw (api.steady cluster req st.world) at (
      process_cluster-perform ctl scheme names cluster (api.kind cluster) (api.has_kind cluster) req
        st api.get api.faithful (empty_object cluster) refl)
  reconcile_item-perform (sveltos_cluster, req) st =
      rw (api.steady sveltos_cluster req st.world) at (
        process_cluster-perform ctl scheme names sveltos_cluster (api.kind sveltos_cluster)
          (api.has_kind sveltos_cluster) req st api.get api.faithful (empty_object sveltos_cluster)
          refl)

  reconcile_all-cons :
      (i : Item) (items : List Item) (st st' : State S W)
      → reconcile_all ctl scheme names api.get (i ∷ items) st ≡ returned (none, st')
      → (mid : State S W) × (reconcile_item ctl scheme names api.get i st ≡ returned (none, mid))
        × (reconcile_all ctl scheme names api.get items mid ≡ returned (none, st'))
  unfolding reconcile_all
  reconcile_all-cons i items st st' h = go (reconcile_item ctl scheme names api.get i st) refl h
    where
      go :
          (r : Outcome (Option Error × State S W))
          → reconcile_item ctl scheme names api.get i st ≡ r
          → go_on_nil ctl scheme names (reconcile_all ctl scheme names api.get items) r
            ≡ returned (none, st')
          → (mid : State S W) × (reconcile_item ctl scheme names api.get i st
              ≡ returned (none, mid))
            × (reconcile_all ctl scheme names api.get items mid ≡ returned (none, st'))
      go panicked e k = absurd (ground arith)
      go (returned (some x, mid)) e k = absurd (ground arith)
      go (returned (none, mid)) e k = (mid, e, k)

  pub item-IsAppliedTo :
      (i : Item) (st st' : State S W)
      → reconcile_item ctl scheme names api.get i st ≡ returned (none, st')
      → IsAppliedTo ctl scheme names
          (reference_of scheme names api i)
          (wanted scheme names api i)
          st
          st'
  item-IsAppliedTo i st st' h =
      request-IsAppliedTo ctl scheme names (reference_of scheme names api i) (api.answer i) st st'
        (let e = sym (reconcile_item-perform i st) ∙ h in cc)

  reconcile_all-assigned :
      (items : List Item) (st st' : State S W)
      → reconcile_all ctl scheme names api.get items st ≡ returned (none, st')
      → (d : ObjectReference)
      → shard_of d st'.maps ≡ assigned scheme names api items d (shard_of d st.maps)
  unfolding reconcile_all assigned
  reconcile_all-assigned [] st st' h d = let e : st ≡ st' = cc in rw e refl
  reconcile_all-assigned (i ∷ items) st st' h d =
      let (mid, e, k) = reconcile_all-cons i items st st' h in
      reconcile_all-assigned items mid st' k d
      ∙ ap (assigned scheme names api items d) ((item-IsAppliedTo i st mid e).shards d)

  reconcile_all-IsInStep :
      (items : List Item) (st st' : State S W)
      → All (λ i. IsAllowedShard ctl (wanted scheme names api i)) items
      → IsInStep ctl st
      → reconcile_all ctl scheme names api.get items st ≡ returned (none, st')
      → IsInStep ctl st'
  unfolding reconcile_all
  reconcile_all-IsInStep [] st st' a b h = let e : st ≡ st' = cc in rw e at b
  reconcile_all-IsInStep (i ∷ items) st st' a b h =
      let (mid, e, k) = reconcile_all-cons i items st st' h in
      reconcile_all-IsInStep items mid st' a.1 ((item-IsAppliedTo i st mid e).in_step a.0 b) k

  -- Let every cluster that is tracked be among the items.
  abbrev pub IsCovered : List Item → State S W → Type 0
  IsCovered items st =
      (d : ObjectReference)
      → shard_of d st.maps ≢ none
      → (i : Item) × In i items × (reference_of scheme names api i ≡ d)

  assigned-In :
      (items : List Item) (st : State S W) (d : ObjectReference) (s : String)
      → IsCovered items st
      → assigned scheme names api items d (shard_of d st.maps) ≡ some s
      → (i : Item) × In i items × (wanted scheme names api i ≡ some s)
  assigned-In items st d s cover h =
      elim (assigned-cases scheme names api items d (shard_of d st.maps)) [
        | inr (i, m, e, q) ↦ (i, m, sym q ∙ h)
        | inl q ↦
            let (i, m, e) = cover d (λ z. let f : none ≡ some s = sym z ∙ sym q ∙ h in cc) in
            (i, m, sym (assigned-wanted scheme names api items i (shard_of d st.maps) m) ∙ (rw e h))
      ]

  module _ (items : List Item) (st st' : State S W) (s : String) (cover : IsCovered items st)
      (h : IsConsistent st'.maps)
      (moved : (d : ObjectReference)
        → shard_of d st'.maps ≡ assigned scheme names api items d (shard_of d st.maps)) where
    size-In : (i : Item) → In i items → wanted scheme names api i ≡ some s → size s st'.maps ≢ 0
    size-In i m e =
        size-member s s (reference_of scheme names api i) st'.maps
          (h.complete s (reference_of scheme names api i) tt (
            moved (reference_of scheme names api i)
            ∙ assigned-wanted scheme names api items i _ m
            ∙ e))
          refl

    In-size : size s st'.maps ≢ 0 → (i : Item) × In i items × (wanted scheme names api i ≡ some s)
    In-size p =
        let (c, k) = is_member_of_size s st'.maps p in
        assigned-In items st c s cover (sym (moved c) ∙ h.sound.owned s c k)

    size-any : not (size s st'.maps == 0) ≡ any (wants scheme names api s) items
    size-any = elim (Bool-cases (any (wants scheme names api s) items)) [
      | inl e ↦
          let (i, m, q) = any-In (wants scheme names api s) items e in
          rw (e, test_of_ne (size s st'.maps) 0 (size-In i m (wants-some scheme names api s i q)))
            refl
      | inr e ↦ elim (Bool-cases (size s st'.maps == 0)) [
        | inl z ↦ rw (e, z) refl
        | inr z ↦
            let (i, m, q) = In-size (ne_of_test (size s st'.maps) 0 z) in
            absurd (
              false≢true (
                sym e
                ∙ any_of_In (wants scheme names api s) items i m
                    (some-wants scheme names api s i q)))
      ]
    ]

  -- Let the API server's answers on clusters not change, and every request of the items come to nil.
  -- Then the cluster of each item is in the shard that the API server wants it in, and in none if it is
  -- gone or being deleted.
  pub reconcile_all-wanted :
      (items : List Item) (st st' : State S W)
      → reconcile_all ctl scheme names api.get items st ≡ returned (none, st')
      → All
          (λ i. shard_of (reference_of scheme names api i) st'.maps ≡ wanted scheme names api i)
          items
  reconcile_all-wanted items st st' h = All-In _ items λ i m.
      reconcile_all-assigned items st st' h (reference_of scheme names api i)
      ∙ assigned-wanted scheme names api items i _ m

  -- If the maps and the deployments are in step, the annotations are keys of shards or empty, every
  -- cluster that is tracked is among the items, and their requests all come to nil, then the maps and
  -- the deployments are in step, and the shards with clusters are those that the API server wants some
  -- cluster of the items in.
  pub reconcile_all-size :
      (items : List Item) (st st' : State S W)
      → IsInStep ctl st
      → IsCovered items st
      → All (λ i. IsAllowedShard ctl (wanted scheme names api i)) items
      → reconcile_all ctl scheme names api.get items st ≡ returned (none, st')
      → IsInStep ctl st'
        × ((s : String) → not (size s st'.maps == 0) ≡ any (wants scheme names api s) items)
  reconcile_all-size items st st' b cover a h =
      let after = reconcile_all-IsInStep items st st' a b h in
      (
        after,
        λ s. size-any items st st' s cover after.consistent (reconcile_all-assigned items st st' h),
      )
