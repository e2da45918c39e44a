-- ===== src/Tracker/Overtaken.antt =====
-- A removal of controllers that fails in trackCluster (internal/controller/utils.go), and another
-- cluster that comes to the shard before the retry.
use shard_controller.Prelude.{
  ◌≡◌, ◌≢◌, refl, sym, ap, ◌∙◌, true, false, String, Option, none, some, arith, string_eq, nat_eq,
}
use shard_controller.Errors.{Error}
use shard_controller.Reference.{ObjectReference, reference_eq, RefSet}
use shard_controller.Shards.{Shards, IsAnnotation, deploy_frame}
use shard_controller.Tracker.{State, Maps, is_last, is_idle, track_cluster, add_to, erase_from}
use shard_controller.Tracker.Views.{
  shard_of, is_member, size, is_last-size, is_idle-size, shard_of-add_to, is_member-add_to,
  size-add_to,
}
use shard_controller.Tracker.Sizes.{size-erase_other, size-add_to_ne}
use shard_controller.Tracker.Consistency.{IsSound}
use shard_controller.Tracker.Outcomes.{
  Leave, stays_out, leaves, undeployed, undeploy_failed, Join, joins, deployed, deploy_failed,
  Track, unchanged, stuck, moved, track_cluster-Track,
}

module _ {S W : Type 0} ⦃sets : RefSet S⦄ (ctl : Shards W) (c d : ObjectReference) (a b : String)
    (ne : a ≢ b) where
  module _ (st : State S W) (x : Error) (w : W) (e : shard_of c st.maps ≡ some a)
      (l : is_last c a st.maps ≡ true) (u : ctl.undeploy a st.world ≡ (some x, w)) where
    Leave-refused :
        (r : Option Error × State S W)
        → Leave ctl c (shard_of c st.maps) st r
        → r ≡ (some x, record st { world = w })
    Leave-refused r (stays_out e' f) = cc
    Leave-refused r (leaves o e' l' f) = let q : o ≡ a = cc in cc
    Leave-refused r (undeployed o v e' l' u' f) = let q : o ≡ a = cc in cc
    Leave-refused r (undeploy_failed o y v e' l' u' f) =
        let q : o ≡ a = cc in
        let same : (some y, v) ≡ (some x, w) =
          sym u' ∙ ap (λ (k : String). ctl.undeploy k st.world) q ∙ u in
        f ∙ ap (λ (p : Option Error × W). (p.0, record st { world = p.1 })) same

    track_cluster_refused : track_cluster ctl c b st ≡ (some x, record st { world = w })
    track_cluster_refused = go _ (track_cluster-Track ctl c b st)
      where
        go :
            (r : Option Error × State S W)
            → Track ctl c b st r
            → r ≡ (some x, record st { world = w })
        go r (unchanged e' f) = absurd (ne (cc))
        go r (stuck y st' _ k f) = f ∙ Leave-refused (some y, st') k
        go r (moved st' _ k j) = let q = Leave-refused (none, st') k in cc

  Join-busy :
      (st : State S W) (r : Option Error × State S W)
      → is_idle a st.maps ≡ false
      → Join ctl d a st r
      → r ≡ (none, record st { maps = add_to a d st.maps })
  Join-busy st r i (joins _ f) = f
  Join-busy st r i (deployed w i' u f) = cc
  Join-busy st r i (deploy_failed y w i' u f) = cc

  -- The other cluster is not tracked, and the shard has one already.
  track_cluster_joins :
      (st : State S W)
      → shard_of d st.maps ≡ none
      → is_idle a st.maps ≡ false
      → track_cluster ctl d a st ≡ (none, record st { maps = add_to a d st.maps })
  track_cluster_joins st e i = go _ (track_cluster-Track ctl d a st)
    where
      go :
          (r : Option Error × State S W)
          → Track ctl d a st r
          → r ≡ (none, record st { maps = add_to a d st.maps })
      go r (unchanged e' f) = cc
      go r (stuck y st' _ (stays_out e' g) f) = cc
      go r (stuck y st' _ (leaves o e' l g) f) = cc
      go r (stuck y st' _ (undeployed o v e' l u g) f) = cc
      go r (stuck y st' _ (undeploy_failed o z v e' l u g) f) = cc
      go r (moved st' _ (stays_out e' g) j) =
          let same : st' ≡ st = cc in Join-busy st r i (rw same at j)
      go r (moved st' _ (leaves o e' l g) j) = cc
      go r (moved st' _ (undeployed o v e' l u g) j) = cc
      go r (moved st' _ (undeploy_failed o z v e' l u g) j) = cc

  -- With two clusters in the shard, the retry leaves it without a call for it.
  module _ (st : State S W) (e : shard_of c st.maps ≡ some a) (m : is_member a c st.maps ≡ true)
      (l : is_last c a st.maps ≡ false) (key : ctl.IsKey a) (shard : IsAnnotation ctl b)
      (n : (ctl.deploy b st.world).0 ≡ none) (gone : ctl.Gone a st.world) where
    Leave-left :
        (r : Option Error × State S W)
        → Leave ctl c (shard_of c st.maps) st r
        → r ≡ (none, record st { maps = erase_from a c st.maps })
    Leave-left r (stays_out e' f) = cc
    Leave-left r (leaves o e' l' f) = let q : o ≡ a = cc in rw q at f
    Leave-left r (undeployed o v e' l' u' f) = let q : o ≡ a = cc in cc
    Leave-left r (undeploy_failed o y v e' l' u' f) = let q : o ≡ a = cc in cc

    abbrev IsLost : Option Error × State S W → Type 0
    IsLost r = (r.0 ≡ none) × (size a r.1.maps ≢ 0) × ctl.Gone a r.1.world

    size_left : size a (add_to b c (erase_from a c st.maps)) ≢ 0
    size_left z =
        size-erase_other a a c st.maps m l refl
          (sym (size-add_to_ne b a c (erase_from a c st.maps) (λ q. ne (sym q))) ∙ z)

    Join-IsLost :
        (r : Option Error × State S W)
        → Join ctl c b (record st { maps = erase_from a c st.maps }) r
        → IsLost r
    Join-IsLost r (joins i f) = rw f (refl, size_left, gone)
    Join-IsLost r (deployed w i u f) = rw f (
      refl,
      size_left,
      (rw u at (deploy_frame ctl b a st.world shard key (λ q. ne (sym q)))).1 gone,
    )
    Join-IsLost r (deploy_failed y w i u f) = let k = rw u at n in cc

    track_cluster-IsLost : IsLost (track_cluster ctl c b st)
    track_cluster-IsLost = go _ (track_cluster-Track ctl c b st)
      where
        go : (r : Option Error × State S W) → Track ctl c b st r → IsLost r
        go r (unchanged e' f) = absurd (ne (cc))
        go r (stuck y st' _ k f) = let q = Leave-left (some y, st') k in cc
        go r (moved st' _ k j) =
            let q = Leave-left (none, st') k in
            let same : st' ≡ record st { maps = erase_from a c st.maps } = cc in
            Join-IsLost r (rw same at j)

  module _ (st : State S W) (sound : IsSound st.maps) (e : shard_of c st.maps ≡ some a)
      (l : is_last c a st.maps ≡ true) (f : shard_of d st.maps ≡ none) where
    -- The maps with both clusters in the shard.
    abbrev both : Maps S
    both = add_to a d st.maps

    both-shard_of : shard_of c both ≡ some a
    both-shard_of = ground (arith, shard_of-add_to a d st.maps c, reference_eq.beq_iff d c)

    both-is_member : is_member a c both ≡ true
    both-is_member =
        ground
          (arith, is_member-add_to a d st.maps a c, is_last-size c a st.maps, string_eq.beq_iff a a)

    both-is_last : is_last c a both ≡ false
    both-is_last = ground (
      arith,
      is_last-size c a both,
      is_last-size c a st.maps,
      size-add_to a d st.maps a,
      sound.owned a d,
      string_eq.beq_iff a a,
    )

    -- Let the sets be sound. The last cluster of a shard gets another annotation, for which controllers
    -- can be deployed, and the removal of the shard's controllers returns an error, although they are
    -- gone. Then trackCluster returns the error. If a cluster that is not tracked comes to the shard now,
    -- trackCluster returns nil for it, and the retry for the first one returns nil as well: the shard has
    -- a cluster then, and none of its controllers is there.
    pub track_cluster_overtaken :
        {x : Error} {w : W}
        → ctl.IsKey a
        → IsAnnotation ctl b
        → ctl.undeploy a st.world ≡ (some x, w)
        → ctl.Gone a w
        → (ctl.deploy b w).0 ≡ none
        → ((track_cluster ctl c b st).0 ≡ some x)
          × ((track_cluster ctl d a (track_cluster ctl c b st).1).0 ≡ none)
          × ((track_cluster ctl c b (track_cluster ctl d a (track_cluster ctl c b st).1).1).0
              ≡ none)
          × (size a
                (track_cluster ctl c b
                  (track_cluster ctl d a (track_cluster ctl c b st).1).1).1.maps
              ≢ 0)
          × ctl.Gone a
              (track_cluster ctl c b (track_cluster ctl d a (track_cluster ctl c b st).1).1).1.world
    track_cluster_overtaken {x} {w} key shard u gone n =
        let refused = track_cluster_refused st x w e l u in
        let stopped : State S W = record st { world = w } in
        let busy : is_idle a st.maps ≡ false =
          ground (arith, is_idle-size a st.maps, is_last-size c a st.maps) in
        let joined = track_cluster_joins stopped f busy in
        let shared : State S W = record { maps = both; world = w } in
        let lost =
          track_cluster-IsLost shared both-shard_of both-is_member both-is_last key shard n gone in
        rw (refused, joined) (refl, refl, lost.0, lost.1, lost.2)
