-- ===== src/Tracker/Outcomes.antt =====
-- The branches of trackCluster and stopTrackingCluster as relations: which tests and calls led to a
-- result, and what the maps and the cluster are then. Each call has one of them.
use shard_controller.Prelude.{
  ap, ◌≡◌, ◌≢◌, refl, inl, inr, true, false, String, Option, none, some, arith, Bool-cases,
  Option-cases, ◌==◌, nat_eq, string_eq, eq_of_test, ne_of_test, lookup, lookup-insert,
}
use shard_controller.Errors.{Error}
use shard_controller.Reference.{ObjectReference, reference_eq, RefSet}
use shard_controller.Shards.{Shards}
use shard_controller.Tracker.{
  Maps, State, is_shard, is_idle, is_last, erase_from, add_to, leave_shard, join_shard,
  track_cluster, drop_member, stop_tracking_cluster, key_or_empty, forget,
}
use shard_controller.Tracker.Views.{shard_of, is_member, size}

-- The test of trackCluster on the shard that the cluster was last part of.
is_shard-true : (o : Option String) (s : String) → is_shard o s ≡ true → o ≡ some s
is_shard-true none s h = cc
is_shard-true (some o) s h = ap some (eq_of_test o s h)

is_shard-false : (o : Option String) (s : String) → is_shard o s ≡ false → o ≢ some s
is_shard-false none s h p = cc
is_shard-false (some o) s h p = ground (arith, ne_of_test o s h)

-- The length that stopTrackingCluster reads after `Erase`, by the views of the maps.
size-erased :
    {S : Type 0} ⦃sets : RefSet S⦄ (s : String) (c : ObjectReference) (m : Maps S) (set : S)
    → lookup s m.shard_map ≡ some set
    → size s (erase_from s c m) ≡ sets.len (sets.erase c set)
unfolding size erase_from
size-erased ⦃sets⦄ s c m set e =
    ground (arith, lookup-insert s s (sets.erase c set) m.shard_map, string_eq.beq_iff s s)

module _ {S W : Type 0} ⦃sets : RefSet S⦄ (ctl : Shards W) (c : ObjectReference) where
  pub data Leave (old : Option String) (st : State S W) (r : Option Error × State S W)
      : Type 0 where
    stays_out : old ≡ none → r ≡ (none, st) → Leave old st r
    leaves :
        (o : String)
        → old ≡ some o
        → is_last c o st.maps ≡ false
        → r ≡ (none, record st { maps = erase_from o c st.maps })
        → Leave old st r
    undeployed :
        (o : String) (w : W)
        → old ≡ some o
        → is_last c o st.maps ≡ true
        → ctl.undeploy o st.world ≡ (none, w)
        → r ≡ (none, record { maps = erase_from o c st.maps; world = w })
        → Leave old st r
    undeploy_failed :
        (o : String) (e : Error) (w : W)
        → old ≡ some o
        → is_last c o st.maps ≡ true
        → ctl.undeploy o st.world ≡ (some e, w)
        → r ≡ (some e, record st { world = w })
        → Leave old st r

  pub data Join (s : String) (st : State S W) (r : Option Error × State S W) : Type 0 where
    joins :
        is_idle s st.maps ≡ false
        → r ≡ (none, record st { maps = add_to s c st.maps })
        → Join s st r
    deployed :
        (w : W)
        → is_idle s st.maps ≡ true
        → ctl.deploy s st.world ≡ (none, w)
        → r ≡ (none, record { maps = add_to s c st.maps; world = w })
        → Join s st r
    deploy_failed :
        (e : Error) (w : W)
        → is_idle s st.maps ≡ true
        → ctl.deploy s st.world ≡ (some e, w)
        → r ≡ (some e, record st { world = w })
        → Join s st r

  pub data Track (s : String) (st : State S W) (r : Option Error × State S W) : Type 0 where
    unchanged : shard_of c st.maps ≡ some s → r ≡ (none, st) → Track s st r
    stuck :
        (e : Error) (st' : State S W)
        → shard_of c st.maps ≢ some s
        → Leave (shard_of c st.maps) st (some e, st')
        → r ≡ (some e, st')
        → Track s st r
    moved :
        (st' : State S W)
        → shard_of c st.maps ≢ some s
        → Leave (shard_of c st.maps) st (none, st')
        → Join s st' r
        → Track s st r

  pub data Stop (st : State S W) (r : Option Error × State S W) : Type 0 where
    absent :
        is_member (key_or_empty (shard_of c st.maps)) c st.maps ≡ false
        → r ≡ (none, record st { maps = forget c st.maps })
        → Stop st r
    others_left :
        (s : String)
        → s ≡ key_or_empty (shard_of c st.maps)
        → is_member s c st.maps ≡ true
        → size s (erase_from s c st.maps) ≢ 0
        → r ≡ (none, record st { maps = erase_from s c (forget c st.maps) })
        → Stop st r
    last_one :
        (s : String) (e : Option Error) (w : W)
        → s ≡ key_or_empty (shard_of c st.maps)
        → is_member s c st.maps ≡ true
        → size s (erase_from s c st.maps) ≡ 0
        → ctl.undeploy s st.world ≡ (e, w)
        → r ≡ (e, record { maps = erase_from s c (forget c st.maps); world = w })
        → Stop st r

  leave_shard-Leave :
      (old : Option String) (st : State S W) → Leave old st (leave_shard ctl c old st)
  unfolding leave_shard
  leave_shard-Leave none st = stays_out refl refl
  leave_shard-Leave (some o) st = elim (Bool-cases (is_last c o st.maps)) [
    | inl e ↦ elim (Option-cases (ctl.undeploy o st.world).0) [
      | inl f ↦ undeployed o (ctl.undeploy o st.world).1 refl e (ground arith) (ground arith)
      | inr (x, f) ↦
          undeploy_failed o x (ctl.undeploy o st.world).1 refl e (ground arith) (ground arith)
    ]
    | inr e ↦ leaves o refl e (ground arith)
  ]

  join_shard-Join : (s : String) (st : State S W) → Join s st (join_shard ctl c s st)
  unfolding join_shard
  join_shard-Join s st = elim (Bool-cases (is_idle s st.maps)) [
    | inl e ↦ elim (Option-cases (ctl.deploy s st.world).0) [
      | inl f ↦ deployed (ctl.deploy s st.world).1 e (ground arith) (ground arith)
      | inr (x, f) ↦ deploy_failed x (ctl.deploy s st.world).1 e (ground arith) (ground arith)
    ]
    | inr e ↦ joins e (ground arith)
  ]

  module _ (s : String) (st : State S W) where
    track_cluster-of_leave :
        is_shard (shard_of c st.maps) s ≡ false
        → (st' : State S W) → leave_shard ctl c (shard_of c st.maps) st ≡ (none, st')
        → track_cluster ctl c s st ≡ join_shard ctl c s st'
    unfolding track_cluster shard_of
    track_cluster-of_leave h st' e = ground arith

    Track-of_leave :
        is_shard (shard_of c st.maps) s ≡ false
        → (r : Option Error × State S W) → leave_shard ctl c (shard_of c st.maps) st ≡ r
        → Track s st (track_cluster ctl c s st)
    unfolding track_cluster shard_of
    Track-of_leave h (none, st') e =
        moved st' (is_shard-false _ s h) (rw e at (leave_shard-Leave (shard_of c st.maps) st))
          (rw (track_cluster-of_leave h st' e) (join_shard-Join s st'))
    Track-of_leave h (some x, st') e =
        stuck x st' (is_shard-false _ s h) (rw e at (leave_shard-Leave (shard_of c st.maps) st))
          (ground arith)

    pub track_cluster-Track : Track s st (track_cluster ctl c s st)
    unfolding track_cluster shard_of
    track_cluster-Track = elim (Bool-cases (is_shard (shard_of c st.maps) s)) [
      | inl e ↦ unchanged (is_shard-true _ s e) (ground arith)
      | inr e ↦ Track-of_leave e (leave_shard ctl c (shard_of c st.maps) st) refl
    ]

  module _ (st : State S W) where
    abbrev old_key : String
    old_key = key_or_empty (shard_of c st.maps)

    Stop-of_nil : lookup old_key st.maps.shard_map ≡ none → Stop st (stop_tracking_cluster ctl c st)
    unfolding stop_tracking_cluster drop_member shard_of is_member forget
    Stop-of_nil e = absent (ground arith) (ground arith)

    Stop-of_set :
        (set : S)
        → lookup old_key st.maps.shard_map ≡ some set
        → Stop st (stop_tracking_cluster ctl c st)
    unfolding stop_tracking_cluster drop_member shard_of is_member forget
    Stop-of_set set e = elim (Bool-cases (sets.has set c)) [
      | inr h ↦ absent (ground arith) (ground arith)
      | inl h ↦ elim (Bool-cases (sets.len (sets.erase c set) == 0)) [
        | inl z ↦
            last_one old_key (ctl.undeploy old_key st.world).0 (ctl.undeploy old_key st.world).1
              refl (ground arith) (ground (arith, size-erased old_key c st.maps set e)) refl
              (ground arith)
        | inr z ↦
            others_left old_key refl (ground arith)
              (ground (arith, size-erased old_key c st.maps set e)) (ground arith)
      ]
    ]

    pub stop_tracking_cluster-Stop : Stop st (stop_tracking_cluster ctl c st)
    stop_tracking_cluster-Stop = elim (Option-cases (lookup old_key st.maps.shard_map)) [
      | inl e ↦ Stop-of_nil e
      | inr (set, e) ↦ Stop-of_set set e
    ]

  -- A cluster that keeps its shard changes nothing.
  pub track_cluster_same :
      (s : String) (st : State S W)
      → shard_of c st.maps ≡ some s
      → track_cluster ctl c s st ≡ (none, st)
  track_cluster_same s st e = go _ (track_cluster-Track s st)
    where
      go : (r : Option Error × State S W) → Track s st r → r ≡ (none, st)
      go r (unchanged _ f) = f
      go r (stuck x st' ne l f) = absurd (ne e)
      go r (moved st' ne l j) = absurd (ne e)
