-- ===== src/Tracker.antt =====
-- internal/controller/utils.go: the maps of the reconcilers, and trackCluster and
-- stopTrackingCluster over them. `mux` makes each of these calls atomic. Log output is left out.
pub mod Views
pub mod Outcomes
pub mod Consistency
pub mod Calls
pub mod Sizes
pub mod Sync
pub mod Retry
pub mod Failures
pub mod Bounds
pub mod Available
pub mod Serving
pub mod Restart
pub mod Overtaken
pub mod Runs
pub mod Healthy
pub mod Attempts
use shard_controller.Prelude.{
  Bool, true, false, ◌&&◌, String, Option, none, some, [], nat_eq, string_eq, ◌==◌, if◌then◌else◌,
  Dict, lookup, insert, delete,
}
use shard_controller.Errors.{Action, return_nil, ◌then_do◌}
use shard_controller.Reference.{ObjectReference, reference_eq, RefSet}
use shard_controller.Shards.{Shards}

-- The package's variables: the shard that each cluster was last part of, and the clusters that
-- match each shard. A shard with no entry reads as the nil set.
pub record Maps (S : Type 0) : Type 0 where
  pub cluster_map : Dict ObjectReference String
  pub shard_map : Dict String S

-- `InitMaps`
unfoldable pub init_maps : {S : Type 0} → Maps S
init_maps = record { cluster_map = []; shard_map = [] }

-- The maps, and the management cluster that the calls below write to.
pub record State (S W : Type 0) : Type 0 where
  pub maps : Maps S
  pub world : W

abbrev pub is_shard : Option String → String → Bool
is_shard none shard = false
is_shard (some old) shard = old == shard

-- `oldShardKey := clusterMap[*cluster]` is "" when the cluster is not tracked.
abbrev pub key_or_empty : Option String → String
key_or_empty none = ""
key_or_empty (some shard) = shard

-- `delete(clusterMap, *cluster)`
unfoldable pub forget : {S : Type 0} → ObjectReference → Maps S → Maps S
forget cluster m = record m { cluster_map = delete cluster m.cluster_map }

module _ {S W : Type 0} where
  abbrev pub in_world : Action W → Action (State S W)
  in_world call st = let (e, w) = call st.world in (e, record st { world = w })

  abbrev pub in_maps : (Maps S → Maps S) → Action (State S W)
  in_maps f st = (none, record st { maps = f st.maps })

module _ {S : Type 0} ⦃sets : RefSet S⦄ where
  -- `shardMap[shard] == nil || shardMap[shard].Len() == 0`
  unfoldable pub is_idle : String → Maps S → Bool
  is_idle shard m = elim (lookup shard m.shard_map) [ none ↦ true | some set ↦ sets.len set == 0 ]

  -- `set != nil && set.Has(cluster) && set.Len() == 1`
  unfoldable pub is_last : ObjectReference → String → Maps S → Bool
  is_last cluster shard m = elim (lookup shard m.shard_map) [
    | none ↦ false
    | some set ↦ sets.has set cluster && sets.len set == 1
  ]

  -- `if set != nil { set.Erase(cluster); shardMap[shard] = set }`
  unfoldable pub erase_from : String → ObjectReference → Maps S → Maps S
  erase_from shard cluster m = elim (lookup shard m.shard_map) [
    | none ↦ m
    | some set ↦ record m { shard_map = insert shard (sets.erase cluster set) m.shard_map }
  ]

  -- the last block of trackCluster: both maps are written together
  unfoldable pub add_to : String → ObjectReference → Maps S → Maps S
  add_to shard cluster m = record {
    cluster_map = insert cluster shard m.cluster_map;
    shard_map = insert shard (sets.insert cluster set) m.shard_map;
  }
    where
      set : S
      set = elim (lookup shard m.shard_map) [ none ↦ sets.empty | some old ↦ old ]

module _ {S W : Type 0} ⦃sets : RefSet S⦄ (ctl : Shards W) where
  -- the block `if alreadyTracked` of trackCluster
  unfoldable pub leave_shard : ObjectReference → Option String → Action (State S W)
  leave_shard cluster none st = (none, st)
  leave_shard cluster (some old) st =
      ((if is_last cluster old st.maps then in_world (ctl.undeploy old) else return_nil)
          then_do in_maps (erase_from old cluster))
        st

  -- the rest of trackCluster
  unfoldable pub join_shard : ObjectReference → String → Action (State S W)
  join_shard cluster shard st =
      ((if is_idle shard st.maps then in_world (ctl.deploy shard) else return_nil)
          then_do in_maps (add_to shard cluster))
        st

  unfoldable pub track_cluster : ObjectReference → String → Action (State S W)
  track_cluster cluster shard st =
      let old = lookup cluster st.maps.cluster_map in
      if is_shard old shard
      then (none, st)
      else (leave_shard cluster old then_do join_shard cluster shard) st

  -- `if set != nil { if set.Has(cluster) { … } }`; `set.Erase` has run when `Len` is read
  unfoldable pub drop_member : ObjectReference → String → Action (State S W)
  drop_member cluster shard st = elim (lookup shard st.maps.shard_map) [
    | none ↦ (none, st)
    | some set ↦
        if sets.has set cluster
        then (in_maps (erase_from shard cluster)
              then_do (if sets.len (sets.erase cluster set) == 0
                  then in_world (ctl.undeploy shard)
                  else return_nil))
            st
        else (none, st)
  ]

  unfoldable pub stop_tracking_cluster : ObjectReference → Action (State S W)
  stop_tracking_cluster cluster st =
      (in_maps (forget cluster)
          then_do drop_member cluster (key_or_empty (lookup cluster st.maps.cluster_map)))
        st
