-- ===== src/Tracker/Bounds.antt =====
-- How many clusters the set of a shard can have, and how many clusters are tracked
-- (internal/controller/utils.go).
use shard_controller.Prelude.{
  ◌≡◌, ◌≤◌, ℕ, Bool, true, false, String, some, List, [], ◌∷◌, arith, nat_eq, string_eq, ◌==◌, Dict,
  lookup, count, Bool-cases, inl, inr, Option-cases,
}
use shard_controller.Reference.{ObjectReference, reference_eq, RefSet}
use shard_controller.Shards.{Shards}
use shard_controller.Tracker.{Maps, State}
use shard_controller.Tracker.Views.{shard_of, is_member, size}
use shard_controller.Tracker.Consistency.{IsSound}
use shard_controller.Tracker.Runs.{Event, run, run-IsSound}

-- An entry of `clusterMap` for a cluster of the shard.
abbrev pub is_in : String → ObjectReference × String → Bool
is_in s entry = entry.1 == s

-- The clusters that `clusterMap` has in a shard.
unfoldable pub tracked_in : {S : Type 0} → String → Maps S → ℕ
tracked_in s m = count (is_in s) m.cluster_map

module _ {S : Type 0} ⦃sets : RefSet S⦄ (s : String) where
  abbrev IsWithin : S → Dict ObjectReference String → Type 0
  IsWithin set m = (c : ObjectReference) → sets.has set c ≡ true → lookup c m ≡ some s

  empty-len : (set : S) → ((c : ObjectReference) → sets.has set c ≡ false) → sets.len set ≡ 0
  empty-len set h = elim (Bool-cases (sets.len set == 0)) [
    | inl z ↦ ground arith
    | inr z ↦ let (c, p) = sets.member_of_len set (λ e. ground arith) in absurd (let q = h c in cc)
  ]

  IsWithin-erase :
      (c : ObjectReference) (shard : String) (m : Dict ObjectReference String) (set : S)
      → IsWithin set ((c, shard) ∷ m)
      → IsWithin (sets.erase c set) m
  unfolding lookup
  IsWithin-erase c shard m set h d p = ground (arith, sets.has-erase c d set, h d)

  -- By the entries: take the cluster of each entry out of the set.
  len-count :
      (m : Dict ObjectReference String) (set : S)
      → IsWithin set m
      → sets.len set ≤ count (is_in s) m
  unfolding count lookup
  len-count [] set h = let z = empty-len set (λ c. ground (arith, h c)) in ground arith
  len-count ((c, shard) ∷ m) set h =
      let rest = len-count m (sets.erase c set) (IsWithin-erase c shard m set h) in
      ground (arith, sets.len-erase c set, h c, reference_eq.beq_iff c c, string_eq.beq_iff shard s)

  size-tracked_in : (m : Maps S) → IsSound m → size s m ≤ tracked_in s m
  unfolding size tracked_in is_member shard_of
  size-tracked_in m h = elim (Option-cases (lookup s m.shard_map)) [
    | inl e ↦ ground arith
    | inr (set, e) ↦
        let k = len-count m.cluster_map set (λ c p. h.owned s c (ground arith)) in ground arith
  ]

module _ {S W : Type 0} ⦃sets : RefSet S⦄ (ctl : Shards W) where
  -- After any calls, failed ones included, from maps in which a cluster is in the set of no shard but
  -- its own, the set of a shard has at most as many clusters as `clusterMap` has in the shard.
  pub run-tracked_in :
      (evs : List Event) (st : State S W) (s : String)
      → IsSound st.maps
      → size s (run ctl evs st).1.maps ≤ tracked_in s (run ctl evs st).1.maps
  run-tracked_in evs st s h = size-tracked_in s (run ctl evs st).1.maps (run-IsSound ctl evs st h)
