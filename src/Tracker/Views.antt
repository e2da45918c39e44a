-- ===== src/Tracker/Views.antt =====
-- What a reader of the maps of internal/controller/utils.go sees, and how the writes of
-- trackCluster and stopTrackingCluster change it.
use shard_controller.Prelude.{
  ℕ, suc, ◌≡◌, ◌≢◌, refl, Bool, true, false, ◌&&◌, String, Option, none, some, arith, nat_eq,
  string_eq, ◌==◌, if◌then◌else◌, lookup, lookup-insert, lookup-delete, Option-cases, inl, inr, not,
}
use mathlib.Core.Option
use shard_controller.Reference.{ObjectReference, reference_eq, RefSet}
use shard_controller.Tracker.{Maps, is_idle, is_last, erase_from, add_to, forget}

-- `clusterMap[cluster]`
unfoldable pub shard_of : {S : Type 0} → ObjectReference → Maps S → Option String
shard_of cluster m = lookup cluster m.cluster_map

module _ {S : Type 0} ⦃sets : RefSet S⦄ where
  -- Whether the set of a shard has a cluster, and its length: false and 0 for the nil set.
  unfoldable pub is_member : String → ObjectReference → Maps S → Bool
  is_member shard cluster m = elim (lookup shard m.shard_map) [
    | none ↦ false
    | some set ↦ sets.has set cluster
  ]

  unfoldable pub size : String → Maps S → ℕ
  size shard m = elim (lookup shard m.shard_map) [ none ↦ 0 | some set ↦ sets.len set ]

  pub is_idle-size : (s : String) (m : Maps S) → is_idle s m ≡ (size s m == 0)
  unfolding is_idle size
  is_idle-size s m = ground arith

  pub is_last-size :
      (c : ObjectReference) (s : String) (m : Maps S)
      → is_last c s m ≡ (is_member s c m && size s m == 1)
  unfolding is_last is_member size
  is_last-size c s m = ground arith

  pub is_member_of_size :
      (s : String) (m : Maps S) → size s m ≢ 0 → (c : ObjectReference) × (is_member s c m ≡ true)
  unfolding size is_member
  is_member_of_size s m p = elim (Option-cases (lookup s m.shard_map)) [
    | inl e ↦ absurd (p (ground arith))
    | inr (set, e) ↦
        let (c, h) = sets.member_of_len set (λ z. p (ground arith)) in (c, ground arith)
  ]

  module _ (t : String) (c : ObjectReference) (m : Maps S) where
    pub shard_of-erase_from : (d : ObjectReference) → shard_of d (erase_from t c m) ≡ shard_of d m
    unfolding shard_of erase_from
    shard_of-erase_from d = ground arith

    pub shard_of-add_to :
        (d : ObjectReference)
        → shard_of d (add_to t c m) ≡ (if c == d then some t else shard_of d m)
    unfolding shard_of add_to
    shard_of-add_to d = lookup-insert c d t m.cluster_map

    -- The set that each shard has afterwards.
    erased :
        (s : String)
        → lookup s (erase_from t c m).shard_map ≡ (
            if t == s
            then Option.map (sets.erase c) (lookup t m.shard_map)
            else lookup s m.shard_map)
    unfolding erase_from
    erased s = elim (Option-cases (lookup t m.shard_map)) [
      | inl e ↦ ground (arith, string_eq.beq_iff t s)
      | inr (set, e) ↦ ground (arith, lookup-insert t s (sets.erase c set) m.shard_map)
    ]

    pub is_member-erase_from :
        (s : String) (d : ObjectReference)
        → is_member s d (erase_from t c m) ≡ (if t == s && c == d then false else is_member s d m)
    unfolding is_member
    is_member-erase_from s d = elim (Option-cases (lookup t m.shard_map)) [
      | inl e ↦ ground (arith, erased s, string_eq.beq_iff t s)
      | inr (set, e) ↦ ground (arith, erased s, string_eq.beq_iff t s, sets.has-erase c d set)
    ]

    pub size-erase_from :
        (s : String)
        → size s m ≡ (
            if t == s && is_member t c m
            then suc (size s (erase_from t c m))
            else size s (erase_from t c m))
    unfolding is_member size
    size-erase_from s = elim (Option-cases (lookup t m.shard_map)) [
      | inl e ↦ ground (arith, erased s, string_eq.beq_iff t s)
      | inr (set, e) ↦ ground (arith, erased s, string_eq.beq_iff t s, sets.len-erase c set)
    ]

    added :
        (s : String)
        → lookup s (add_to t c m).shard_map ≡ (
            if t == s
            then some (sets.insert c (Option.get_or (lookup t m.shard_map) sets.empty))
            else lookup s m.shard_map)
    unfolding add_to
    added s = elim (Option-cases (lookup t m.shard_map)) [
      | inl e ↦ ground (arith, lookup-insert t s (sets.insert c sets.empty) m.shard_map)
      | inr (set, e) ↦ ground (arith, lookup-insert t s (sets.insert c set) m.shard_map)
    ]

    pub is_member-add_to :
        (s : String) (d : ObjectReference)
        → is_member s d (add_to t c m) ≡ (if t == s && c == d then true else is_member s d m)
    unfolding is_member
    is_member-add_to s d = elim (Option-cases (lookup t m.shard_map)) [
      | inl e ↦
          ground (
            arith,
            added s,
            string_eq.beq_iff t s,
            sets.has-insert c d sets.empty,
            sets.has-empty d,
          )
      | inr (set, e) ↦ ground (arith, added s, string_eq.beq_iff t s, sets.has-insert c d set)
    ]

    pub size-add_to :
        (s : String)
        → size s (add_to t c m)
          ≡ (if t == s && not (is_member t c m) then suc (size s m) else size s m)
    unfolding is_member size
    size-add_to s = elim (Option-cases (lookup t m.shard_map)) [
      | inl e ↦ ground (
        arith,
        added s,
        string_eq.beq_iff t s,
        sets.len-insert c sets.empty,
        sets.has-empty c,
        sets.len-empty,
      )
      | inr (set, e) ↦ ground (arith, added s, string_eq.beq_iff t s, sets.len-insert c set)
    ]

  module _ (c : ObjectReference) (m : Maps S) where
    pub shard_of-forget :
        (d : ObjectReference) → shard_of d (forget c m) ≡ (if c == d then none else shard_of d m)
    unfolding shard_of forget
    shard_of-forget d = lookup-delete c d m.cluster_map

    pub is_member-forget :
        (s : String) (d : ObjectReference) → is_member s d (forget c m) ≡ is_member s d m
    unfolding is_member forget
    is_member-forget s d = refl

    pub size-forget : (s : String) → size s (forget c m) ≡ size s m
    unfolding size forget
    size-forget s = refl
