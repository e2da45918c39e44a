-- ===== src/Tracker/Sizes.antt =====
-- The lengths of the shards' sets (internal/controller/utils.go) before and after the writes.
use shard_controller.Prelude.{◌≡◌, ◌≢◌, true, false, String, arith, string_eq, ap, ◌∙◌}
use shard_controller.Reference.{ObjectReference, RefSet}
use shard_controller.Tracker.{Maps, is_last, is_idle, erase_from, add_to, forget}
use shard_controller.Tracker.Views.{
  is_member, size, is_idle-size, is_last-size, size-erase_from, size-add_to, size-forget,
}
use shard_controller.Tracker.Consistency.{erase_from-forget}

module _ {S : Type 0} ⦃sets : RefSet S⦄ (s t : String) (c : ObjectReference) (m : Maps S) where
  pub size-erase_last : is_last c s m ≡ true → s ≡ t → size t (erase_from s c m) ≡ 0
  size-erase_last h e =
      ground (arith, is_last-size c s m, size-erase_from s c m t, string_eq.beq_iff s t)

  pub size-erase_other :
      is_member s c m ≡ true → is_last c s m ≡ false → s ≡ t → size t (erase_from s c m) ≢ 0
  size-erase_other h l e =
      ground (arith, is_last-size c s m, size-erase_from s c m t, string_eq.beq_iff s t)

  pub size-erase_absent : is_member s c m ≡ false → s ≡ t → size t (erase_from s c m) ≡ size t m
  size-erase_absent h e = ground (arith, size-erase_from s c m t, string_eq.beq_iff s t)

  pub size-member : is_member s c m ≡ true → s ≡ t → size t m ≢ 0
  size-member h e = ground (arith, size-erase_from s c m t, string_eq.beq_iff s t)

  pub size-erase_ne : s ≢ t → size t (erase_from s c m) ≡ size t m
  size-erase_ne ne = ground (arith, size-erase_from s c m t, string_eq.beq_iff s t)

  pub size-add_to_self : s ≡ t → size t (add_to s c m) ≢ 0
  size-add_to_self e =
      ground (arith, size-add_to s c m t, size-erase_from s c m t, string_eq.beq_iff s t)

  pub size-add_to_ne : s ≢ t → size t (add_to s c m) ≡ size t m
  size-add_to_ne ne = ground (arith, size-add_to s c m t, string_eq.beq_iff s t)

  -- stopTrackingCluster deletes the entry of `clusterMap` first.
  pub size-stop : size t (erase_from s c (forget c m)) ≡ size t (erase_from s c m)
  size-stop = ap (size t) (erase_from-forget c m s) ∙ size-forget c (erase_from s c m) t

  pub size-at : s ≡ t → size s (erase_from s c m) ≡ size t (erase_from s c m)
  size-at e = ap (λ (k : String). size k (erase_from s c m)) e

  pub size-idle : is_idle s m ≡ true → s ≡ t → size t m ≡ 0
  size-idle h e = ground (arith, is_idle-size s m)

  pub idle-size : s ≡ t → size t m ≡ 0 → is_idle s m ≡ true
  idle-size e h = ground (arith, is_idle-size s m)

  pub size-busy : is_idle s m ≡ false → s ≡ t → size t m ≢ 0
  size-busy h e = ground (arith, is_idle-size s m)
