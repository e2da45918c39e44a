-- ===== src/Tracker/Consistency.antt =====
-- Agreement of `clusterMap` and `shardMap` (internal/controller/utils.go), and the writes to them that
-- keep or restore it.
use shard_controller.Prelude.{◌≡◌, ◌≢◌, true, false, String, none, some, arith, string_eq}
use shard_controller.Reference.{ObjectReference, reference_eq, RefSet}
use shard_controller.Tracker.{Maps, erase_from, add_to, forget}
use shard_controller.Tracker.Views.{
  shard_of, is_member, shard_of-erase_from, shard_of-add_to, is_member-erase_from, is_member-add_to,
  shard_of-forget, is_member-forget,
}

module _ {S : Type 0} ⦃sets : RefSet S⦄ where
  -- The set of a shard holds only clusters that `clusterMap` has in it.
  pub record IsSound (m : Maps S) : Type 0 where
    pub owned : (s : String) (c : ObjectReference) → is_member s c m ≡ true → shard_of c m ≡ some s

  -- Among the clusters of `X`, one that `clusterMap` has in a shard is in the set of the shard.
  pub record IsConsistentOn (X : ObjectReference → Type 0) (m : Maps S) : Type 0 where
    pub sound : IsSound m
    pub complete :
        (s : String) (d : ObjectReference) → X d → shard_of d m ≡ some s → is_member s d m ≡ true

  -- The two maps say the same of every cluster.
  abbrev pub IsConsistent : Maps S → Type 0
  IsConsistent = IsConsistentOn (λ _. Unit {0})

  -- The same, apart from `c`.
  abbrev pub IsConsistentBut : (ObjectReference → Type 0) → ObjectReference → Maps S → Type 0
  IsConsistentBut X c = IsConsistentOn (λ d. X d × (c ≢ d))

  pub but_of_IsConsistentOn :
      (X : ObjectReference → Type 0) (c : ObjectReference) (m : Maps S)
      → IsConsistentOn X m
      → IsConsistentBut X c m
  but_of_IsConsistentOn X c m h = record { sound = h.sound; complete = λ s d x. h.complete s d x.0 }

  -- In no shard's set any more.
  abbrev pub IsOut : ObjectReference → Maps S → Type 0
  IsOut c m = (s : String) → is_member s c m ≡ false

  module _ (X : ObjectReference → Type 0) (c : ObjectReference) (m : Maps S) where
    pub erase_from-IsConsistentBut :
        (t : String) → IsConsistentBut X c m → IsConsistentBut X c (erase_from t c m)
    erase_from-IsConsistentBut t h = record {
      sound = record {
        owned = λ s d.
            ground (
              arith,
              h.sound.owned s d,
              shard_of-erase_from t c m d,
              is_member-erase_from t c m s d,
            );
      };
      complete = λ s d ne. ground (
        arith,
        h.complete s d ne,
        shard_of-erase_from t c m d,
        is_member-erase_from t c m s d,
        reference_eq.beq_iff c d,
      );
    }

    pub erase_from-IsOut :
        (t : String) → IsConsistentBut X c m → shard_of c m ≡ some t → IsOut c (erase_from t c m)
    erase_from-IsOut t h e s = ground (
      arith,
      h.sound.owned s c,
      is_member-erase_from t c m s c,
      string_eq.beq_iff t s,
      reference_eq.beq_iff c c,
    )

    pub untracked-IsOut : IsConsistentBut X c m → shard_of c m ≡ none → IsOut c m
    untracked-IsOut h e s = ground (arith, h.sound.owned s c)

    pub add_to-IsConsistentOn :
        (t : String) → IsConsistentBut X c m → IsOut c m → IsConsistentOn X (add_to t c m)
    add_to-IsConsistentOn t h out = record {
      sound = record {
        owned = λ s d. ground (
          arith,
          h.sound.owned s d,
          out s,
          shard_of-add_to t c m d,
          is_member-add_to t c m s d,
          string_eq.beq_iff t s,
          reference_eq.beq_iff c d,
        );
      };
      complete = λ s d x e. ground (
        arith,
        λ (ne : c ≢ d). h.complete s d (x, ne),
        shard_of-add_to t c m d,
        is_member-add_to t c m s d,
        string_eq.beq_iff t s,
        reference_eq.beq_iff c d,
      );
    }

    pub forget-IsConsistentOn : IsConsistentBut X c m → IsOut c m → IsConsistentOn X (forget c m)
    forget-IsConsistentOn h out = record {
      sound = record {
        owned = λ s d. ground (
          arith,
          h.sound.owned s d,
          out s,
          shard_of-forget c m d,
          is_member-forget c m s d,
          reference_eq.beq_iff c d,
        );
      };
      complete = λ s d x e. ground (
        arith,
        λ (ne : c ≢ d). h.complete s d (x, ne),
        shard_of-forget c m d,
        is_member-forget c m s d,
        reference_eq.beq_iff c d,
      );
    }

  module _ (c : ObjectReference) (m : Maps S) where
    pub erase_from-forget : (t : String) → erase_from t c (forget c m) ≡ forget c (erase_from t c m)
    unfolding erase_from forget
    erase_from-forget t = ground arith
