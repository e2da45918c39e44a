-- ===== src/Redeploy/Active.antt =====
-- Which shards redeployAllShards (internal/controller/utils.go) lists.
use shard_controller.Prelude.{
  ◌≡◌, refl, Bool, false, ◌&&◌, ◌||◌, not, String, Option, none, some, List, [], ◌∷◌, arith,
  string_eq, nat_eq, ◌==◌, Dict, lookup,
}
use shard_controller.Reference.{RefSet}
use shard_controller.Tracker.{Maps}
use shard_controller.Tracker.Views.{size}
use shard_controller.Redeploy.{active_shards}

-- Whether a list of keys has a key.
abbrev pub contains : List String → String → Bool
contains [] k = false
contains (x ∷ xs) k = x == k || contains xs k

-- No key twice.
abbrev pub IsDistinct : {V : Type 0} → Dict String V → Type 0
IsDistinct [] = Unit
IsDistinct ((k, v) ∷ rest) = (lookup k rest ≡ none) × IsDistinct rest

-- `range` over a map yields each of its entries once, in some order.
pub record IsRange {V : Type 0} (entries m : Dict String V) : Type 0 where
  pub distinct : IsDistinct entries
  pub same : (k : String) → lookup k entries ≡ lookup k m

module _ {S : Type 0} ⦃sets : RefSet S⦄ where
  abbrev is_active : String → Option S → Bool
  is_active k none = false
  is_active k (some clusters) = not (k == "") && not (sets.len clusters == 0)

  contains-active_shards :
      (entries : Dict String S) (k : String)
      → IsDistinct entries
      → contains (active_shards entries) k ≡ is_active k (lookup k entries)
  unfolding active_shards lookup
  contains-active_shards [] k h = refl
  contains-active_shards ((j, c) ∷ rest) k h =
      ground (arith, contains-active_shards rest k h.1, string_eq.beq_iff j k)

  -- A shard is listed exactly if it is not the empty key and some cluster is in it, in whatever order
  -- the map is read.
  pub contains-active_shards-size :
      (entries : Dict String S) (m : Maps S) (k : String)
      → IsRange entries m.shard_map
      → contains (active_shards entries) k ≡ (not (k == "") && not (size k m == 0))
  unfolding size
  contains-active_shards-size entries m k h =
      rw (contains-active_shards entries k h.distinct, h.same k) (ground arith)
