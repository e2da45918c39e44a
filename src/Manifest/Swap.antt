-- ===== src/Manifest/Swap.antt =====
-- `args[j] = args[lastIdx]; args = args[:lastIdx]` of setOptions (internal/controller/utils.go) takes
-- away the argument at j and no other.
use shard_controller.Prelude.{
  ℕ, zero, suc, ◌≡◌, ◌<◌, Bool, String, List, [], ◌∷◌, arith, length, get_or, take, count,
}
use shard_controller.Manifest.{swap_remove}

module _ (p : String → Bool) where
  -- A list is its last element and the ones before it.
  count-last :
      (x : String) (xs : List String)
      → count p (x ∷ xs) ≡ count p (get_or (x ∷ xs) (length xs) "" ∷ take (length xs) (x ∷ xs))
  unfolding count
  count-last x [] = ground arith
  count-last x (y ∷ ys) = ground (arith, count-last y ys)

  pub count-swap_remove :
      (args : List String) (j : ℕ)
      → j < length args
      → count p args ≡ count p (get_or args j "" ∷ swap_remove j args)
  unfolding count swap_remove
  count-swap_remove [] j h = elim h [ ]
  count-swap_remove (x ∷ []) zero h = ground arith
  count-swap_remove (x ∷ []) (suc j) h = absurd (omega arith)
  count-swap_remove (x ∷ y ∷ ys) zero h = ground (arith, count-last y ys)
  count-swap_remove (x ∷ y ∷ ys) (suc j) h = ground (arith, count-swap_remove (y ∷ ys) j)
