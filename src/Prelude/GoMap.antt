-- ===== src/Prelude/GoMap.antt =====
-- Go's maps with comparable keys, as association lists. A missing key reads as `none`: where the
-- source reads the zero value there, the model of that source says so.
use mathlib.Core.Path.{◌≡◌}
use mathlib.Core.Option.{Option, none, some}
use mathlib.Core.List.{List, [], ◌∷◌}
use native.Mathlib.Omega.{arith}
use shard_controller.Prelude.Tests.{if◌then◌else◌}
use shard_controller.Prelude.Equality.{Eq, ◌==◌}

abbrev pub Dict : Type 0 → Type 0 → Type 0
Dict K V = List (K × V)

module _ {K V : Type 0} ⦃e : Eq K⦄ where
  -- `m[key]`
  unfoldable pub lookup : K → Dict K V → Option V
  lookup key [] = none
  lookup key ((k, value) ∷ rest) = if k == key then some value else lookup key rest

  -- `delete(m, key)`
  unfoldable pub delete : K → Dict K V → Dict K V
  delete key [] = []
  delete key ((k, value) ∷ rest) =
      let kept = delete key rest in if k == key then kept else (k, value) ∷ kept

  -- `m[key] = value`; the order of the entries of a Go map is not observable.
  unfoldable pub insert : K → V → Dict K V → Dict K V
  unfolding delete
  insert key value m = (key, value) ∷ delete key m

  pub lookup-delete :
      (key other : K) (m : Dict K V)
      → lookup other (delete key m) ≡ (if key == other then none else lookup other m)
  unfolding lookup delete
  lookup-delete key other [] = ground arith
  lookup-delete key other ((k, value) ∷ rest) =
      ground (
        arith,
        lookup-delete key other rest,
        e.beq_iff k key,
        e.beq_iff k other,
        e.beq_iff key other,
      )

  pub lookup-insert :
      (key other : K) (value : V) (m : Dict K V)
      → lookup other (insert key value m) ≡ (if key == other then some value else lookup other m)
  unfolding lookup insert
  lookup-insert key other value m = ground (arith, lookup-delete key other m)
