-- ===== src/Prelude.antt =====
-- Names that the other modules share: the libraries', passed on, and those of the children.
mod Tests
mod Equality
mod Lists
mod Text
mod GoMap
mod Int
pub use Tests.*
pub use Equality.*
pub use Lists.{
  length, length-append, All, All-mono, All₂, All₂-map, get_or, set, take, count-append, any,
}
unfoldable pub use Lists.{count}
unfoldable pub use Text.{has_prefix, str_contains, concat}
pub use Text.{concat_assoc, concat-empty}
unfoldable pub use GoMap.{Dict, lookup, insert, delete}
pub use GoMap.{lookup-insert, lookup-delete}
pub use Int.{ℤ, pos, negsuc}
pub use Prim.Native.Nat.{ℕ, zero, suc, ◌+◌, ◌-◌, ◌*◌, ◌≤◌, ◌<◌}
pub use Prim.Native.String.{String}
pub use mathlib.Core.Path.{◌≡◌, refl, sym, ap, ◌∙◌}
pub use mathlib.Core.Logic.{◌≢◌, ◌↔◌, ◌⊎◌, inl, inr}
pub use mathlib.Core.Bool.{Bool, true, false, ◌&&◌, ◌||◌, not}
pub use mathlib.Core.Option.{Option, none, some}
pub use mathlib.Core.List.{List, [], ◌∷◌, ◌++◌, map}
pub use native.Mathlib.Omega.{arith}
