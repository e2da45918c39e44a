-- ===== src/Prelude/Text.antt =====
-- Go's strings, where the source looks into them (package strings), and their concatenation.
use Prim.Native.Char.{code}
use Prim.Native.String.{String}
use mathlib.Core.Path.{◌≡◌, refl, ap}
use mathlib.Core.Bool.{Bool, true, false, ◌&&◌, ◌||◌}
use shard_controller.Prelude.Equality.{◌==◌, nat_eq}

-- `strings.HasPrefix(s, prefix)`
unfoldable pub has_prefix : String → String → Bool
has_prefix s String.[] = true
has_prefix String.[] (String.◌∷◌ c p) = false
has_prefix (String.◌∷◌ d s) (String.◌∷◌ c p) = code d == code c && has_prefix s p

-- `strings.Contains(s, substr)`
unfoldable pub str_contains : String → String → Bool
unfolding has_prefix
str_contains String.[] sub = has_prefix String.[] sub
str_contains (String.◌∷◌ c s) sub = has_prefix (String.◌∷◌ c s) sub || str_contains s sub

-- `a + b`
unfoldable pub concat : String → String → String
concat String.[] b = b
concat (String.◌∷◌ c a) b = String.◌∷◌ c (concat a b)

pub concat_assoc : (s t u : String) → concat (concat s t) u ≡ concat s (concat t u)
unfolding concat
concat_assoc String.[] t u = refl
concat_assoc (String.◌∷◌ c s) t u = ap (λ (v : String). String.◌∷◌ c v) (concat_assoc s t u)

pub concat-empty : (s : String) → concat s "" ≡ s
unfolding concat
concat-empty String.[] = refl
concat-empty (String.◌∷◌ c s) = ap (λ (v : String). String.◌∷◌ c v) (concat-empty s)
