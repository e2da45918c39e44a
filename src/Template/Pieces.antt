-- ===== src/Template/Pieces.antt =====
-- instantiateTemplate (internal/controller/utils.go) by the pieces of a template between its actions.
use Prim.Native.Char.{Char, code}
use shard_controller.Prelude.{
  ◌≡◌, refl, sym, ap, ◌∙◌, zero, Bool, true, false, ◌&&◌, not, String, List, [], ◌∷◌, All, arith,
  nat_eq, ◌==◌, has_prefix, concat, concat_assoc, concat-empty,
}
use shard_controller.Template.{
  Rendered, text, uncovered, before, action, render, escape, instantiate_template,
}

-- Text that has no `<` and no action and cannot begin one: every opening brace in it has another
-- character behind it.
unfoldable pub is_text : String → Bool
is_text String.[] = true
is_text (String.◌∷◌ c String.[]) = not (code c == b'<') && not (code c == b'{')
is_text (String.◌∷◌ c (String.◌∷◌ d s)) =
    not (code c == b'<') && not (code c == b'{' && code d == b'{') && is_text (String.◌∷◌ d s)

-- The pieces with a text between each two.
unfoldable pub join : String → List String → String
join sep [] = String.[]
join sep (p ∷ []) = p
join sep (p ∷ q ∷ ps) = concat p (concat sep (join sep (q ∷ ps)))

before-concat : (s t : String) (r : Rendered) → before (concat s t) r ≡ before s (before t r)
before-concat s t uncovered = refl
before-concat s t (text u) = ap (λ (v : String). text v) (concat_assoc s t u)

before-empty : (r : Rendered) → before "" r ≡ r
unfolding concat
before-empty uncovered = refl
before-empty (text u) = refl

-- What does not begin with two braces does not begin with the action.
no_action : (s : String) → has_prefix s "{{" ≡ false → has_prefix s action ≡ false
unfolding has_prefix
no_action String.[] h = refl
no_action (String.◌∷◌ c String.[]) h = ground arith
no_action (String.◌∷◌ c (String.◌∷◌ d s)) h = ground arith

-- Where no action begins, the character is written as it is.
render-char :
    (shard : String) (c : Char) (s : String)
    → (code c == b'<') ≡ false
    → has_prefix (String.◌∷◌ c s) "{{" ≡ false
    → render shard zero (String.◌∷◌ c s) ≡ before (String.◌∷◌ c String.[]) (render shard zero s)
unfolding render
render-char shard c s l h = rw (render, no_action (String.◌∷◌ c s) h, l, h) refl

brace_last :
    (c : Char) (s : String) → not (code c == b'{') ≡ true → has_prefix (String.◌∷◌ c s) "{{" ≡ false
unfolding has_prefix
brace_last c s h = ground arith

brace_first :
    (c d : Char) (s : String)
    → not (code c == b'{' && code d == b'{') ≡ true
    → has_prefix (String.◌∷◌ c (String.◌∷◌ d s)) "{{" ≡ false
unfolding has_prefix
brace_first c d s h = ground arith

-- A character that begins no action stands before what the rest of its piece gives.
render-text_char :
    (shard : String) (c : Char) (p rest : String)
    → (code c == b'<') ≡ false
    → has_prefix (String.◌∷◌ c (concat p rest)) "{{" ≡ false
    → render shard zero (concat p rest) ≡ before p (render shard zero rest)
    → render shard zero (concat (String.◌∷◌ c p) rest)
      ≡ before (String.◌∷◌ c p) (render shard zero rest)
unfolding concat
render-text_char shard c p rest l h e =
    render-char shard c (concat p rest) l h
    ∙ ap (before (String.◌∷◌ c String.[])) e
    ∙ sym (before-concat (String.◌∷◌ c String.[]) p (render shard zero rest))

render-text :
    (shard p rest : String)
    → is_text p ≡ true
    → render shard zero (concat p rest) ≡ before p (render shard zero rest)
unfolding is_text concat
render-text shard String.[] rest h = sym (before-empty (render shard zero rest))
render-text shard (String.◌∷◌ c String.[]) rest h =
    render-text_char shard c "" rest (ground arith) (brace_last c rest (ground arith))
      (sym (before-empty (render shard zero rest)))
render-text shard (String.◌∷◌ c (String.◌∷◌ d p)) rest h =
    render-text_char shard c (String.◌∷◌ d p) rest (ground arith)
      (brace_first c d (concat p rest) (ground arith))
      (render-text shard (String.◌∷◌ d p) rest (ground arith))

render-action :
    (shard rest : String)
    → render shard zero (concat action rest) ≡ before (escape shard) (render shard zero rest)
unfolding render concat has_prefix
render-action shard rest = refl

render-nil : (shard : String) → render shard zero "" ≡ text ""
unfolding render
render-nil shard = refl

render-join :
    (shard : String) (pieces : List String)
    → All (λ (p : String). is_text p ≡ true) pieces
    → render shard zero (join action pieces) ≡ text (join (escape shard) pieces)
unfolding join
render-join shard [] h = render-nil shard
render-join shard (p ∷ []) h =
    sym (ap (render shard zero) (concat-empty p))
    ∙ render-text shard p "" h.0
    ∙ ap (before p) (render-nil shard)
    ∙ ap (λ (v : String). text v) (concat-empty p)
render-join shard (p ∷ q ∷ ps) h =
    render-text shard p (concat action (join action (q ∷ ps))) h.0
    ∙ ap (before p) (
        render-action shard (join action (q ∷ ps))
        ∙ ap (before (escape shard)) (render-join shard (q ∷ ps) h.1))

-- A template without other actions is instantiated as its pieces between the actions with the escaped
-- shard key between them: for pieces without `<` in which no two opening braces stand together and none is last,
-- instantiateTemplate of the pieces joined by {{.SHARD}} gives the pieces joined by the escaped key.
pub instantiate_template-join :
    (pieces : List String) (shard : String)
    → All (λ (p : String). is_text p ≡ true) pieces
    → instantiate_template (join action pieces) shard ≡ text (join (escape shard) pieces)
unfolding instantiate_template
instantiate_template-join pieces shard h = render-join shard pieces h
