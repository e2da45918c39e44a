-- ===== src/Template.antt =====
-- internal/controller/utils.go: instantiateTemplate, with what it uses of html/template. The model
-- covers templates whose only action is {{.SHARD}} and that have no `<`, so that all of them is HTML
-- text: the manifests are such. What html/template makes of others is `uncovered` here, and a parameter
-- of Documents where the templates are used.
pub mod Manifests
pub mod Names
pub mod Pieces
use Prim.Native.Char.{Char, code}
use shard_controller.Prelude.{
  ◌≡◌, refl, ℕ, zero, suc, true, ◌||◌, String, nat_eq, ◌==◌, if◌then◌else◌, has_prefix, concat,
}

pub data Rendered : Type 0 where
  text : String → Rendered
  uncovered : Rendered

abbrev pub action : String
action = "{{.SHARD}}"

-- What html/template writes for a character of a value in HTML text.
unfoldable pub escape_char : Char → String
escape_char c =
    if code c == 0
    then "�"
    else if code c == b'"'
    then "&#34;"
    else if code c == b'&'
    then "&amp;"
    else if code c == 39
    then "&#39;"
    else if code c == b'+'
    then "&#43;"
    else if code c == b'<'
    then "&lt;"
    else if code c == b'>'
    then "&gt;"
    else String.◌∷◌ c String.[]

unfoldable pub escape : String → String
unfolding escape_char
escape String.[] = String.[]
escape (String.◌∷◌ c s) = concat (escape_char c) (escape s)

abbrev pub before : String → Rendered → Rendered
before s (text t) = text (concat s t)
before s uncovered = uncovered

-- `skip` characters of an action that has been written are still to be passed over.
unfoldable pub render : String → ℕ → String → Rendered
unfolding escape
render shard skip String.[] = text String.[]
render shard (suc skip) (String.◌∷◌ c s) = render shard skip s
render shard zero (String.◌∷◌ c s) = elim (has_prefix (String.◌∷◌ c s) action) [
  | true ↦ before (escape shard) (render shard 9 s)
  | _ ↦ elim (code c == b'<' || has_prefix (String.◌∷◌ c s) "{{") [
    | true ↦ uncovered
    | _ ↦ before (String.◌∷◌ c String.[]) (render shard zero s)
  ]
]

-- instantiateTemplate
unfoldable pub instantiate_template : String → String → Rendered
unfolding render
instantiate_template template shard_key = render shard_key zero template

instantiate_example : instantiate_template "name: a-{{.SHARD}}\n" "b+c" ≡ text "name: a-b&#43;c\n"
unfolding instantiate_template has_prefix concat
instantiate_example = refl
