-- ===== src/Generator/Literal.antt =====
-- The raw string in a file that generator.go writes, as the Go compiler reads it.
use Prim.Native.Char.{code}
use shard_controller.Prelude.{
  ◌≡◌, refl, ap, zero, Bool, true, ◌&&◌, not, String, Option, none, some, nat_eq, ◌==◌,
  if◌then◌else◌, arith, has_prefix, concat, concat_assoc, concat-empty, ◌∙◌,
}
use shard_controller.Sharding.{
  Component, addon_controller, classifier, sveltoscluster_manager, event_manager,
  healthcheck_manager, get_template,
}
use shard_controller.Process.{returned}
use shard_controller.Generator.{Info, deployment_shard_template, execute}

-- What follows the first backquote.
unfoldable pub after_quote : String → Option String
after_quote String.[] = none
after_quote (String.◌∷◌ c s) = let rest = after_quote s in if code c == b'`' then some s else rest

-- A raw string up to its closing backquote; a carriage return in it is dropped.
unfoldable pub until_quote : String → Option String
until_quote String.[] = none
until_quote (String.◌∷◌ c s) =
    let rest = until_quote s in
    if code c == b'`'
    then some String.[]
    else elim rest [ none ↦ none | some t ↦ if code c == 13 then some t else some (String.◌∷◌ c t) ]

-- The first raw string of a Go file in which no backquote stands before it.
unfoldable pub raw_string : String → Option String
raw_string s = elim (after_quote s) [ none ↦ none | some t ↦ until_quote t ]

-- Text that a raw string can hold: without backquotes and carriage returns.
unfoldable pub is_raw : String → Bool
is_raw String.[] = true
is_raw (String.◌∷◌ c s) = not (code c == b'`') && not (code c == 13) && is_raw s

get_template-is_raw : (c : Component) → is_raw (get_template c) ≡ true
unfolding get_template is_raw
get_template-is_raw addon_controller = refl
get_template-is_raw classifier = refl
get_template-is_raw sveltoscluster_manager = refl
get_template-is_raw event_manager = refl
get_template-is_raw healthcheck_manager = refl

after_quote-concat : (s t : String) → is_raw s ≡ true → after_quote (concat s t) ≡ after_quote t
unfolding after_quote is_raw concat
after_quote-concat String.[] t h = refl
after_quote-concat (String.◌∷◌ c s) t h = ground (arith, after_quote-concat s t)

until_quote-concat :
    (s t u : String)
    → is_raw s ≡ true
    → until_quote t ≡ some u
    → until_quote (concat s t) ≡ some (concat s u)
unfolding until_quote is_raw concat
until_quote-concat String.[] t u h e = e
until_quote-concat (String.◌∷◌ c s) t u h e = ground (arith, until_quote-concat s t u)

-- The text of a generated file up to the name of the variable.
abbrev opening : String
opening =
    "// Generated by *go generate* - DO NOT EDIT\n/*\nCopyright 2023. projectsveltos.io. All rights reserved.\n\nLicensed under the Apache License, Version 2.0 (the \"License\");\nyou may not use this file except in compliance with the License.\nYou may obtain a copy of the License at\n\n    http://www.apache.org/licenses/LICENSE-2.0\n\nUnless required by applicable law or agreed to in writing, software\ndistributed under the License is distributed on an \"AS IS\" BASIS,\nWITHOUT WARRANTIES OR CONDITIONS OF ANY KIND, either express or implied.\nSee the License for the specific language governing permissions and\nlimitations under the License.\n*/\npackage sharding\n\nvar "

abbrev go_file : Info → String
go_file info =
    concat opening (concat info.exported_var (concat " = []byte(" (concat info.yaml ")\n")))

execute-go_file :
    (info : Info) → execute info zero deployment_shard_template ≡ returned (go_file info)
unfolding execute has_prefix concat
execute-go_file info = refl

abbrev pub quoted : String → String
quoted content = concat "`" (concat content "`")

until_quote-quoted :
    (content rest : String)
    → is_raw content ≡ true
    → until_quote (concat (concat content "`") rest) ≡ some content
unfolding until_quote concat
until_quote-quoted content rest h = rw (concat_assoc content "`" rest) (
    until_quote-concat content (concat "`" rest) "" h refl
    ∙ ap (λ (t : String). some t) (concat-empty content))

after_quote-go_file :
    (name content : String)
    → is_raw name ≡ true
    → after_quote (go_file (record { yaml = quoted content; exported_var = name }))
      ≡ some (concat (concat content "`") ")\n")
unfolding after_quote is_raw concat
after_quote-go_file name content n =
    after_quote-concat opening (concat name (concat " = []byte(" (concat (quoted content) ")\n")))
      refl
    ∙ after_quote-concat name (concat " = []byte(" (concat (quoted content) ")\n")) n
    ∙ after_quote-concat " = []byte(" (concat (quoted content) ")\n") refl

raw_string-after_quote : (s t : String) → after_quote s ≡ some t → raw_string s ≡ until_quote t
unfolding raw_string
raw_string-after_quote s t h = rw (raw_string, h) refl

-- generator.go writes a text between backquotes into its template. If neither the text nor the name of
-- the variable has a backquote or a carriage return, the raw string of the Go file is that text.
pub raw_string-execute :
    (name content : String)
    → is_raw name ≡ true
    → is_raw content ≡ true
    → (go : String) × (execute
          (record { yaml = quoted content; exported_var = name })
          zero
          deployment_shard_template
        ≡ returned go)
      × (raw_string go ≡ some content)
raw_string-execute name content n h = (
  go_file (record { yaml = quoted content; exported_var = name }),
  execute-go_file (record { yaml = quoted content; exported_var = name }),
  raw_string-after_quote (go_file (record { yaml = quoted content; exported_var = name })) _
        (after_quote-go_file name content n)
      ∙ until_quote-quoted content ")\n" h,
)

-- The manifests of pkg/sharding can be written so: each is the raw string of the Go file that
-- generator.go makes of it, under any name without backquote and carriage return.
pub raw_string-get_template :
    (c : Component) (name : String)
    → is_raw name ≡ true
    → (go : String) × (execute
          (record { yaml = quoted (get_template c); exported_var = name })
          zero
          deployment_shard_template
        ≡ returned go)
      × (raw_string go ≡ some (get_template c))
raw_string-get_template c name n =
    raw_string-execute name (get_template c) n (get_template-is_raw c)
