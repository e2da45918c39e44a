-- ===== src/Generator.antt =====
-- generator.go: the program that writes the files of pkg/sharding from the manifests. Of text/template the
-- model covers templates whose actions are those two of `deploymentShardTemplate`; around the one with
-- trim markers there is no white space to trim.
pub mod Literal
pub mod Files
use Prim.Native.Char.{Char}
use shard_controller.Prelude.{
  ℕ, zero, suc, String, List, [], ◌∷◌, true, Option, none, some, has_prefix, concat,
}
use shard_controller.Errors.{Error, Result, ok, err}
use shard_controller.Process.{Outcome, returned, panicked}

-- The fields of `Info` that the template uses.
pub record Info : Type 0 where
  pub yaml : String
  pub exported_var : String

abbrev pub deployment_shard_template : String
deployment_shard_template =
    "// Generated by *go generate* - DO NOT EDIT\n/*\nCopyright 2023. projectsveltos.io. All rights reserved.\n\nLicensed under the Apache License, Version 2.0 (the \"License\");\nyou may not use this file except in compliance with the License.\nYou may obtain a copy of the License at\n\n    http://www.apache.org/licenses/LICENSE-2.0\n\nUnless required by applicable law or agreed to in writing, software\ndistributed under the License is distributed on an \"AS IS\" BASIS,\nWITHOUT WARRANTIES OR CONDITIONS OF ANY KIND, either express or implied.\nSee the License for the specific language governing permissions and\nlimitations under the License.\n*/\npackage sharding\n\nvar {{ .ExportedVar }} = []byte({{- printf \"%s\" .YAML -}})\n"

abbrev var_action : String
var_action = "{{ .ExportedVar }}"

abbrev yaml_action : String
yaml_action = "{{- printf \"%s\" .YAML -}}"

abbrev pub before : String → Outcome String → Outcome String
before s panicked = panicked
before s (returned t) = returned (concat s t)

-- `skip` characters of an action that has been written are still to be passed over.
unfoldable pub execute : Info → ℕ → String → Outcome String
execute info skip String.[] = returned String.[]
execute info (suc skip) (String.◌∷◌ c s) = execute info skip s
execute info zero (String.◌∷◌ c s) = elim (has_prefix (String.◌∷◌ c s) var_action) [
  | true ↦ before info.exported_var (execute info 17 s)
  | _ ↦ elim (has_prefix (String.◌∷◌ c s) yaml_action) [
    | true ↦ before info.yaml (execute info 24 s)
    | _ ↦ elim (has_prefix (String.◌∷◌ c s) "{{") [
      | true ↦ panicked
      | _ ↦ before (String.◌∷◌ c String.[]) (execute info zero s)
    ]
  ]
]

-- The file system as generate uses it: `filepath.Abs`, `os.ReadFile`, `os.Create` and the writes.
pub record Disk : Type 0 where
  pub abs : String → Result String
  pub read_file : String → Result String
  pub create : String → Option Error
  -- the writes by `Execute`, under the name of the file
  pub write : String → Option Error

-- What generate writes: the name of the file and its text.
unfoldable pub generate : Disk → String → String → String → Outcome (String × String)
generate disk filename output_filename manifest = elim (disk.abs filename) [
  | err _ ↦ panicked
  | ok file_abs ↦ elim (disk.read_file file_abs) [
    | err _ ↦ panicked
    | ok content ↦ elim (disk.create (concat output_filename ".go")) [
      | some _ ↦ panicked
      | none ↦
          elim (execute (record { yaml = concat "`" (concat content "`"); exported_var = manifest })
            zero deployment_shard_template) [
              | panicked ↦ panicked
              | returned go ↦ elim (disk.write (concat output_filename ".go")) [
                | some _ ↦ panicked
                | none ↦ returned (concat output_filename ".go", go)
              ]
            ]
    ]
  ]
]

pub record Target : Type 0 where
  pub file : String
  pub output : String
  pub manifest : String

-- the calls of main, in order
abbrev pub targets : List Target
targets =
    record {
      file = "../../pkg/sharding/ac.yaml";
      output = "addon-controller";
      manifest = "addonControllerTemplate";
    }
    ∷ record {
      file = "../../pkg/sharding/em.yaml";
      output = "event-manager";
      manifest = "eventManagerTemplate";
    }
    ∷ record {
      file = "../../pkg/sharding/hm.yaml";
      output = "healthcheck-manager";
      manifest = "healthCheckManagerTemplate";
    }
    ∷ record {
      file = "../../pkg/sharding/sc.yaml";
      output = "sveltoscluster-manager";
      manifest = "sveltosClusterManagerTemplate";
    }
    ∷ record {
      file = "../../pkg/sharding/classifier.yaml";
      output = "classifier";
      manifest = "classifierTemplate";
    }
    ∷ []

abbrev pub and_then : {A B : Type 0} → Outcome A → (A → Outcome B) → Outcome B
and_then panicked f = panicked
and_then (returned a) f = f a

unfoldable pub generate_all : Disk → List Target → Outcome (List (String × String))
generate_all disk [] = returned []
generate_all disk (t ∷ rest) =
    let later = generate_all disk rest in
    and_then (generate disk t.file t.output t.manifest)
      λ file. and_then later λ files. returned (file ∷ files)

-- main
unfoldable pub generator_main : Disk → Outcome (List (String × String))
generator_main disk = generate_all disk targets
