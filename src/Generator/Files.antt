-- ===== src/Generator/Files.antt =====
-- What the program generator.go leaves on the disk.
use shard_controller.Prelude.{◌≡◌, refl, true, String, none, List, [], ◌∷◌, some, All, All₂, concat}
use shard_controller.Errors.{ok}
use shard_controller.Process.{returned}
use shard_controller.Generator.{Disk, Target, targets, generate, generate_all, generator_main}
use shard_controller.Generator.Literal.{is_raw, raw_string, raw_string-execute}

-- The manifest of a target can be read and written as a raw string, and its file created and written.
pub record IsReadable (disk : Disk) (t : Target) : Type 0 where
  pub path : String
  pub content : String
  pub found : disk.abs t.file ≡ ok path
  pub read : disk.read_file path ≡ ok content
  pub created : disk.create (concat t.output ".go") ≡ none
  pub written : disk.write (concat t.output ".go") ≡ none
  pub raw : is_raw content ≡ true

-- A file that was written for a target: its raw string is the manifest.
pub record IsWritten (disk : Disk) (t : Target) (file : String × String) : Type 0 where
  pub path : String
  pub content : String
  pub found : disk.abs t.file ≡ ok path
  pub read : disk.read_file path ≡ ok content
  pub name : file.0 ≡ concat t.output ".go"
  pub text : raw_string file.1 ≡ some content

generate-IsWritten :
    (disk : Disk) (t : Target)
    → is_raw t.manifest ≡ true
    → IsReadable disk t
    → (file : String × String) × (generate disk t.file t.output t.manifest ≡ returned file)
      × IsWritten disk t file
unfolding generate
generate-IsWritten disk t n r =
    let (go, e, k) = raw_string-execute t.manifest r.content n r.raw in
    (
      (concat t.output ".go", go),
      rw (generate, r.found, r.read, r.created, e, r.written) refl,
      record {
        path = r.path;
        content = r.content;
        found = r.found;
        read = r.read;
        name = refl;
        text = k;
      },
    )

generate_all-IsWritten :
    (disk : Disk) (ts : List Target)
    → All (λ t. is_raw t.manifest ≡ true) ts
    → All (IsReadable disk) ts
    → (files : List (String × String)) × (generate_all disk ts ≡ returned files)
      × All₂ (IsWritten disk) ts files
unfolding generate_all
generate_all-IsWritten disk [] n r = ([], refl, tt)
generate_all-IsWritten disk (t ∷ ts) n r =
    let (file, e, w) = generate-IsWritten disk t n.0 r.0 in
    let (files, es, ws) = generate_all-IsWritten disk ts n.1 r.1 in
    (file ∷ files, rw (e, es) refl, (w, ws))

targets-is_raw : All (λ t. is_raw t.manifest ≡ true) targets
unfolding is_raw
targets-is_raw = (refl, (refl, (refl, (refl, (refl, tt)))))

-- If each of the five manifests can be read, has no backquote and no carriage return, and its file can
-- be created and written, then the program does not panic, and writes for each manifest in turn a file of the
-- target's name whose raw string is the manifest.
pub generator_main-IsWritten :
    (disk : Disk)
    → All (IsReadable disk) targets
    → (files : List (String × String)) × (generator_main disk ≡ returned files)
      × All₂ (IsWritten disk) targets files
unfolding generator_main
generator_main-IsWritten disk r = generate_all-IsWritten disk targets targets-is_raw r
