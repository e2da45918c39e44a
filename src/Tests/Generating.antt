-- ===== src/Tests/Generating.antt =====
-- The theorems on generator.go on a disk with the manifests.
use shard_controller.Prelude.{◌≡◌, refl, true, String, none, List, All₂}
use shard_controller.Errors.{ok}
use shard_controller.Process.{returned}
use shard_controller.Generator.{Disk, Target, targets, generator_main}
use shard_controller.Generator.Literal.{is_raw}
use shard_controller.Generator.Files.{IsReadable, IsWritten, generator_main-IsWritten}

plain : is_raw "kind: Deployment" ≡ true
unfolding is_raw
plain = refl

-- Every file is the same short manifest.
abbrev disk : Disk
disk = record {
  abs = λ f. ok f;
  read_file = λ f. ok "kind: Deployment";
  create = λ f. none;
  write = λ f. none;
}

disk-IsReadable : (t : Target) → IsReadable disk t
disk-IsReadable t = record {
  path = t.file;
  content = "kind: Deployment";
  found = refl;
  read = refl;
  created = refl;
  written = refl;
  raw = plain;
}

generator_main-IsWritten_example :
    (files : List (String × String)) × (generator_main disk ≡ returned files)
    × All₂ (IsWritten disk) targets files
generator_main-IsWritten_example = generator_main-IsWritten disk (
  disk-IsReadable _,
  (disk-IsReadable _, (disk-IsReadable _, (disk-IsReadable _, (disk-IsReadable _, tt)))),
)
