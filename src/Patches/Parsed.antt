-- ===== src/Patches/Parsed.antt =====
-- What getPatchesFromConfigMap (internal/controller/utils.go) returns.
use shard_controller.Prelude.{
  ◌≡◌, ◌≢◌, refl, String, none, some, List, [], ◌∷◌, arith, string_eq, All₂,
}
use shard_controller.Errors.{Result, ok, err}
use shard_controller.Patches.{
  Patch, default_target, ConfigMap, with_target, parse_patch, parse_entries,
  get_patches_from_config_map,
}

-- What became of one value of the ConfigMap.
pub record IsParsed (unmarshal : String → Result Patch) (entry : String × String) (p : Patch)
    : Type 0 where
  pub read : Patch
  pub unmarshalled : unmarshal entry.1 ≡ ok read
  pub patch : p.patch ≡ read.patch
  pub not_empty : p.patch ≢ ""
  pub target : p.target ≡ some (elim read.target [ none ↦ default_target | some t ↦ t ])

module _ (unmarshal : String → Result Patch) where
  parse_patch-IsParsed :
      (name : String) (entry : String × String) (p : Patch)
      → parse_patch unmarshal name entry ≡ ok p
      → IsParsed unmarshal entry p
  unfolding parse_patch with_target
  parse_patch-IsParsed name (key, value) p h = go (unmarshal value) refl
    where
      go : (r : Result Patch) → unmarshal value ≡ r → IsParsed unmarshal (key, value) p
      go (ok q) e = record {
        read = q;
        unmarshalled = e;
        patch = ground (arith, string_eq.beq_iff q.patch "");
        not_empty = λ z. ground (arith, string_eq.beq_iff q.patch "");
        target = ground (arith, string_eq.beq_iff q.patch "");
      }
      go (err x) e = absurd (ground arith)

  parse_entries-nil :
      (name : String) (ps : List Patch) → parse_entries unmarshal name [] ≡ ok ps → ps ≡ []
  unfolding parse_entries
  parse_entries-nil name ps h = ground arith

  parse_entries-cons :
      (name : String) (entry : String × String) (entries : List (String × String)) (ps : List Patch)
      → parse_entries unmarshal name (entry ∷ entries) ≡ ok ps
      → (q : Patch) × (qs : List Patch) × (parse_patch unmarshal name entry ≡ ok q)
        × (parse_entries unmarshal name entries ≡ ok qs)
        × (ps ≡ q ∷ qs)
  unfolding parse_entries
  parse_entries-cons name entry entries ps h =
      go (parse_patch unmarshal name entry) (parse_entries unmarshal name entries) refl refl
    where
      go :
          (r : Result Patch) (rs : Result (List Patch))
          → parse_patch unmarshal name entry ≡ r
          → parse_entries unmarshal name entries ≡ rs
          → (q : Patch) × (qs : List Patch) × (parse_patch unmarshal name entry ≡ ok q)
            × (parse_entries unmarshal name entries ≡ ok qs)
            × (ps ≡ q ∷ qs)
      go (ok q) (ok qs) e es = (q, qs, e, es, ground arith)
      go (err x) rs e es = absurd (ground arith)
      go (ok q) (err x) e es = absurd (ground arith)

  parse_entries-IsParsed :
      (name : String) (entries : List (String × String)) (ps : List Patch)
      → parse_entries unmarshal name entries ≡ ok ps
      → All₂ (IsParsed unmarshal) entries ps
  parse_entries-IsParsed name [] ps h = rw (parse_entries-nil name ps h) tt
  parse_entries-IsParsed name (entry ∷ entries) ps h =
      let (q, qs, e, es, eq) = parse_entries-cons name entry entries ps h in
      rw eq (parse_patch-IsParsed name entry q e, parse_entries-IsParsed name entries qs es)

  -- If getPatchesFromConfigMap returns patches, there is one for each entry of the ConfigMap, in the
  -- same order: the entry's value unmarshals to it, up to a missing target, which becomes all
  -- Deployments of the group apps, and its text is not empty.
  pub get_patches_from_config_map-IsParsed :
      (config_map : ConfigMap) (ps : List Patch)
      → get_patches_from_config_map unmarshal config_map ≡ ok ps
      → All₂ (IsParsed unmarshal) config_map.entries ps
  unfolding get_patches_from_config_map
  get_patches_from_config_map-IsParsed config_map ps h =
      parse_entries-IsParsed config_map.name config_map.entries ps h
