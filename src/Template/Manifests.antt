-- ===== src/Template/Manifests.antt =====
-- The manifests of pkg/sharding under instantiateTemplate (internal/controller/utils.go).
use Prim.Native.Char.{Char}
use shard_controller.Prelude.{
  ◌≡◌, refl, sym, ap, ◌∙◌, zero, suc, ℕ, Bool, true, ◌&&◌, String, List, [], ◌∷◌, All, arith,
  has_prefix, concat,
}
use shard_controller.Sharding.{
  Component, addon_controller, classifier, sveltoscluster_manager, event_manager,
  healthcheck_manager, get_template,
}
use shard_controller.Template.{text, action, escape, instantiate_template}
use shard_controller.Template.Pieces.{is_text, join, instantiate_template-join}

-- A character before the first of the pieces.
unfoldable pub push : Char → List String → List String
push c [] = String.◌∷◌ c String.[] ∷ []
push c (p ∷ ps) = String.◌∷◌ c p ∷ ps

-- The pieces of a text between its actions; `skip` characters of an action are still to be passed over.
unfoldable pub split : ℕ → String → List String
unfolding push
split skip String.[] = "" ∷ []
split (suc skip) (String.◌∷◌ c s) = split skip s
split zero (String.◌∷◌ c s) = elim (has_prefix (String.◌∷◌ c s) action) [
  | true ↦ "" ∷ split 9 s
  | _ ↦ push c (split zero s)
]

unfoldable pub all_text : List String → Bool
unfolding is_text
all_text [] = true
all_text (p ∷ ps) = is_text p && all_text ps

all_text-All : (ps : List String) → all_text ps ≡ true → All (λ (p : String). is_text p ≡ true) ps
unfolding all_text
all_text-All [] h = tt
all_text-All (p ∷ ps) h = (ground arith, all_text-All ps (ground arith))

abbrev pub manifest_pieces : Component → List String
manifest_pieces c = split zero (get_template c)

join-manifest_pieces : (c : Component) → join action (manifest_pieces c) ≡ get_template c
unfolding join split get_template has_prefix push concat
join-manifest_pieces addon_controller = refl
join-manifest_pieces classifier = refl
join-manifest_pieces sveltoscluster_manager = refl
join-manifest_pieces event_manager = refl
join-manifest_pieces healthcheck_manager = refl

all_text-manifest_pieces : (c : Component) → all_text (manifest_pieces c) ≡ true
unfolding split get_template has_prefix push all_text is_text
all_text-manifest_pieces addon_controller = refl
all_text-manifest_pieces classifier = refl
all_text-manifest_pieces sveltoscluster_manager = refl
all_text-manifest_pieces event_manager = refl
all_text-manifest_pieces healthcheck_manager = refl

-- Every manifest is instantiated as itself with each {{.SHARD}} replaced by the escaped shard key and
-- nothing else changed, for every shard key: neither `template.Must` nor Execute fails.
pub instantiate_template-get_template :
    (c : Component) (shard : String)
    → (join action (manifest_pieces c) ≡ get_template c)
      × (instantiate_template (get_template c) shard
          ≡ text (join (escape shard) (manifest_pieces c)))
instantiate_template-get_template c shard = (
  join-manifest_pieces c,
  ap (λ (t : String). instantiate_template t shard) (sym (join-manifest_pieces c))
      ∙ instantiate_template-join (manifest_pieces c) shard
          (all_text-All (manifest_pieces c) (all_text-manifest_pieces c)),
)
