-- ===== src/Tests/Naming.antt =====
-- The theorems on the names of the deployments, at an API server that finds the name of an object on the
-- sixth line of its document.
use Prim.Native.Char.{code}
use shard_controller.Prelude.{
  ◌≡◌, refl, ap, sym, ◌∙◌, true, String, List, ℕ, zero, suc, arith, nat_eq, ◌==◌, if◌then◌else◌,
  has_prefix, concat,
}
use shard_controller.Errors.{ok}
use shard_controller.Sharding.{
  Component, addon_controller, classifier, sveltoscluster_manager, event_manager,
  healthcheck_manager, get_template,
}
use shard_controller.Template.{instantiate_template}
use shard_controller.Template.Names.{is_name, is_name_char, manifest_head, deployment_name}
use shard_controller.Documents.{render_document}
use shard_controller.Deploy.{Api, removed_object}
use shard_controller.Deploy.Names.{ReadsNames, removed_object-deployment_name}
use shard_controller.Tests.Server.{Object, docs, api, settings}
use shard_controller.Tests.Deploying.{name_of}

unfoldable skip_lines : ℕ → String → String
skip_lines zero s = s
skip_lines (suc n) String.[] = String.[]
skip_lines (suc n) (String.◌∷◌ c s) =
    if code c == b'\n' then skip_lines n s else skip_lines (suc n) s

unfoldable drop_chars : ℕ → String → String
drop_chars zero s = s
drop_chars (suc n) String.[] = String.[]
drop_chars (suc n) (String.◌∷◌ c s) = drop_chars n s

unfoldable first_line : String → String
first_line String.[] = String.[]
first_line (String.◌∷◌ c s) =
    let rest = first_line s in if code c == b'\n' then String.[] else String.◌∷◌ c rest

abbrev named : Api Object (List String)
named = record api { get_name = λ u. first_line (drop_chars 8 (skip_lines 5 u.1)) }

first_line-name :
    (s rest : String) → is_name s ≡ true → first_line (concat s (concat "\n" rest)) ≡ s
unfolding first_line concat is_name is_name_char
first_line-name String.[] rest h = refl
first_line-name (String.◌∷◌ c s) rest h =
    let k = first_line-name s rest (ground arith) in ground arith

named-deployment_name :
    (c : Component) (s rest : String)
    → is_name s ≡ true
    → first_line (
        drop_chars 8 (
          skip_lines 5
            (concat (manifest_head c) (concat (deployment_name c s) (concat "\n" rest)))))
      ≡ deployment_name c s
unfolding skip_lines drop_chars first_line concat deployment_name
named-deployment_name addon_controller s rest h = rw (first_line-name s rest h) refl
named-deployment_name classifier s rest h = rw (first_line-name s rest h) refl
named-deployment_name sveltoscluster_manager s rest h = rw (first_line-name s rest h) refl
named-deployment_name event_manager s rest h = rw (first_line-name s rest h) refl
named-deployment_name healthcheck_manager s rest h = rw (first_line-name s rest h) refl

read_name :
    (c : Component) (s rest : String) (u : Object)
    → is_name s ≡ true
    → docs.patcher.get_unstructured
        (concat (manifest_head c) (concat (deployment_name c s) (concat "\n" rest)))
      ≡ ok u
    → named.get_name u ≡ deployment_name c s
read_name c s rest u h e =
    let object : ("", concat (manifest_head c) (concat (deployment_name c s) (concat "\n" rest)))
        ≡ u =
      cc in
    sym (ap (λ (v : Object). named.get_name v) object) ∙ named-deployment_name c s rest h

named-ReadsNames : ReadsNames docs named
named-ReadsNames = record {
  reads_name = read_name;
  get_name-set_namespace = λ ns u. refl;
  get_namespace-set_namespace = λ ns u. refl;
}

blue : is_name "blue" ≡ true
unfolding is_name is_name_char
blue = refl

removed_blue :
    removed_object docs named settings (get_template classifier) "blue"
    ≡ ok ("projectsveltos", name_of classifier "blue")
unfolding removed_object render_document name_of instantiate_template get_template has_prefix concat
removed_blue = refl

removed_object-deployment_name_example :
    (◌≡◌ {A = String} "projectsveltos" "projectsveltos")
    × (named.get_name ("projectsveltos", name_of classifier "blue")
        ≡ deployment_name classifier "blue")
removed_object-deployment_name_example =
    removed_object-deployment_name docs named settings named-ReadsNames classifier "blue"
      ("projectsveltos", name_of classifier "blue") blue removed_blue
