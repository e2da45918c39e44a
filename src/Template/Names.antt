-- ===== src/Template/Names.antt =====
-- The names of the deployments in the manifests of pkg/sharding, under instantiateTemplate
-- (internal/controller/utils.go).
use Prim.Native.Char.{Char, code}
use shard_controller.Prelude.{
  ◌≡◌, refl, ap, sym, ◌∙◌, Bool, true, ◌&&◌, ◌||◌, String, Option, none, some, nat_eq, string_eq,
  ◌==◌, leb, arith, if◌then◌else◌, has_prefix, concat,
}
use shard_controller.Sharding.{
  Component, addon_controller, classifier, sveltoscluster_manager, event_manager,
  healthcheck_manager, get_template,
}
use shard_controller.Template.{text, escape_char, escape, instantiate_template}

-- The letters of a DNS subdomain, which the name of a deployment is.
unfoldable pub is_name_char : Char → Bool
is_name_char c =
    (leb b'a' (code c) && leb (code c) b'z')
    || (leb b'0' (code c) && leb (code c) b'9')
    || code c == b'-'
    || code c == b'.'

unfoldable pub is_name : String → Bool
is_name String.[] = true
is_name (String.◌∷◌ c s) = is_name_char c && is_name s

escape_char-id : (c : Char) → is_name_char c ≡ true → escape_char c ≡ String.◌∷◌ c String.[]
unfolding escape_char is_name_char
escape_char-id c h = ground arith

-- A key of such letters is written as it is.
pub escape-id : (s : String) → is_name s ≡ true → escape s ≡ s
unfolding escape is_name concat
escape-id String.[] h = refl
escape-id (String.◌∷◌ c s) h = rw (escape_char-id c (ground arith), escape-id s (ground arith)) refl

-- What stands before the name of the deployment in its manifest, and how the name begins.
abbrev pub manifest_head : Component → String
manifest_head addon_controller =
    "apiVersion: apps/v1\nkind: Deployment\nmetadata:\n  labels:\n    control-plane: addon-controller\n  name: "
manifest_head classifier =
    "apiVersion: apps/v1\nkind: Deployment\nmetadata:\n  labels:\n    control-plane: classifier\n  name: "
manifest_head sveltoscluster_manager =
    "apiVersion: apps/v1\nkind: Deployment\nmetadata:\n  labels:\n    control-plane: sc-manager\n  name: "
manifest_head event_manager =
    "apiVersion: apps/v1\nkind: Deployment\nmetadata:\n  labels:\n    control-plane: event-manager\n  name: "
manifest_head healthcheck_manager =
    "apiVersion: apps/v1\nkind: Deployment\nmetadata:\n  labels:\n    control-plane: hc-manager\n  name: "

abbrev name_prefix : Component → String
name_prefix addon_controller = "addon-controller-"
name_prefix classifier = "classifier-manager-"
name_prefix sveltoscluster_manager = "sc-manager-"
name_prefix event_manager = "event-manager-"
name_prefix healthcheck_manager = "hc-manager-"

-- The name of a component's deployment for a shard.
unfoldable pub deployment_name : Component → String → String
unfolding concat
deployment_name c s = concat (name_prefix c) s

instantiate_template-escaped :
    (c : Component) (s : String)
    → (rest : String) × (instantiate_template (get_template c) s
        ≡ text
            (concat (manifest_head c) (concat (deployment_name c (escape s)) (concat "\n" rest))))
unfolding instantiate_template get_template deployment_name has_prefix concat
instantiate_template-escaped addon_controller s = (_, refl)
instantiate_template-escaped classifier s = (_, refl)
instantiate_template-escaped sveltoscluster_manager s = (_, refl)
instantiate_template-escaped event_manager s = (_, refl)
instantiate_template-escaped healthcheck_manager s = (_, refl)

-- For a key of letters that a name can have, every manifest renders to a document in which the name in
-- the metadata of the deployment is the component's prefix with the key, and stands alone on its line.
pub instantiate_template-deployment_name :
    (c : Component) (s : String)
    → is_name s ≡ true
    → (rest : String) × (instantiate_template (get_template c) s
        ≡ text (concat (manifest_head c) (concat (deployment_name c s) (concat "\n" rest))))
instantiate_template-deployment_name c s h =
    let (rest, e) = instantiate_template-escaped c s in (rest, rw (escape-id s h) at e)

-- The component and the key can be read off a name.
component_of : String → Option Component
component_of String.[] = none
component_of (String.◌∷◌ c s) =
    if code c == b'a'
    then some addon_controller
    else if code c == b'c'
    then some classifier
    else if code c == b's'
    then some sveltoscluster_manager
    else if code c == b'e'
    then some event_manager
    else some healthcheck_manager

component_of-deployment_name :
    (c : Component) (s : String) → component_of (deployment_name c s) ≡ some c
unfolding component_of deployment_name
component_of-deployment_name addon_controller s = refl
component_of-deployment_name classifier s = refl
component_of-deployment_name sveltoscluster_manager s = refl
component_of-deployment_name event_manager s = refl
component_of-deployment_name healthcheck_manager s = refl

drop_prefix : String → String → String
drop_prefix String.[] s = s
drop_prefix (String.◌∷◌ c p) String.[] = String.[]
drop_prefix (String.◌∷◌ c p) (String.◌∷◌ d s) = drop_prefix p s

drop_prefix-concat : (p s : String) → drop_prefix p (concat p s) ≡ s
unfolding drop_prefix concat
drop_prefix-concat String.[] s = refl
drop_prefix-concat (String.◌∷◌ c p) s = drop_prefix-concat p s

-- No two deployments share a name: it gives the component and the key of the shard.
pub deployment_name_injective :
    (c d : Component) (s t : String) → deployment_name c s ≡ deployment_name d t → (c ≡ d) × (s ≡ t)
unfolding deployment_name
deployment_name_injective c d s t e =
    let p : some c ≡ some d =
      sym (component_of-deployment_name c s)
      ∙ ap component_of e
      ∙ component_of-deployment_name d t in
    let q : c ≡ d = cc in
    (
      q,
      sym (drop_prefix-concat (name_prefix c) s)
          ∙ ap (drop_prefix (name_prefix c)) e
          ∙ ap (λ (k : Component). drop_prefix (name_prefix k) (concat (name_prefix d) t)) q
          ∙ drop_prefix-concat (name_prefix d) t,
    )
