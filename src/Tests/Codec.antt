-- ===== src/Tests/Codec.antt =====
-- A small text format for deployments, whose texts are read from the end, and the theorems on the texts
-- of deployments and on the names in them, at it.
use Prim.Native.Char.{code}
use shard_controller.Prelude.{
  ◌≡◌, refl, ap, sym, ◌∙◌, ◌++◌, true, String, List, [], ◌∷◌, nat_eq, string_eq, ◌==◌,
  if◌then◌else◌,
}
use mathlib.Core.List.{append-nil}
use shard_controller.Errors.{failure, ok, err}
use shard_controller.Sharding.{classifier, get_template}
use shard_controller.Manifest.{Container, Deployment}
use shard_controller.Documents.{Documents}
use shard_controller.Documents.Reading.{read, ReadsBack}
use shard_controller.Deploy.{Settings, component_template}
use shard_controller.Tests.Server.{written}
use shard_controller.Deploy.Options.{component_edit, component_template-read}

-- What stands in the rest of the text: a string, the arguments behind it, the containers, and the
-- containers behind the mark of the init containers.
record Found : Type 0 where
  text : String
  args : List String
  containers : List (Container (Unit {0}))
  init_containers : List (Container (Unit {0}))

abbrev nothing : Found
nothing = record { text = ""; args = []; containers = []; init_containers = [] }

unfoldable find : String → Found
find String.[] = nothing
find (String.◌∷◌ c String.[]) = nothing
find (String.◌∷◌ c (String.◌∷◌ d s)) =
    let f = find s in
    if code c == b'x'
    then record f { text = String.◌∷◌ d f.text }
    else if code c == b'a'
    then record f { text = ""; args = f.text ∷ f.args }
    else if code c == b'c'
    then record f {
      text = "";
      args = [];
      containers = record { name = f.text; args = f.args; other = tt } ∷ f.containers;
    }
    else if code c == b'i'
    then record f { containers = []; init_containers = f.containers }
    else f

mark : String → String → String
mark String.[] s = s
mark (String.◌∷◌ c m) s = String.◌∷◌ c (mark m s)

-- The texts of the parts, before a text `s`.
put : String → String → String
put String.[] s = s
put (String.◌∷◌ c t) s = mark "x" (String.◌∷◌ c (put t s))

put_args : List String → String → String
put_args [] s = s
put_args (arg ∷ args) s = mark "a " (put arg (put_args args s))

put_container : Container Unit → String → String
put_container c s = mark "c " (put c.name (put_args c.args s))

put_containers : List (Container (Unit {0})) → String → String
put_containers [] s = s
put_containers (c ∷ cs) s = put_container c (put_containers cs s)

-- The end of the text comes first.
found_deployment : Found → Deployment Unit
found_deployment f = record {
  containers = f.containers;
  init_containers = f.init_containers;
  other = tt;
}

abbrev encode : Deployment Unit → String
encode d = mark "{ " (put_containers d.containers (mark "i " (put_containers d.init_containers "")))

abbrev with_text : String → Found → Found
with_text t f = record f { text = t }

find-put : (t s : String) → (find s).text ≡ "" → find (put t s) ≡ with_text t (find s)
unfolding find put mark
find-put String.[] s h = ap (λ t. with_text t (find s)) h
find-put (String.◌∷◌ c t) s h = rw (find-put t s h) refl

abbrev with_args : List String → Found → Found
with_args args f = record f { args = args }

find-put_args :
    (args : List String) (s : String)
    → (find s).text ≡ ""
    → (find s).args ≡ []
    → find (put_args args s) ≡ with_args args (find s)
unfolding find put_args mark
find-put_args [] s h k = ap (λ args. with_args args (find s)) k
find-put_args (arg ∷ args) s h k =
    let rest = find-put_args args s h k in
    rw (find-put arg (put_args args s) (ap Found.text rest ∙ h), rest)
      (ap (λ t. with_text t (with_args (arg ∷ args) (find s))) (sym h))

-- Behind a text that has no argument under way.
abbrev IsClosed : String → Type 0
IsClosed s = ((find s).text ≡ "") × ((find s).args ≡ [])

find-put_containers :
    (cs : List (Container Unit)) (s : String)
    → IsClosed s
    → find (put_containers cs s)
      ≡ record (find s) { text = ""; args = []; containers = cs ++ (find s).containers }
unfolding find put_containers put_container mark
find-put_containers [] s (h, k) =
    ap (λ t. with_text t (find s)) h ∙ ap (λ args. with_text "" (with_args args (find s))) k
find-put_containers (c ∷ cs) s h =
    let rest = find-put_containers cs s h in
    let args =
      find-put_args c.args (put_containers cs s) (ap Found.text rest) (ap Found.args rest) in
    let name =
      find-put c.name (put_args c.args (put_containers cs s))
        (ap Found.text args ∙ ap Found.text rest) in
    rw (name, args, rest) refl

found_deployment-encode : (d : Deployment Unit) → found_deployment (find (encode d)) ≡ d
unfolding find mark found_deployment
found_deployment-encode d =
    let last = find-put_containers d.init_containers "" (refl, refl) in
    let first =
      find-put_containers d.containers (mark "i " (put_containers d.init_containers ""))
        (ap Found.text last, ap Found.args last) in
    rw (first, last, append-nil d.containers, append-nil d.init_containers) refl

abbrev manager : Container Unit
manager = record { name = "manager"; args = "--shard-key={{.SHARD}}" ∷ []; other = tt }

abbrev manifest : Deployment Unit
manifest = record { containers = manager ∷ []; init_containers = []; other = tt }

-- Every text that does not begin as the texts of the encoder do is taken as a manifest.
unfoldable decode : String → Deployment Unit
decode String.[] = manifest
decode (String.◌∷◌ c s) =
    if code c == b'{' then found_deployment (find (String.◌∷◌ c s)) else manifest

abbrev docs : Documents String Unit
docs = record {
  patcher = record {
    get_unstructured = λ document. ok document;
    run_unstructured = λ ps u. ok (u ∷ []);
    encode = λ u. ok u;
  };
  from_unstructured = λ u. ok (decode u);
  encode = λ d. ok (encode d);
  other_template = λ t s. err (failure "template");
}

docs-read : (d : Deployment Unit) (t : String) → docs.encode d ≡ ok t → read docs t ≡ ok d
unfolding read decode mark
docs-read d t h =
    let same : encode d ≡ t = cc in
    rw (sym same) (ap (λ (x : Deployment Unit). ok x) (found_deployment-encode d))

docs-ReadsBack : ReadsBack docs
docs-ReadsBack = record { encodes = λ d. (encode d, refl); reads_back = docs-read }

abbrev settings : Settings
settings = record {
  agent_in_mgmt_cluster = true;
  drift_detection_config = "";
  sveltos_agent_config = "agent-config";
  sveltos_applier_config = "applier-config";
  sveltos_namespace = "projectsveltos";
  shard_components_config_map = "";
}

classifier_manifest : read docs (get_template classifier) ≡ ok manifest
unfolding read decode get_template
classifier_manifest = refl

component_template-read_example :
    (t : String) × (component_template docs settings written classifier ≡ ok t)
    × (read docs t ≡ ok (component_edit settings written classifier manifest))
component_template-read_example =
    component_template-read docs docs-ReadsBack settings written classifier manifest
      classifier_manifest
