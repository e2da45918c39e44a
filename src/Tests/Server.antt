-- ===== src/Tests/Server.antt =====
-- A small API server, whose state is the list of the names of what is there; a document is its own name.
use shard_controller.Prelude.{
  ◌≡◌, ◌≢◌, true, false, String, Option, none, some, List, [], ◌∷◌, arith, nat_eq, string_eq, ◌==◌,
  if◌then◌else◌,
}
use mathlib.Core.List.Perm
use shard_controller.Errors.{not_found, failure, Error, ok, err}
use shard_controller.Documents.{Documents, Order}
use shard_controller.Deploy.{Settings, Api}
use shard_controller.Deploy.Objects.{IsServer}
use shard_controller.Tests.Sets.{list_set}
use shard_controller.Tests.Clusters.{mem, without, mem-without}

abbrev pub Object : Type 0
Object = String × String

abbrev pub docs : Documents Object String
docs = record {
  patcher = record {
    get_unstructured = λ document. ok ("", document);
    run_unstructured = λ ps u. ok (u ∷ []);
    encode = λ u. ok u.1;
  };
  from_unstructured = λ u. err (failure "no deployment");
  encode = λ d. err (failure "no document");
  other_template = λ t s. err (failure "template");
}

-- Maps are read in the order of the writes.
abbrev pub written : Order
written = record { ranged = λ entries. entries; ranged-Perm = λ entries. Perm.refl entries }

-- The state is the list of the names of what is there.
unfoldable pub delete : String → String → List String → Option Error × List String
delete ns n w = if mem w n then (none, without n w) else (some not_found, w)

abbrev pub api : Api Object (List String)
api = record {
  set_namespace = λ ns u. (ns, u.1);
  get_namespace = λ u. u.0;
  get_name = λ u. u.1;
  get_config_map = λ ns n w. err not_found;
  unmarshal = λ t. err (failure "no patch");
  apply = λ u w. (none, u.1 ∷ w);
  new_for_config = none;
  delete = delete;
  range = λ w. written;
}

abbrev pub settings : Settings
settings = record {
  agent_in_mgmt_cluster = false;
  drift_detection_config = "";
  sveltos_agent_config = "";
  sveltos_applier_config = "";
  sveltos_namespace = "projectsveltos";
  shard_components_config_map = "";
}

pub has_applied : (u : Object) (w : List String) → mem (u.1 ∷ w) u.1 ≡ true
unfolding mem
has_applied u w = ground (arith, string_eq.beq_iff u.1 u.1)

pub has_kept : (n m : String) (w : List String) → mem w m ≡ true → mem (n ∷ w) m ≡ true
unfolding mem
has_kept n m w h = ground arith

pub has_other : (n m : String) (w : List String) → n ≢ m → mem w m ≡ false → mem (n ∷ w) m ≡ false
unfolding mem
has_other n m w ne h = ground (arith, string_eq.beq_iff n m)

mem-delete :
    (ns n m : String) (w : List String)
    → mem (delete ns n w).1 m ≡ (if n == m then false else mem w m)
unfolding delete
mem-delete ns n m w = ground (arith, mem-without n m w, string_eq.beq_iff n m)

pub deleted_gone : (ns n : String) (w : List String) → mem (delete ns n w).1 n ≡ false
deleted_gone ns n w = ground (arith, mem-delete ns n n w, string_eq.beq_iff n n)

pub deleted_keeps :
    (ns n m : String) (w : List String) → mem w m ≡ false → mem (delete ns n w).1 m ≡ false
deleted_keeps ns n m w h = ground (arith, mem-delete ns n m w)

pub deleted_other :
    (ns n m : String) (w : List String) → n ≢ m → mem w m ≡ true → mem (delete ns n w).1 m ≡ true
deleted_other ns n m w ne h = ground (arith, mem-delete ns n m w, string_eq.beq_iff n m)

unfoldable pub server : IsServer api
server = record {
  has = λ ns n w. mem w n;
  apply_own = λ u w z. has_applied u w;
  apply_keeps = λ u ns n w h. has_kept u.1 n w h;
  apply_other = λ u ns n w ne h. has_other u.1 n w ne h;
  delete_own = λ ns n w z. deleted_gone ns n w;
  delete_not_found = λ ns n w e z y. deleted_gone ns n w;
  delete_keeps = λ ns n ns' n' w h. deleted_keeps ns n n' w h;
  delete_other = λ ns n ns' n' w ne h. deleted_other ns n n' w ne h;
}
