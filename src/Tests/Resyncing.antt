-- ===== src/Tests/Resyncing.antt =====
-- The theorems on requests in turn, at an API server with four requests in the workqueues.
use shard_controller.Prelude.{
  any, String, ◌≡◌, ◌≢◌, refl, Option, none, List, [], ◌∷◌, arith, string_eq, ◌==◌, if◌then◌else◌,
  concat, All, lookup, insert, delete, inl, not, nat_eq, ℕ,
}
use shard_controller.Errors.{is_not_found, Error, not_found, Result, ok, err}
use shard_controller.Reference.{ObjectReference}
use shard_controller.Process.{
  GoType, Gvk, Object, cluster, sveltos_cluster, Outcome, returned, panicked, empty_object,
  first_kind, make_reference, process_cluster, process_found, process_missing, add_type_information,
  get_object_reference, current_shard, reconcile_cluster, reconcile_sveltos_cluster,
}
use shard_controller.Process.Requests.{HasKind, annotated_shard}
use shard_controller.Process.Resync.{Item, reconcile_all, reconcile_item, IsAllowedShard, desired}
use shard_controller.Process.Answers.{Answers, reference_of, wanted, wants}
use shard_controller.Process.Settled.{IsAnswer, reconcile_all-settled}
use shard_controller.Process.Convergence.{IsCovered, reconcile_all-wanted, reconcile_all-size}
use shard_controller.Tracker.{
  State, init_maps, track_cluster, stop_tracking_cluster, is_last, is_idle, erase_from, add_to,
  forget, leave_shard, join_shard, drop_member,
}
use shard_controller.Tracker.Views.{shard_of, size}
use shard_controller.Tracker.Healthy.{IsInStep, Healthy-IsInStep, started}
use shard_controller.Tests.Sets.{list_set}
use shard_controller.Tests.Clusters.{Fleet, fleet, IsEasy, fleet-IsAvailable}
use shard_controller.Tests.Processing.{capi, sveltos, scheme, names, cluster-HasKind}

-- One cluster is gone, the others are in the shard blue.
unfoldable pub answer : Item → Result Object
answer (t, req) =
    if req.name == "gone"
    then err not_found
    else ok (record {
      go_type = t;
      namespace = req.namespace;
      name = req.name;
      gvk = record { group = ""; version = ""; kind = "" };
      annotations = ("shard", "blue") ∷ [];
      deletion_timestamp = none;
    })

abbrev pub kind : GoType → Gvk
kind cluster = capi
kind sveltos_cluster = sveltos

pub has_kind : (t : GoType) → HasKind scheme names t (kind t)
unfolding first_kind
has_kind cluster = cluster-HasKind
has_kind sveltos_cluster = record { gvks = sveltos ∷ []; known = refl; usable = refl }

pub answer-names :
    (i : Item) (obj : Object)
    → answer i ≡ ok obj
    → (obj.namespace ≡ i.1.namespace) × (obj.name ≡ i.1.name)
unfolding answer
answer-names (t, req) obj h = ground arith

pub kinds_apart : ◌≢◌ {A = String} "Cluster" "SveltosCluster"
kinds_apart e = ground (arith, string_eq.beq_iff "Cluster" "SveltosCluster")

abbrev pub answers : {W : Type 0} → Answers W scheme names
answers = record {
  get = λ t req w. answer (t, req);
  answer = answer;
  steady = λ t req w. refl;
  faithful = λ t req w obj h. answer-names (t, req) obj h;
  kind = kind;
  has_kind = has_kind;
  kinds_apart = kinds_apart;
}

abbrev pub items : List Item
items =
    (cluster, record { namespace = "default"; name = "alpha" })
    ∷ (sveltos_cluster, record { namespace = "default"; name = "alpha" })
    ∷ (cluster, record { namespace = "default"; name = "gone" })
    ∷ (cluster, record { namespace = "default"; name = "alpha" })
    ∷ []

abbrev fleet_answers : Answers Fleet scheme names
fleet_answers = answers

abbrev fresh : State (List ObjectReference) Fleet
fresh = record { maps = init_maps; world = record { up = []; stubborn = [] } }

fresh-IsInStep : IsInStep fleet fresh
unfolding fleet
fresh-IsInStep = Healthy-IsInStep fleet (started fresh.world (λ t key. refl))

fresh-IsCovered : IsCovered fleet scheme names fleet_answers items fresh
unfolding shard_of init_maps lookup
fresh-IsCovered d p = absurd (p refl)

-- The state that a run leaves.
abbrev pub state_of : {A : Type 0} → A → Outcome (Option Error × A) → A
state_of st (returned (e, st')) = st'
state_of st panicked = st

abbrev synced : State (List ObjectReference) Fleet
synced = state_of fresh (reconcile_all fleet scheme names fleet_answers.get items fresh)

items-reconciled :
    reconcile_all fleet scheme names fleet_answers.get items fresh ≡ returned (none, synced)
unfolding reconcile_all reconcile_item reconcile_cluster reconcile_sveltos_cluster process_cluster
    process_found process_missing add_type_information get_object_reference make_reference
    first_kind current_shard empty_object answer track_cluster leave_shard join_shard
    stop_tracking_cluster drop_member is_idle is_last erase_from add_to forget init_maps lookup
    insert delete list_set fleet concat is_not_found
items-reconciled = refl

reconcile_all-wanted_example :
    All
      (λ i.
        shard_of (reference_of scheme names fleet_answers i) synced.maps
        ≡ wanted scheme names fleet_answers i)
      items
reconcile_all-wanted_example =
    reconcile_all-wanted fleet scheme names fleet_answers items fresh synced items-reconciled

items-IsAllowed : All (λ i. IsAllowedShard fleet (wanted scheme names fleet_answers i)) items
unfolding answer desired annotated_shard lookup fleet
items-IsAllowed = (inl refl, (inl refl, (tt, (inl refl, tt))))

reconcile_all-size_example :
    IsInStep fleet synced
    × ((s : String)
        → not (◌==◌ {A = ℕ} (size s synced.maps) 0)
          ≡ any (wants scheme names fleet_answers s) items)
reconcile_all-size_example =
    reconcile_all-size fleet scheme names fleet_answers items fresh synced fresh-IsInStep
      fresh-IsCovered items-IsAllowed items-reconciled

items-IsAnswer : All (λ i. IsAnswer (fleet_answers.answer i)) items
unfolding answer is_not_found
items-IsAnswer = (tt, (tt, (refl, (tt, tt))))

reconcile_all-settled_example :
    (st : State (List ObjectReference) Fleet) × (reconcile_all fleet scheme names fleet_answers.get
        items fresh
      ≡ returned (none, st))
    × IsInStep fleet st
    × ((s : String)
        → not (◌==◌ {A = ℕ} (size s st.maps) 0) ≡ any (wants scheme names fleet_answers s) items)
reconcile_all-settled_example =
    reconcile_all-settled fleet IsEasy fleet-IsAvailable scheme names fleet_answers items fresh
      items-IsAnswer items-IsAllowed fresh-IsInStep fresh-IsCovered refl
