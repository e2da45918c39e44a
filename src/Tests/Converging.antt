-- ===== src/Tests/Converging.antt =====
-- The theorem on requests in turn down to the deployments, at a small API server.
use shard_controller.Prelude.{
  any, ◌≡◌, refl, none, List, [], inl, String, All, lookup, insert, delete, concat,
}
use shard_controller.Errors.{is_not_found}
use shard_controller.Reference.{ObjectReference}
use shard_controller.Sharding.{classifier}
use shard_controller.Deploy.Whole.{controllers}
use shard_controller.Deploy.Reachable.{reconcile_all-controllers}
use shard_controller.Process.{
  returned, empty_object, first_kind, make_reference, process_cluster, process_found,
  process_missing, add_type_information, get_object_reference, current_shard, reconcile_cluster,
  reconcile_sveltos_cluster,
}
use shard_controller.Process.Requests.{annotated_shard}
use shard_controller.Process.Resync.{reconcile_all, reconcile_item, IsAllowedShard, desired}
use shard_controller.Process.Answers.{Answers, wanted, wants}
use shard_controller.Process.Convergence.{IsCovered}
use shard_controller.Tracker.{
  State, init_maps, track_cluster, stop_tracking_cluster, is_last, is_idle, erase_from, add_to,
  forget, leave_shard, join_shard, drop_member,
}
use shard_controller.Tracker.Views.{shard_of}
use shard_controller.Tracker.Healthy.{IsInStep, Healthy-IsInStep, started}
use shard_controller.Tests.Sets.{list_set}
use shard_controller.Tests.Processing.{scheme, names}
use shard_controller.Tests.Resyncing.{answer, answers, items, state_of}
use shard_controller.Tests.Server.{docs, api, settings, server}
use shard_controller.Tests.Deploying.{ctl, naming, name_of, fresh, nothing_there, blue_deployed}

abbrev text_answers : Answers (List String) scheme names
text_answers = answers

fresh-IsInStep : IsInStep ctl fresh
unfolding controllers
fresh-IsInStep = Healthy-IsInStep ctl (started [] nothing_there)

fresh-IsCovered : IsCovered ctl scheme names text_answers items fresh
unfolding shard_of init_maps lookup
fresh-IsCovered d p = absurd (p refl)

items-IsAllowed : All (λ i. IsAllowedShard ctl (wanted scheme names text_answers i)) items
unfolding answer desired annotated_shard lookup controllers
items-IsAllowed = (inl (inl refl), (inl (inl refl), (tt, (inl (inl refl), tt))))

abbrev synced : State (List ObjectReference) (List String)
synced = state_of fresh (reconcile_all ctl scheme names text_answers.get items fresh)

items-reconciled :
    reconcile_all ctl scheme names text_answers.get items fresh ≡ returned (none, synced)
unfolding reconcile_all reconcile_item reconcile_cluster reconcile_sveltos_cluster process_cluster
    process_found process_missing add_type_information get_object_reference make_reference
    first_kind current_shard empty_object answer track_cluster leave_shard join_shard
    stop_tracking_cluster drop_member is_idle is_last erase_from add_to forget init_maps lookup
    insert delete list_set concat is_not_found controllers
items-reconciled = rw blue_deployed

reconcile_all-controllers_example :
    server.has "projectsveltos" (name_of classifier "blue") synced.world
    ≡ any (wants scheme names text_answers "blue") items
reconcile_all-controllers_example =
    reconcile_all-controllers docs api settings naming server scheme names text_answers items fresh
      synced fresh-IsInStep fresh-IsCovered items-IsAllowed items-reconciled "blue" (inl refl)
      classifier
