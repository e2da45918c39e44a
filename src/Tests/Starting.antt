-- ===== src/Tests/Starting.antt =====
-- The theorem on the watcher for Cluster API at 21 failures and a CRD with two versions.
use shard_controller.Prelude.{ℕ, zero, suc, true, List, [], ◌∷◌}
use shard_controller.Errors.{Error, failure}
use shard_controller.Startup.{CrdVersion, GroupVersion}

abbrev timeouts : ℕ → List Error
timeouts zero = []
timeouts (suc n) = failure "timeout" ∷ timeouts n

abbrev group_version : GroupVersion
group_version = record { group = "cluster.x-k8s.io"; version = "v1beta2" }

abbrev versions : List CrdVersion
versions =
    record { name = "v1beta1"; served = true } ∷ record { name = "v1beta2"; served = true } ∷ []
