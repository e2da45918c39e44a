-- ===== src/Startup/Watchers.antt =====
-- What capiWatchers (cmd/main.go) does along any answers of the API server.
use shard_controller.Prelude.{ℕ, zero, suc, Bool, ◌&&◌, List, [], ◌∷◌, string_eq, ◌==◌}
use shard_controller.Startup.{CrdVersion, GroupVersion, slept, went_on, Turn}

-- The turns of a number of failed tries: a pause after each of the first `pauses`, and none later.
unfoldable pub failed_turns : ℕ → ℕ → List Turn
failed_turns pauses zero = []
failed_turns zero (suc n) = went_on ∷ failed_turns zero n
failed_turns (suc pauses) (suc n) = slept ∷ failed_turns pauses n

-- The CRD has a version that is served under the name that the source looks for.
abbrev pub is_served : GroupVersion → CrdVersion → Bool
is_served group_version v = v.name == group_version.version && v.served
