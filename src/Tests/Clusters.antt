-- ===== src/Tests/Clusters.antt =====
-- A management cluster that knows which shards run, and fails for some: a value of the interface that
-- the tracking uses.
use shard_controller.Prelude.{
  ◌≡◌, ◌≢◌, Bool, true, false, ◌||◌, String, Option, none, some, List, [], ◌∷◌, arith, ◌==◌,
  string_eq, if◌then◌else◌,
}
use shard_controller.Errors.{Error, failure}
use shard_controller.Shards.{Shards}
use shard_controller.Tracker.Available.{IsAvailable}

pub record Fleet : Type 0 where
  pub up : List String
  -- Deploying or removing these fails.
  pub stubborn : List String

unfoldable pub mem : List String → String → Bool
mem [] s = false
mem (x ∷ xs) s = x == s || mem xs s

unfoldable pub without : String → List String → List String
without s [] = []
without s (x ∷ xs) = let rest = without s xs in if x == s then rest else x ∷ rest

pub deploy : String → Fleet → Option Error × Fleet
deploy s w =
    if s == ""
    then (none, w)
    else if mem w.stubborn s
    then (some (failure "deploy"), w)
    else (none, record w { up = s ∷ w.up })

pub undeploy : String → Fleet → Option Error × Fleet
undeploy s w =
    if s == ""
    then (none, w)
    else if mem w.stubborn s
    then (some (failure "undeploy"), w)
    else (none, record w { up = without s w.up })

pub mem-without :
    (s t : String) (xs : List String) → mem (without s xs) t ≡ (if s == t then false else mem xs t)
unfolding mem without
mem-without s t [] = ground arith
mem-without s t (x ∷ xs) =
    ground (
      arith,
      mem-without s t xs,
      string_eq.beq_iff x s,
      string_eq.beq_iff x t,
      string_eq.beq_iff s t,
    )

abbrev pub IsName : String → Type 0
IsName s = (s == "") ≡ false

abbrev pub IsUp : String → Fleet → Type 0
IsUp s w = mem w.up s ≡ true

abbrev pub IsDown : String → Fleet → Type 0
IsDown s w = mem w.up s ≡ false

pub deploy-empty : (w : Fleet) → deploy "" w ≡ (none, w)
unfolding deploy
deploy-empty w = ground (arith, string_eq.beq_iff "" "")

pub undeploy-empty : (w : Fleet) → undeploy "" w ≡ (none, w)
unfolding undeploy
undeploy-empty w = ground (arith, string_eq.beq_iff "" "")

pub deploy-IsUp :
    (s : String) (w : Fleet) → IsName s → (deploy s w).0 ≡ none → IsUp s (deploy s w).1
unfolding deploy mem
deploy-IsUp s w k n = ground (arith, string_eq.beq_iff s s)

pub undeploy-IsDown :
    (s : String) (w : Fleet) → IsName s → (undeploy s w).0 ≡ none → IsDown s (undeploy s w).1
unfolding undeploy
undeploy-IsDown s w k n = ground (arith, mem-without s s w.up, string_eq.beq_iff s s)

pub deploy_other : (s t : String) (w : Fleet) → s ≢ t → mem (deploy s w).1.up t ≡ mem w.up t
unfolding deploy mem
deploy_other s t w ne = ground (arith, string_eq.beq_iff s t)

pub undeploy_other : (s t : String) (w : Fleet) → s ≢ t → mem (undeploy s w).1.up t ≡ mem w.up t
unfolding undeploy
undeploy_other s t w ne = ground (arith, mem-without s t w.up, string_eq.beq_iff s t)

pub deploy_keeps_IsUp : (s t : String) (w : Fleet) → IsUp t w → IsUp t (deploy s w).1
unfolding deploy mem
deploy_keeps_IsUp s t w h = ground arith

pub undeploy_keeps_IsDown : (s t : String) (w : Fleet) → IsDown t w → IsDown t (undeploy s w).1
unfolding undeploy
undeploy_keeps_IsDown s t w h = ground (arith, mem-without s t w.up)

unfoldable pub fleet : Shards Fleet
unfolding deploy undeploy mem without
fleet = record {
  deploy = deploy;
  undeploy = undeploy;
  IsKey = IsName;
  Running = IsUp;
  Gone = IsDown;
  deploy-empty = deploy-empty;
  undeploy-empty = undeploy-empty;
  deploy-Running = deploy-IsUp;
  undeploy-Gone = undeploy-IsDown;
  deploy_keeps_Running = λ s t w k kt h. deploy_keeps_IsUp s t w h;
  deploy_keeps_Gone = λ s t w k kt ne h. rw (deploy_other s t w ne) h;
  undeploy_keeps_Running = λ s t w k kt ne h. rw (undeploy_other s t w ne) h;
  undeploy_keeps_Gone = λ s t w k kt h. undeploy_keeps_IsDown s t w h;
}

-- No shard is stubborn, and no call makes one so.
abbrev pub IsEasy : Fleet → Type 0
IsEasy w = w.stubborn ≡ []

pub fleet-IsAvailable : IsAvailable fleet IsEasy
unfolding fleet deploy undeploy mem
fleet-IsAvailable = record {
  deploys = λ s w a u. (ground arith, ground arith);
  undeploys = λ s w a u. (ground arith, ground arith);
}
