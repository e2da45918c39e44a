-- ===== src/Manifest.antt =====
-- internal/controller/utils.go: the edits of a Deployment by setOptions and appendArgsToContainer,
-- and what addDriftDetectionConfig and addClassifierConfigs ask for. The reading and
-- writing of the documents around them is in Documents.
pub mod Swap
pub mod Options
pub mod Args
use shard_controller.Prelude.{
  ℕ, zero, suc, Bool, true, String, Option, none, some, List, [], ◌∷◌, ◌++◌, map, string_eq, ◌==◌,
  ◌&&◌, if◌then◌else◌, length, get_or, set, take, str_contains, concat,
}

-- `corev1.Container` and `appsv1.Deployment`: the fields that the source reads or writes, and all
-- others as one value that the edits leave alone.
pub record Container (R : Type 0) : Type 0 where
  pub name : String
  pub args : List String
  pub other : R

pub record Deployment (R : Type 0) : Type 0 where
  pub containers : List (Container R)
  pub init_containers : List (Container R)
  pub other : R

abbrev pub agent_option : String
agent_option = "agent-in-mgmt-cluster"

abbrev pub agent_flag : String
agent_flag = "--agent-in-mgmt-cluster=true"

-- `strings.Contains(*args, "agent-in-mgmt-cluster")`
unfoldable pub is_agent_arg : String → Bool
is_agent_arg arg = str_contains arg agent_option

-- `j`, where the loop over the arguments breaks
unfoldable pub first_agent_arg : List String → Option ℕ
first_agent_arg [] = none
first_agent_arg (arg ∷ args) = elim (is_agent_arg arg) [
  | true ↦ some zero
  | _ ↦ elim (first_agent_arg args) [ none ↦ none | some j ↦ some (suc j) ]
]

-- `len(args) - 1`, where the slice is not empty
abbrev pub last_index : {A : Type 0} → List A → ℕ
last_index [] = zero
last_index (x ∷ xs) = length xs

-- `args[j] = args[lastIdx]; args = args[:lastIdx]`
unfoldable pub swap_remove : ℕ → List String → List String
swap_remove j args = take (last_index args) (set args j (get_or args (last_index args) ""))

-- the body of either loop of setOptions
unfoldable pub set_agent_arg : List String → List String
set_agent_arg args =
    (elim (first_agent_arg args) [ none ↦ args | some j ↦ swap_remove j args ]) ++ agent_flag ∷ []

module _ {R : Type 0} where
  unfoldable pub set_container : Container R → Container R
  set_container c = record c { args = set_agent_arg c.args }

  -- setOptions
  unfoldable pub set_deployment_options : Deployment R → Deployment R
  set_deployment_options d = record d {
    containers = map set_container d.containers;
    init_containers = map set_container d.init_containers;
  }

  -- the inner loop of appendArgsToContainer
  unfoldable pub append_arg : String → String → List (Container R) → List (Container R)
  append_arg name arg [] = []
  append_arg name arg (c ∷ cs) =
      (if c.name == name then record c { args = c.args ++ arg ∷ [] } else c)
      ∷ append_arg name arg cs

  -- the loop `for flag, value := range argsToAdd`, over the entries of the map in some order
  unfoldable pub append_args :
      String → List (String × String) → List (Container R) → List (Container R)
  append_args name [] cs = cs
  append_args name ((flag, value) ∷ entries) cs =
      append_args name entries
        (if value == "" then cs else append_arg name (concat flag (concat "=" value)) cs)

  unfoldable pub append_args_to_container :
      String → List (String × String) → Deployment R → Deployment R
  append_args_to_container name entries d = record d {
    containers = append_args name entries d.containers;
  }

-- the map that addClassifierConfigs makes, in the order of the writes
unfoldable pub classifier_args : String → String → List (String × String)
classifier_args sveltos_agent_config sveltos_applier_config =
    (if sveltos_agent_config == ""
      then []
      else ("--sveltos-agent-config", sveltos_agent_config) ∷ [])
    ++ (if sveltos_applier_config == ""
        then []
        else ("--sveltos-applier-config", sveltos_applier_config) ∷ [])
