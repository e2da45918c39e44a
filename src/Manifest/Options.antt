-- ===== src/Manifest/Options.antt =====
-- What setOptions (internal/controller/utils.go) makes of a Deployment.
use shard_controller.Prelude.{
  ℕ, zero, suc, ◌-◌, ◌≡◌, ◌<◌, refl, Bool, true, false, String, none, some, List, [], ◌∷◌, ◌++◌,
  arith, string_eq, ◌==◌, length, get_or, count, count-append, All₂, All₂-map, Option-cases, inl,
  inr, test_of_ne, str_contains, ◌⊎◌,
}
use shard_controller.Manifest.{
  Container, Deployment, agent_flag, is_agent_arg, first_agent_arg, swap_remove, set_agent_arg,
  set_container, set_deployment_options,
}
use shard_controller.Manifest.Swap.{count-swap_remove}

first_agent_arg-some :
    (args : List String) (j : ℕ)
    → first_agent_arg args ≡ some j
    → (j < length args) × (is_agent_arg (get_or args j "") ≡ true)
unfolding first_agent_arg
first_agent_arg-some [] j h = cc
first_agent_arg-some (x ∷ xs) zero h = ground arith
first_agent_arg-some (x ∷ xs) (suc j) h = ground (arith, first_agent_arg-some xs j)

first_agent_arg-none :
    (args : List String) → first_agent_arg args ≡ none → count is_agent_arg args ≡ 0
unfolding first_agent_arg count
first_agent_arg-none [] h = refl
first_agent_arg-none (x ∷ xs) h = ground (arith, first_agent_arg-none xs)

-- The argument that setOptions adds is one of those that it looks for.
is_agent_arg-agent_flag : is_agent_arg agent_flag ≡ true
unfolding is_agent_arg str_contains
is_agent_arg-agent_flag = refl

-- For any test: the first argument for the option gives way to the new one.
abbrev Replaces : (String → Bool) → List String → List String → Type 0
Replaces p args args' =
    ((count is_agent_arg args ≡ 0) × (count p args' ≡ count p (agent_flag ∷ args)))
    ⊎ ((old : String) × (is_agent_arg old ≡ true)
        × (0 < count is_agent_arg args)
        × (count p (old ∷ args') ≡ count p (agent_flag ∷ args)))

set_agent_arg-Replaces :
    (p : String → Bool) (args : List String) → Replaces p args (set_agent_arg args)
unfolding set_agent_arg count
set_agent_arg-Replaces p args = elim (Option-cases (first_agent_arg args)) [
  | inl e ↦ inl (first_agent_arg-none args e, ground (arith, count-append p args (agent_flag ∷ [])))
  | inr (j, e) ↦
      let (lt, hit) = first_agent_arg-some args j e in
      inr (
        get_or args j "",
        hit,
        ground (arith, count-swap_remove is_agent_arg args j lt),
        ground (
          arith,
          count-swap_remove p args j lt,
          count-append p (swap_remove j args) (agent_flag ∷ []),
        ),
      )
]

snoc_given : (args : List String) → 0 < count (λ x. x == agent_flag) (args ++ agent_flag ∷ [])
unfolding count
snoc_given args = ground (
  arith,
  count-append (λ x. x == agent_flag) args (agent_flag ∷ []),
  string_eq.beq_iff agent_flag agent_flag,
)

set_agent_arg-given : (args : List String) → 0 < count (λ x. x == agent_flag) (set_agent_arg args)
unfolding set_agent_arg
set_agent_arg-given args =
    snoc_given (elim (first_agent_arg args) [ none ↦ args | some j ↦ swap_remove j args ])

-- Two arguments of which one is for the option and the other is not.
agent_arg_ne : (x a : String) → is_agent_arg x ≡ true → is_agent_arg a ≡ false → (x == a) ≡ false
agent_arg_ne x a h k = test_of_ne x a (λ e. cc)

set_agent_arg-count :
    (args : List String) (a : String)
    → is_agent_arg a ≡ false
    → count (λ x. x == a) (set_agent_arg args) ≡ count (λ x. x == a) args
unfolding count
set_agent_arg-count args a h = elim (set_agent_arg-Replaces (λ x. x == a) args) [
  | inl (z, e) ↦ ground (arith, agent_arg_ne agent_flag a is_agent_arg-agent_flag h)
  | inr (old, hit, some_arg, e) ↦
      ground (arith, agent_arg_ne agent_flag a is_agent_arg-agent_flag h, agent_arg_ne old a hit h)
]

agent_args_count :
    (args : List String)
    → count is_agent_arg (set_agent_arg args) ≡ suc (count is_agent_arg args - 1)
unfolding count
agent_args_count args = elim (set_agent_arg-Replaces is_agent_arg args) [
  | inl (z, e) ↦ ground (arith, is_agent_arg-agent_flag)
  | inr (old, hit, some_arg, e) ↦ ground (arith, is_agent_arg-agent_flag)
]

-- What setOptions does to one container: the name and the other fields stay, of the arguments for the
-- option one goes if there is any and the new one comes, and any other argument occurs as often as
-- before.
pub record HasOption {R : Type 0} (c c' : Container R) : Type 0 where
  pub name : c'.name ≡ c.name
  pub other : c'.other ≡ c.other
  pub agent_args : count is_agent_arg c'.args ≡ suc (count is_agent_arg c.args - 1)
  pub given : 0 < count (λ x. x == agent_flag) c'.args
  pub other_args :
      (a : String)
      → is_agent_arg a ≡ false
      → count (λ x. x == a) c'.args ≡ count (λ x. x == a) c.args

module _ {R : Type 0} where
  set_container-HasOption : (c : Container R) → HasOption c (set_container c)
  unfolding set_container
  set_container-HasOption c = record {
    name = refl;
    other = refl;
    agent_args = agent_args_count c.args;
    given = set_agent_arg-given c.args;
    other_args = λ a h. set_agent_arg-count c.args a h;
  }

  -- setOptions does this to every container and every init container.
  pub set_deployment_options-HasOption :
      (d : Deployment R)
      → All₂ HasOption d.containers (set_deployment_options d).containers
        × All₂ HasOption d.init_containers (set_deployment_options d).init_containers
        × ((set_deployment_options d).other ≡ d.other)
  unfolding set_deployment_options
  set_deployment_options-HasOption d = (
    All₂-map HasOption set_container d.containers set_container-HasOption,
    All₂-map HasOption set_container d.init_containers set_container-HasOption,
    refl,
  )
