-- ===== src/Manifest/Args.antt =====
-- What appendArgsToContainer (internal/controller/utils.go) makes of a Deployment, by the map of
-- arguments, whose entries come in any order.
use shard_controller.Prelude.{
  ◌≡◌, refl, sym, ap, ◌∙◌, String, List, [], ◌∷◌, ◌++◌, map, arith, string_eq, ◌==◌, if◌then◌else◌,
  concat, Bool-cases, inl, inr, All₂, Option, none, some,
}
use mathlib.Core.List.{
  append_assoc, append-nil, Perm, filter_map, filter_map-cons-none, filter_map-cons-some,
}
use mathlib.Core.List.Perm
use shard_controller.Manifest.{
  Container, Deployment, append_arg, append_args, append_args_to_container,
}

-- The arguments that the entries stand for: none for an empty value.
unfoldable pub rendered : List (String × String) → List String
rendered [] = []
rendered ((flag, value) ∷ entries) =
    let rest = rendered entries in
    if value == "" then rest else concat flag (concat "=" value) ∷ rest

module _ {R : Type 0} where
  -- The containers of the name get the arguments at the end, and no other field or container changes.
  unfoldable pub extended : String → List String → Container R → Container R
  extended name args c = if c.name == name then record c { args = c.args ++ args } else c

  append_arg-extended :
      (name arg : String) (cs : List (Container R))
      → append_arg name arg cs ≡ map (extended name (arg ∷ [])) cs
  unfolding append_arg extended
  append_arg-extended name arg [] = refl
  append_arg-extended name arg (c ∷ cs) = ground (arith, append_arg-extended name arg cs)

  extended-nil : (name : String) (cs : List (Container R)) → map (extended name []) cs ≡ cs
  unfolding extended
  extended-nil name [] = refl
  extended-nil name (c ∷ cs) = ground (arith, extended-nil name cs, append-nil c.args)

  extended-append :
      (name : String) (xs ys : List String) (cs : List (Container R))
      → map (extended name ys) (map (extended name xs) cs) ≡ map (extended name (xs ++ ys)) cs
  unfolding extended
  extended-append name xs ys [] = refl
  extended-append name xs ys (c ∷ cs) =
      ground (arith, extended-append name xs ys cs, append_assoc c.args xs ys)

  append_args-extended :
      (name : String) (entries : List (String × String)) (cs : List (Container R))
      → append_args name entries cs ≡ map (extended name (rendered entries)) cs
  unfolding append_args rendered
  append_args-extended name [] cs = sym (extended-nil name cs)
  append_args-extended name ((flag, value) ∷ entries) cs = elim (Bool-cases (value == "")) [
    | inl e ↦ rw (e, append_args, rendered) (append_args-extended name entries cs)
    | inr e ↦
        rw (e, append_args, rendered)
          (append_args-extended name entries (append_arg name (concat flag (concat "=" value)) cs)
            ∙ ap (map (extended name (rendered entries)))
                (append_arg-extended name (concat flag (concat "=" value)) cs)
            ∙ extended-append name (concat flag (concat "=" value) ∷ []) (rendered entries) cs)
  ]

  -- appendArgsToContainer puts the arguments of the entries with a value, in the order in which the
  -- entries come, behind those of every container of the name, and changes nothing else.
  pub append_args_to_container-extended :
      (name : String) (entries : List (String × String)) (d : Deployment R)
      → append_args_to_container name entries d
        ≡ record d { containers = map (extended name (rendered entries)) d.containers }
  unfolding append_args_to_container
  append_args_to_container-extended name entries d =
      ap (λ (cs : List (Container R)). record d { containers = cs })
        (append_args-extended name entries d.containers)

render_arg : String × String → Option String
render_arg (flag, value) = if value == "" then none else some (concat flag (concat "=" value))

rendered-filter_map :
    (entries : List (String × String)) → rendered entries ≡ filter_map render_arg entries
unfolding rendered render_arg
rendered-filter_map [] = unfold filter_map in refl
rendered-filter_map ((flag, value) ∷ entries) = elim (Bool-cases (value == "")) [
  | inl e ↦
      rw (e, rendered, filter_map-cons-none render_arg (flag, value) entries (rw (e, render_arg)))
        (rendered-filter_map entries)
  | inr e ↦
      rw
        (
          e,
          rendered,
          filter_map-cons-some render_arg (flag, value) entries {b = concat flag (concat "=" value)}
              (rw (e, render_arg)),
        )
        (ap (◌∷◌ (concat flag (concat "=" value))) (rendered-filter_map entries))
]

rendered-perm : {xs ys : List (String × String)} → Perm xs ys → Perm (rendered xs) (rendered ys)
rendered-perm {xs} {ys} p =
    rw (rendered-filter_map xs, rendered-filter_map ys) (Perm.filter_map render_arg p)

-- The same container, but for the order of its arguments.
pub record SameButOrder {R : Type 0} (c c' : Container R) : Type 0 where
  pub name : c.name ≡ c'.name
  pub other : c.other ≡ c'.other
  pub args : Perm c.args c'.args

module _ {R : Type 0} where
  extended-SameButOrder :
      (name : String) {xs ys : List String}
      → Perm xs ys
      → (c : Container R) → SameButOrder (extended name xs c) (extended name ys c)
  unfolding extended
  extended-SameButOrder name {xs} {ys} p c = elim (Bool-cases (c.name == name)) [
    | inl e ↦ rw e (record { name = refl; other = refl; args = Perm.append_left c.args p })
    | inr e ↦ rw e (record { name = refl; other = refl; args = Perm.refl c.args })
  ]

  map-SameButOrder :
      (name : String) {xs ys : List String}
      → Perm xs ys
      → (cs : List (Container R))
      → All₂ SameButOrder (map (extended name xs) cs) (map (extended name ys) cs)
  map-SameButOrder name p [] = tt
  map-SameButOrder name p (c ∷ cs) = (extended-SameButOrder name p c, map-SameButOrder name p cs)

  -- The order in which the map of arguments is read shows in the order of the arguments only.
  pub append_args_to_container_order :
      (name : String) (entries entries' : List (String × String)) (d : Deployment R)
      → Perm entries entries'
      → All₂ SameButOrder
          (append_args_to_container name entries d).containers
          (append_args_to_container name entries' d).containers
  append_args_to_container_order name entries entries' d p =
      rw
        (
          append_args_to_container-extended name entries d,
          append_args_to_container-extended name entries' d,
        )
        (map-SameButOrder name (rendered-perm p) d.containers)
