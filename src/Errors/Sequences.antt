-- ===== src/Errors/Sequences.antt =====
-- Calls in sequence: what each of them keeps, and what all of them reach if none fails.
use shard_controller.Prelude.{
  ◌≡◌, refl, sym, Option, none, some, List, [], ◌∷◌, ◌++◌, ◌∙◌, ap, arith, All, All₂,
}
use mathlib.Core.Path.{subst}
use shard_controller.Errors.{Error, Action, go_on, for_each}

module _ {S : Type 0} where
  go_on_keeps :
      (P : S → Type 0) (n : Action S)
      → ((s : S) → P s → P (n s).1)
      → (r : Option Error) (s : S) → P s
      → P (go_on r n s).1
  go_on_keeps P n h none s p = h s p
  go_on_keeps P n h (some e) s p = p

  go_on-nil :
      (n : Action S) (r : Option Error) (s : S)
      → (go_on r n s).0 ≡ none
      → (r ≡ none) × (go_on r n s ≡ n s)
  go_on-nil n none s h = (refl, refl)
  go_on-nil n (some e) s h = cc

module _ {A S : Type 0} (f : A → Action S) where
  pub for_each_keeps :
      (P : S → Type 0)
      → ((a : A) (s : S) → P s → P (f a s).1)
      → (xs : List A) (s : S) → P s
      → P (for_each f xs s).1
  unfolding for_each
  for_each_keeps P keep [] s p = p
  for_each_keeps P keep (a ∷ rest) s p =
      go_on_keeps P (for_each f rest) (for_each_keeps P keep rest) (f a s).0 (f a s).1 (keep a s p)

  -- What each call reaches and no call undoes holds for all elements in the end.
  pub for_each-All :
      (Q : A → S → Type 0)
      → ((a : A) (s : S) → (f a s).0 ≡ none → Q a (f a s).1)
      → ((a b : A) (s : S) → Q a s → Q a (f b s).1)
      → (xs : List A) (s : S) → (for_each f xs s).0 ≡ none
      → All (λ a. Q a (for_each f xs s).1) xs
  unfolding for_each
  for_each-All Q reach keep [] s h = tt
  for_each-All Q reach keep (a ∷ rest) s h =
      let (z, e) = go_on-nil (for_each f rest) (f a s).0 (f a s).1 h in
      (
        go_on_keeps (Q a) (for_each f rest) (for_each_keeps (Q a) (keep a) rest) (f a s).0 (f a s).1
            (reach a s z),
        subst (λ r. All (λ x. Q x r.1) rest) (sym e)
            (for_each-All Q reach keep rest (f a s).1 (rw e at h)),
      )

  pub for_each-nil :
      ((a : A) (s : S) → (f a s).0 ≡ none) → (xs : List A) (s : S) → (for_each f xs s).0 ≡ none
  unfolding for_each
  for_each-nil h [] s = refl
  for_each-nil h (a ∷ rest) s = rw (h a s) (for_each-nil h rest (f a s).1)

  -- A run that fails: the calls before the one that failed returned nil, and none was made after it.
  pub for_each-failed :
      (xs : List A) (s s' : S) (e : Error)
      → for_each f xs s ≡ (some e, s')
      → (done : List A) × (a : A) × (rest : List A) × (xs ≡ done ++ a ∷ rest)
        × ((for_each f done s).0 ≡ none)
        × (f a (for_each f done s).1 ≡ (some e, s'))
  unfolding for_each
  for_each-failed [] s s' e h = absurd (ground arith)
  for_each-failed (a ∷ rest) s s' e h =
      go (f a s).0 (f a s).1 refl h (λ mid. for_each-failed rest mid s' e)
    where
      go :
          (r : Option Error) (mid : S)
          → f a s ≡ (r, mid)
          → go_on r (for_each f rest) mid ≡ (some e, s')
          → ((t : S)
              → for_each f rest t ≡ (some e, s')
              → (done : List A) × (b : A) × (later : List A) × (rest ≡ done ++ b ∷ later)
                × ((for_each f done t).0 ≡ none)
                × (f b (for_each f done t).1 ≡ (some e, s')))
          → (done : List A) × (b : A) × (later : List A) × (a ∷ rest ≡ done ++ b ∷ later)
            × ((for_each f done s).0 ≡ none)
            × (f b (for_each f done s).1 ≡ (some e, s'))
      go (some x) mid k g tail = ([], a, rest, refl, refl, k ∙ g)
      go none mid k g tail =
          let (done, b, later, q, z, w) = tail mid g in
          (a ∷ done, b, later, ap (λ (l : List A). a ∷ l) q, rw k z, rw k w)

-- Calls that, where they return nil, are those of another function on other values.
module _ {A B S : Type 0} (f : A → Action S) (g : B → Action S) (P : A → B → Type 0) where
  pub for_each-All₂ :
      ((a : A) (s : S) → (f a s).0 ≡ none → (b : B) × P a b × (f a s ≡ g b s))
      → (xs : List A) (s : S) → (for_each f xs s).0 ≡ none
      → (ys : List B) × All₂ P xs ys × (for_each f xs s ≡ for_each g ys s)
  unfolding for_each
  for_each-All₂ call [] s h = ([], tt, refl)
  for_each-All₂ call (a ∷ rest) s h =
      let (z, e) = go_on-nil (for_each f rest) (f a s).0 (f a s).1 h in
      let (b, p, q) = call a s z in
      let (ys, ps, k) = for_each-All₂ call rest (f a s).1 (rw e at h) in
      (b ∷ ys, (p, ps), e ∙ k ∙ sym (rw (sym q, z) refl))
