-- ===== src/Errors.antt =====
-- Go's `error` values as the controllers see them: they tell a not-found answer of the API server
-- (`apierrors.IsNotFound`) from every other error, and return, wrap or swallow the rest.
pub mod Sequences
use shard_controller.Prelude.{
  Bool, true, false, String, Option, none, some, ◌≡◌, refl, ◌⊎◌, inl, inr, List, [], ◌∷◌,
}

pub data Error : Type 0 where
  not_found : Error
  failure : String → Error
  -- `errors.Wrapf(err, text, …)`, without the values that the text takes
  wrapped : String → Error → Error

-- `apierrors.IsNotFound` looks through wrapped errors.
unfoldable pub is_not_found : Error → Bool
is_not_found not_found = true
is_not_found (failure _) = false
is_not_found (wrapped _ e) = is_not_found e

-- A pair `(value, err)` of which the caller uses the value only where `err` is nil.
pub data Result (A : Type 0) : Type 0 where
  ok : A → Result A
  err : Error → Result A

infixl 5 ◌>>=◌
abbrev pub ◌>>=◌ : {A B : Type 0} → Result A → (A → Result B) → Result B
ok a >>= f = f a
err e >>= f = err e

pub Result-cases :
    {A : Type 0} (r : Result A) → ((a : A) × (r ≡ ok a)) ⊎ ((e : Error) × (r ≡ err e))
Result-cases (ok a) = inl (a, refl)
Result-cases (err e) = inr (e, refl)

-- The two halves of a chain that comes to a value.
pub >>=-ok :
    {A B : Type 0} {value : B} (first : Result A) (next : A → Result B)
    → first >>= next ≡ ok value
    → (a : A) × (first ≡ ok a) × (next a ≡ ok value)
>>=-ok first next h = elim (Result-cases first) [
  | inl (a, p) ↦ (a, p, rw p at h)
  | inr (e, p) ↦ let stopped = rw p at h in cc
]

-- A call that returned nil, by its state.
pub nil_and : {W : Type 0} (r : Option Error × W) → r.0 ≡ none → r ≡ (none, r.1)
nil_and (x, w) h = rw h refl

-- A function that changes a state and returns an `error`, `none` for nil. What was changed before
-- the error stays changed.
abbrev pub Action : Type 0 → Type 0
Action S = S → Option Error × S

module _ {S : Type 0} where
  abbrev pub return_nil : Action S
  return_nil s = (none, s)

  abbrev pub go_on : Option Error → Action S → Action S
  go_on none n s = n s
  go_on (some e) n s = (some e, s)

  -- `if err := m(); err != nil { return err }; n`
  infixr 5 ◌then_do◌
  abbrev pub ◌then_do◌ : Action S → Action S → Action S
  (m then_do n) s = let (r, s') = m s in go_on r n s'

-- A call for each element in turn, up to the first error.
unfoldable pub for_each : {A S : Type 0} → (A → Action S) → List A → Action S
for_each f [] = return_nil
for_each f (a ∷ rest) = f a then_do for_each f rest
