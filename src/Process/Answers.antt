-- ===== src/Process/Answers.antt =====
-- What the API server asks for, cluster by cluster, and what requests in turn make of it
-- (internal/controller).
use shard_controller.Prelude.{
  ◌≡◌, ◌≢◌, refl, sym, ap, ◌∙◌, Bool, true, Option, none, some, String, List, [], ◌∷◌, ◌==◌, arith,
  string_eq, nat_eq, if◌then◌else◌, All, ◌⊎◌, inl, inr, any, Bool-cases, eq_self, eq_of_test,
}
use shard_controller.Errors.{Result}
use shard_controller.Reference.{ObjectReference, reference_eq}
use shard_controller.Tracker.{is_shard}
use shard_controller.Process.{
  Gvk, GoType, cluster, sveltos_cluster, Object, Request, Scheme, Names, make_reference, Getter,
}
use shard_controller.Process.Requests.{IsFaithful, HasKind}
use shard_controller.Process.Resync.{Item, desired}

-- The API server while its clusters do not change: what it answers on each, whatever the deployments.
pub record Answers (W : Type 0) (scheme : Scheme) (names : Names) : Type 0 where
  pub get : Getter W
  pub answer : Item → Result Object
  pub steady : (t : GoType) (req : Request) (w : W) → get t req w ≡ answer (t, req)
  pub faithful : IsFaithful get
  -- The kinds of the two Go types, which are not the same.
  pub kind : GoType → Gvk
  pub has_kind : (t : GoType) → HasKind scheme names t (kind t)
  pub kinds_apart :
      (scheme.to_api_version_and_kind (kind cluster)).1
      ≢ (scheme.to_api_version_and_kind (kind sveltos_cluster)).1

-- Whether an item is among some.
abbrev pub In : Item → List Item → Type 0
In i [] = ⊥
In i (j ∷ items) = (j ≡ i) ⊎ In i items

pub All-In : (P : Item → Type 0) (items : List Item) → ((i : Item) → In i items → P i) → All P items
All-In P [] h = tt
All-In P (i ∷ items) h = (h i (inl refl), All-In P items (λ j m. h j (inr m)))

pub any-In :
    (p : Item → Bool) (items : List Item)
    → any p items ≡ true
    → (i : Item) × In i items × (p i ≡ true)
any-In p [] h = cc
any-In p (j ∷ items) h = elim (Bool-cases (p j)) [
  | inl e ↦ (j, inl refl, e)
  | inr e ↦ let (i, m, q) = any-In p items (rw e at h) in (i, inr m, q)
]

pub any_of_In :
    (p : Item → Bool) (items : List Item) (i : Item) → In i items → p i ≡ true → any p items ≡ true
any_of_In p [] i m q = absurd m
any_of_In p (j ∷ items) i (inl e) q = rw (e, q) refl
any_of_In p (j ∷ items) i (inr m) q = ground (arith, any_of_In p items i m q)

is_shard-some : (o : Option String) (s : String) → is_shard o s ≡ true → o ≡ some s
is_shard-some none s h = cc
is_shard-some (some t) s h = ap (λ (k : String). some k) (eq_of_test t s h)

module _ {W : Type 0} (scheme : Scheme) (names : Names) (api : Answers W scheme names) where
  -- The key of an item's cluster in the maps.
  unfoldable pub reference_of : Item → ObjectReference
  reference_of (t, req) = make_reference scheme req.namespace req.name (api.kind t)

  -- Two items with one key are the same: clusters of both kinds may share a namespace and a name.
  reference_of_injective : (i j : Item) → reference_of i ≡ reference_of j → i ≡ j
  unfolding reference_of make_reference
  reference_of_injective (cluster, r) (cluster, q) e = cc
  reference_of_injective (sveltos_cluster, r) (sveltos_cluster, q) e = cc
  reference_of_injective (cluster, r) (sveltos_cluster, q) e =
      absurd (api.kinds_apart (ap (λ (c : ObjectReference). c.kind) e))
  reference_of_injective (sveltos_cluster, r) (cluster, q) e =
      absurd (api.kinds_apart (sym (ap (λ (c : ObjectReference). c.kind) e)))

  -- The shard that the API server wants an item's cluster in.
  abbrev pub wanted : Item → Option String
  wanted i = desired names (api.answer i)

  -- The shard of a cluster after items in turn.
  unfoldable pub assigned : List Item → ObjectReference → Option String → Option String
  assigned [] d o = o
  assigned (i ∷ items) d o = assigned items d (if reference_of i == d then wanted i else o)

  pub assigned-cases :
      (items : List Item) (d : ObjectReference) (o : Option String)
      → (assigned items d o ≡ o)
        ⊎ ((i : Item) × In i items × (reference_of i ≡ d) × (assigned items d o ≡ wanted i))
  unfolding assigned
  assigned-cases [] d o = inl refl
  assigned-cases (j ∷ items) d o = elim (Bool-cases (reference_of j == d)) [
    | inl e ↦ rw e (
        inr (elim (assigned-cases items d (wanted j)) [
          | inl q ↦ (j, inl refl, eq_of_test (reference_of j) d e, q)
          | inr (i, m, k, q) ↦ (i, inr m, k, q)
        ]))
    | inr e ↦ rw e (elim (assigned-cases items d o) [
      | inl q ↦ inl q
      | inr (i, m, k, q) ↦ inr (i, inr m, k, q)
    ])
  ]

  pub assigned-wanted :
      (items : List Item) (i : Item) (o : Option String)
      → In i items
      → assigned items (reference_of i) o ≡ wanted i
  unfolding assigned
  assigned-wanted [] i o m = absurd m
  assigned-wanted (j ∷ items) i o (inr m) = assigned-wanted items i _ m
  assigned-wanted (j ∷ items) i o (inl e) =
      rw (e, eq_self (reference_of i))
        (elim (assigned-cases items (reference_of i) (wanted i)) [
          | inl q ↦ q
          | inr (k, m, same, q) ↦ q ∙ ap wanted (reference_of_injective k i same)
        ])

  -- Whether the API server wants an item's cluster in a shard.
  abbrev pub wants : String → Item → Bool
  wants s i = is_shard (wanted i) s

  pub wants-some : (s : String) (i : Item) → wants s i ≡ true → wanted i ≡ some s
  wants-some s i h = is_shard-some (wanted i) s h

  pub some-wants : (s : String) (i : Item) → wanted i ≡ some s → wants s i ≡ true
  some-wants s i h = rw h (eq_self s)
