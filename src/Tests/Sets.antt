-- ===== src/Tests/Sets.antt =====
-- A set of references as a list: a value of the parameter that stands for `libsveltosset.Set`.
use shard_controller.Prelude.{
  ◌≡◌, ◌≢◌, refl, Bool, true, false, ◌||◌, List, [], ◌∷◌, ℕ, suc, arith, ◌==◌, if◌then◌else◌, Eq,
}
use shard_controller.Reference.{ObjectReference, reference_eq, RefSet}

module _ {A : Type 0} ⦃e : Eq A⦄ where
  pub has : List A → A → Bool
  has [] c = false
  has (x ∷ xs) c = x == c || has xs c

  pub erase : A → List A → List A
  erase c [] = []
  erase c (x ∷ xs) = let rest = erase c xs in if x == c then rest else x ∷ rest

  -- An element that occurs twice counts once.
  pub distinct : List A → ℕ
  distinct [] = 0
  distinct (x ∷ xs) = let n = distinct xs in if has xs x then n else suc n

  pub has-erase : (c d : A) (s : List A) → has (erase c s) d ≡ (if c == d then false else has s d)
  unfolding has erase
  has-erase c d [] = ground arith
  has-erase c d (x ∷ xs) =
      ground (arith, has-erase c d xs, e.beq_iff x c, e.beq_iff x d, e.beq_iff c d)

  pub distinct-erase :
      (c : A) (s : List A)
      → distinct s ≡ (if has s c then suc (distinct (erase c s)) else distinct (erase c s))
  unfolding has erase distinct
  distinct-erase c [] = refl
  distinct-erase c (x ∷ xs) =
      ground (arith, distinct-erase c xs, has-erase c x xs, e.beq_iff x c, e.beq_iff c x)

  pub has-nil : (c : A) → has [] c ≡ false
  unfolding has
  has-nil c = refl

  pub has-cons : (c d : A) (s : List A) → has (c ∷ s) d ≡ (if c == d then true else has s d)
  unfolding has
  has-cons c d s = ground arith

  pub distinct-cons :
      (c : A) (s : List A) → distinct (c ∷ s) ≡ (if has s c then distinct s else suc (distinct s))
  unfolding distinct
  distinct-cons c s = refl

pub member_of_distinct :
    (s : List ObjectReference) → distinct s ≢ 0 → (c : ObjectReference) × (has s c ≡ true)
unfolding has distinct
member_of_distinct [] p = absurd (p refl)
member_of_distinct (c ∷ s) p = (c, ground (arith, reference_eq.beq_iff c c))

pub distinct-nil : distinct {A = ObjectReference} [] ≡ 0
unfolding distinct
distinct-nil = refl

instance unfoldable pub list_set : RefSet (List ObjectReference)
unfolding has erase distinct
list_set = record {
  empty = [];
  insert = ◌∷◌;
  erase = erase;
  has = has;
  len = distinct;
  has-empty = has-nil;
  has-insert = has-cons;
  has-erase = has-erase;
  len-empty = distinct-nil;
  len-insert = distinct-cons;
  len-erase = distinct-erase;
  member_of_len = member_of_distinct;
}
