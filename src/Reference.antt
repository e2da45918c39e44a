-- ===== src/Reference.antt =====
-- The keys of the controllers' maps (`corev1.ObjectReference`, of which the source fills four
-- fields), and the set type of libsveltos that holds them.
use shard_controller.Prelude.{
  ◌≡◌, ◌≢◌, ◌↔◌, Bool, true, false, ◌&&◌, String, ℕ, suc, arith, Eq, string_eq, ◌==◌, if◌then◌else◌,
}

pub record ObjectReference : Type 0 where
  pub namespace : String
  pub name : String
  pub kind : String
  pub api_version : String

abbrev pub reference_beq : ObjectReference → ObjectReference → Bool
reference_beq a b =
    a.namespace == b.namespace
    && a.name == b.name
    && a.kind == b.kind
    && a.api_version == b.api_version

pub reference_beq_iff : (a b : ObjectReference) → (reference_beq a b ≡ true) ↔ (a ≡ b)
reference_beq_iff a b = ground (
  arith,
  string_eq.beq_iff a.namespace b.namespace,
  string_eq.beq_iff a.name b.name,
  string_eq.beq_iff a.kind b.kind,
  string_eq.beq_iff a.api_version b.api_version,
)

instance abbrev pub reference_eq : Eq ObjectReference
reference_eq = record { beq = reference_beq; beq_iff = reference_beq_iff }

-- `libsveltosset.Set` is not code of this repository: its methods are a parameter, with what their
-- documentation says. `insert` and `erase` change the set in place there and return it here.
pub record RefSet (S : Type 0) : Type 0 where
  pub empty : S
  pub insert : ObjectReference → S → S
  pub erase : ObjectReference → S → S
  pub has : S → ObjectReference → Bool
  pub len : S → ℕ
  pub has-empty : (c : ObjectReference) → has empty c ≡ false
  pub has-insert :
      (c d : ObjectReference) (s : S) → has (insert c s) d ≡ (if c == d then true else has s d)
  pub has-erase :
      (c d : ObjectReference) (s : S) → has (erase c s) d ≡ (if c == d then false else has s d)
  pub len-empty : len empty ≡ 0
  pub len-insert :
      (c : ObjectReference) (s : S) → len (insert c s) ≡ (if has s c then len s else suc (len s))
  -- Erasing a member takes one away; erasing another takes nothing away.
  pub len-erase :
      (c : ObjectReference) (s : S)
      → len s ≡ (if has s c then suc (len (erase c s)) else len (erase c s))
  -- A set that is not empty has a member.
  pub member_of_len : (s : S) → len s ≢ 0 → (c : ObjectReference) × (has s c ≡ true)
