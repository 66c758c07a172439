-- ===== src/Domain/Entity/Sets.antt =====
-- internal/domain/entity.go: what `ValidateCapabilities` and `SupportsAll` decide.
use mathlib.Core.HLevel.{⊥_prop}
use mathlib.Core.Logic.Or
use mathlib.Core.List.{Mem, Nodup, Nodup-cons, Nodup-nil, mem-cons, not-mem-nil, mem-cons_self}
use mathlib.Core.Bool.{Bool-set}
use aqua_os.Common.{
  ◌≡◌, ◌≢◌, refl, sym, Check, Bool, true, false, inl, inr, ◌↔◌, List, [], ◌∷◌, ok, arith, any, all,
  any-mem, mem-any, Bool-cases,
}
use aqua_os.Domain.Entity.{
  Capability, capability_beq, capability_eq, validate, validate_from, validate_capabilities,
  supports_all,
}

all-mem :
    (p : Capability → Bool) (cs : List Capability)
    → all p cs ≡ true
    → (c : Capability) → Mem c cs
    → p c ≡ true
all-mem p [] h c m = absurd (not-mem-nil m)
all-mem p (x ∷ cs) h c m =
    Or.elim (Bool-set _ _) (mem-cons.0 m) (λ q. rw q (ground arith))
      (λ later. all-mem p cs (ground arith) c later)

mem-all :
    (p : Capability → Bool) (cs : List Capability)
    → ((c : Capability) → Mem c cs → p c ≡ true)
    → all p cs ≡ true
mem-all p [] h = refl
mem-all p (x ∷ cs) h = rw (h x mem-cons_self) (mem-all p cs (λ c m. h c (mem-cons.1 (Or.inr m))))

-- `SupportsAll` answers whether every required capability is among the available ones.
pub supports_all_iff :
    (available required : List Capability)
    → (supports_all available required ≡ true)
      ↔ ((c : Capability) → Mem c required → Mem c available)
unfolding supports_all
supports_all_iff available required = (
  λ h c m. any-mem c available (all-mem (λ r. any (capability_beq r) available) required h c m),
  λ h. mem-all _ required (λ c m. mem-any c available (h c m)),
)

-- A value of the declared set.
abbrev pub IsKnown : Capability → Type 0
IsKnown c = validate c ≡ ok tt

-- No member of the first list stands in the second.
abbrev Fresh : List Capability → List Capability → Type 0
Fresh cs seen = (c : Capability) → Mem c cs → ¬ Mem c seen

abbrev pub AreKnown : List Capability → Type 0
AreKnown cs = (c : Capability) → Mem c cs → IsKnown c

Result-set : IsSet Check
Result-set = hlevel

-- What one accepted round of the loop says.
step_ok :
    (seen : List Capability) (x : Capability) (cs : List Capability)
    → validate_from seen (x ∷ cs) ≡ ok tt
    → IsKnown x × (any (capability_beq x) seen ≡ false) × (validate_from (x ∷ seen) cs ≡ ok tt)
unfolding validate_from
step_ok seen x cs h = ground arith

unseen_mem :
    (seen : List Capability) (x : Capability) → any (capability_beq x) seen ≡ false → ¬ Mem x seen
unseen_mem seen x h m = ground (arith, mem-any x seen m)

mem_unseen :
    (seen : List Capability) (x : Capability) → ¬ Mem x seen → any (capability_beq x) seen ≡ false
mem_unseen seen x h = elim (Bool-cases (any (capability_beq x) seen)) [
  | inl hit ↦ absurd (h (any-mem x seen hit))
  | inr miss ↦ miss
]

validate_from_sound :
    (seen cs : List Capability)
    → validate_from seen cs ≡ ok tt
    → AreKnown cs × Nodup cs × Fresh cs seen
unfolding validate_from
validate_from_sound seen [] h = (λ c m. absurd (not-mem-nil m), Nodup-nil, λ c m _. not-mem-nil m)
validate_from_sound seen (x ∷ cs) h =
    let (known, unseen, rest) = step_ok seen x cs h in
    let (knowns, distinct, fresh) = validate_from_sound (x ∷ seen) cs rest in
    (
      λ c m. Or.elim (Result-set _ _) (mem-cons.0 m) (λ q. rw q known) (knowns c),
      Nodup-cons.1 (λ m. fresh x m mem-cons_self, distinct),
      λ c m old.
          Or.elim ⊥_prop (mem-cons.0 m) (λ q. unseen_mem seen x unseen (rw (sym q) old))
            (λ later. fresh c later (mem-cons.1 (Or.inr old))),
    )

validate_from_complete :
    (seen cs : List Capability)
    → AreKnown cs
    → Nodup cs
    → Fresh cs seen
    → validate_from seen cs ≡ ok tt
unfolding validate_from
validate_from_complete seen [] known distinct fresh = refl
validate_from_complete seen (x ∷ cs) known distinct fresh =
    let (absent, rest) = Nodup-cons.0 distinct in
    let later =
      validate_from_complete (x ∷ seen) cs (λ c m. known c (mem-cons.1 (Or.inr m))) rest
        (λ c m old.
          Or.elim ⊥_prop (mem-cons.0 old) (λ q. absent (rw (sym q) m))
            (fresh c (mem-cons.1 (Or.inr m)))) in
    rw (known x mem-cons_self, mem_unseen seen x (fresh x mem-cons_self)) later

-- `ValidateCapabilities` accepts exactly the non-empty lists of declared capabilities without a
-- repetition.
pub validate_capabilities_iff :
    (cs : List Capability)
    → (validate_capabilities cs ≡ ok tt) ↔ ((cs ≢ []) × AreKnown cs × Nodup cs)
unfolding validate_capabilities
validate_capabilities_iff [] = (λ h. cc, λ h. absurd (h.0 refl))
validate_capabilities_iff (c ∷ cs) = (
  λ h. let (known, distinct, _) = validate_from_sound [] (c ∷ cs) h in (λ e. cc, known, distinct),
  λ (_, known, distinct). validate_from_complete [] (c ∷ cs) known distinct (λ x _. not-mem-nil),
)
