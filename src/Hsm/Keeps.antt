-- ===== src/Hsm/Keeps.antt =====
-- What a table of slots (src/hsm_registry.rs) keeps while only the buses of slots in use change.
use iso_light_k.Common.{
  ℕ, zero, suc, ◌<◌, ◌≡◌, ◌↔◌, refl, sym, ap, ◌∙◌, true, false, List, [], ◌∷◌, length, set,
  length-set, get_or-set_ne, get_or-set_self, arith,
}
use native.Mathlib.Decide.{ℕ_discrete}
use iso_light_k.Bus.Instance.{BusInstance}
use iso_light_k.Hsm.{Machine, HsmCapability, HsmSlot, new_slot, slot_at, set_bus, attached}
use iso_light_k.Hsm.Registry.{is_empty}
use iso_light_k.Hsm.Registry.Access.{IsAuthentic}
use iso_light_k.Hsm.Registry.Release.{IsValid}
use iso_light_k.Hsm.Channel.Commands.{put_bus}

-- Only buses of slots that are not empty may differ.
pub record Keeps (before after : List HsmSlot) : Type 0 where
  pub sized : length after ≡ length before
  pub state_is : (j : ℕ) → (slot_at after j).state ≡ (slot_at before j).state
  pub token_is : (j : ℕ) → (slot_at after j).token ≡ (slot_at before j).token
  pub rights_are : (j : ℕ) → (slot_at after j).rights ≡ (slot_at before j).rights
  pub untouched : (j : ℕ) → is_empty (slot_at before j) ≡ true → slot_at after j ≡ slot_at before j

pub Keeps-refl : (slots : List HsmSlot) → Keeps slots slots
Keeps-refl slots = record {
  sized = refl;
  state_is = λ j. refl;
  token_is = λ j. refl;
  rights_are = λ j. refl;
  untouched = λ j e. refl;
}

pub Keeps-trans : (a b c : List HsmSlot) → Keeps a b → Keeps b c → Keeps a c
Keeps-trans a b c p q = record {
  sized = q.sized ∙ p.sized;
  state_is = λ j. q.state_is j ∙ p.state_is j;
  token_is = λ j. q.token_is j ∙ p.token_is j;
  rights_are = λ j. q.rights_are j ∙ p.rights_are j;
  untouched = λ j e. let same = p.untouched j e in q.untouched j (ap is_empty same ∙ e) ∙ same;
}

-- A slot out of range reads as an empty one.
in_range_of_used :
    (slots : List HsmSlot) (i : ℕ) → is_empty (slot_at slots i) ≡ false → i < length slots
in_range_of_used [] i used = absurd (ground arith)
in_range_of_used (s ∷ slots) zero used = omega arith
in_range_of_used (s ∷ slots) (suc i) used = omega (arith, in_range_of_used slots i used)

Keeps-set_bus :
    (slots : List HsmSlot) (i : ℕ) (bus : BusInstance)
    → is_empty (slot_at slots i) ≡ false
    → Keeps slots (set_bus i bus slots)
Keeps-set_bus slots i bus used = record {
  sized = length-set slots i new;
  state_is = λ j. field_is HsmSlot.state j refl;
  token_is = λ j. field_is HsmSlot.token j refl;
  rights_are = λ j. field_is HsmSlot.rights j refl;
  untouched = λ j e. elim (ℕ_discrete i j) [
    | yes same ↦ let at : is_empty (slot_at slots i) ≡ true = rw same e in absurd (ground arith)
    | no ne ↦ get_or-set_ne slots i j new new_slot ne
  ];
}
  where
    new : HsmSlot
    new = record (slot_at slots i) { bus = bus }

    field_is :
        {A : Type 0} (f : HsmSlot → A) (j : ℕ)
        → f new ≡ f (slot_at slots i)
        → f (slot_at (set slots i new) j) ≡ f (slot_at slots j)
    field_is f j same = elim (ℕ_discrete i j) [
      | yes e ↦
          rw (← e)
            (ap f (get_or-set_self slots i new new_slot (in_range_of_used slots i used)) ∙ same)
      | no ne ↦ ap f (get_or-set_ne slots i j new new_slot ne)
    ]

pub in_use :
    (slots : List HsmSlot) (i : ℕ)
    → (slot_at slots i).state ≡ attached
    → is_empty (slot_at slots i) ≡ false
in_use slots i live = ground arith

-- An index whose slot is in use stays so, and its bus may change.
pub put_bus-Keeps :
    {W : Type 0} (before : List HsmSlot) (idx : ℕ) (bus : BusInstance) (m : Machine W)
    → is_empty (slot_at before idx) ≡ false
    → Keeps before m.slots
    → Keeps before (put_bus idx bus m).slots
put_bus-Keeps before idx bus m used k =
    Keeps-trans before m.slots (set_bus idx bus m.slots) k
      (Keeps-set_bus m.slots idx bus (rw (k.state_is idx) used))

pub Keeps-IsValid :
    (before after : List HsmSlot) → Keeps before after → IsValid before → IsValid after
Keeps-IsValid before after k v = record {
  sized = k.sized ∙ v.sized;
  wiped = λ j e.
      let unused : is_empty (slot_at before j) ≡ true = rw (k.state_is j) at e in
      k.untouched j unused ∙ v.wiped j unused;
  settled = λ j. rw (k.state_is j) (v.settled j);
}

pub Keeps-IsAuthentic :
    (before after : List HsmSlot) (cap : HsmCapability) (required : ℕ)
    → Keeps before after
    → IsAuthentic after cap required ↔ IsAuthentic before cap required
Keeps-IsAuthentic before after cap required k = (
  λ a. record {
    in_range = a.in_range;
    is_live = sym (k.state_is cap.slot) ∙ a.is_live;
    token_is = a.token_is ∙ k.token_is cap.slot;
    token_nonzero = a.token_nonzero;
    granted = rw (k.rights_are cap.slot) at a.granted;
    claimed = a.claimed;
  },
  λ a. record {
    in_range = a.in_range;
    is_live = k.state_is cap.slot ∙ a.is_live;
    token_is = a.token_is ∙ sym (k.token_is cap.slot);
    token_nonzero = a.token_nonzero;
    granted = rw (k.rights_are cap.slot) a.granted;
    claimed = a.claimed;
  },
)
