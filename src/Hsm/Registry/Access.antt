-- ===== src/Hsm/Registry/Access.antt =====
-- `authenticate` and `attach` (src/hsm_registry.rs): what a capability is accepted for, and who gets
-- one.
use iso_light_k.Common.{
  ℕ, ◌<◌, ◌≡◌, ◌≢◌, ◌↔◌, refl, sym, ◌∙◌, true, false, Option, some, List, length, get_or-set_self,
  get_or-set_ne, ok, arith,
}
use iso_light_k.Primitives.{Crypto, Random}
use iso_light_k.Bus.{BusKind}
use iso_light_k.Hsm.{
  HsmSlotState, empty, attached, detaching, HsmCapability, covers, ct_token_eq, HsmSlot, new_slot,
  Machine, slot_at, hsm_max_slots,
}
use iso_light_k.Hsm.Registry.Stored.{
  find_empty-some, IsAttested, IsStored, attach-IsStored, attach-IsAttested,
}
use iso_light_k.Hsm.Registry.{is_attached, is_empty, attach, authenticate}

-- What makes the registry accept a capability for some rights.
pub record IsAuthentic (slots : List HsmSlot) (cap : HsmCapability) (required : ℕ) : Type 0 where
  pub in_range : cap.slot < hsm_max_slots
  pub is_live : (slot_at slots cap.slot).state ≡ attached
  pub token_is : cap.token ≡ (slot_at slots cap.slot).token
  pub token_nonzero : cap.token ≢ 0
  pub granted : covers (slot_at slots cap.slot).rights required ≡ true
  pub claimed : covers cap.rights required ≡ true

pub is_attached_lem : (s : HsmSlot) → is_attached s ≡ true → s.state ≡ attached
is_attached_lem s h = go s.state refl
  where
    go : (x : HsmSlotState) → s.state ≡ x → s.state ≡ attached
    go attached e = e
    go empty e = absurd (ground arith)
    go detaching e = absurd (ground arith)

-- A capability is accepted for some rights exactly when its slot is in range and attached, its
-- token is that of the slot and not 0, and both the slot and the capability have the rights.
pub authenticate_iff :
    (slots : List HsmSlot) (cap : HsmCapability) (required : ℕ)
    → (authenticate slots cap required ≡ true) ↔ IsAuthentic slots cap required
unfolding authenticate ct_token_eq
authenticate_iff slots cap required = (
  λ h.
      let in_range : cap.slot < hsm_max_slots = ground arith in
      let live : is_attached (slot_at slots cap.slot) ≡ true = ground arith in
      record {
        in_range = in_range;
        is_live = is_attached_lem (slot_at slots cap.slot) live;
        token_is = ground arith;
        token_nonzero = ground arith;
        granted = ground arith;
        claimed = ground arith;
      },
  λ v. ground (arith, v.in_range, v.is_live, v.token_is, v.token_nonzero, v.granted, v.claimed),
)

module _ (c : Crypto) (rand : Random) where
  -- What a successful attach gives and changes.
  pub record IsAttached (kind : BusKind) (payload : Option (List ℕ)) (rights : ℕ)
      (m : Machine rand.World) (cap : HsmCapability) (m' : Machine rand.World) : Type 0 where
    pub in_range : cap.slot < hsm_max_slots
    pub was_free : is_empty (slot_at m.slots cap.slot) ≡ true
    pub lowest : (j : ℕ) → j < cap.slot → is_empty (slot_at m.slots j) ≡ false
    pub accepted :
        (required : ℕ) → covers rights required ≡ true → authenticate m'.slots cap required ≡ true
    pub others : (j : ℕ) → cap.slot ≢ j → slot_at m'.slots j ≡ slot_at m.slots j
    pub attested : (p : List ℕ) → payload ≡ some p → IsAttested c rand m kind p

  IsStored-accepted :
      (i rights : ℕ) (before : List HsmSlot) (cap : HsmCapability) (after : List HsmSlot)
      → IsStored c rand i rights before cap after
      → length before ≡ hsm_max_slots
      → i < hsm_max_slots
      → (required : ℕ) → covers rights required ≡ true
      → authenticate after cap required ≡ true
  IsStored-accepted i rights before cap after v sized l required has =
      let at : slot_at after cap.slot ≡ v.stored =
        rw (v.slots_are, v.place) (get_or-set_self before i v.stored new_slot (omega arith)) in
      (authenticate_iff after cap required).1 (record {
        in_range = omega (arith, v.place);
        is_live = rw at v.stored_live;
        token_is = rw at (sym v.stored_token);
        token_nonzero = v.token_nonzero;
        granted = rw (at, v.stored_rights) has;
        claimed = rw v.rights_are has;
      })

  -- Where `attach` on a table of 8 slots succeeds, the slot of the capability given was the first
  -- empty one, the other slots are as before, and the capability is accepted for all rights among
  -- those asked for. If there was an attestation, the trust root has signed it.
  pub attach_lem :
      (kind : BusKind) (init : List ℕ) (payload : Option (List ℕ)) (rights : ℕ)
      (m : Machine rand.World) (cap : HsmCapability) (m' : Machine rand.World)
      → length m.slots ≡ hsm_max_slots
      → attach c rand kind init payload rights m ≡ (ok cap, m')
      → IsAttached kind payload rights m cap m'
  attach_lem kind init payload rights m cap m' sized h =
      let (i, found, v) = attach-IsStored c rand kind init payload rights m cap m' h in
      let (d, at, l, free, lower) = find_empty-some 0 i m.slots found in
      let same : cap.slot ≡ d = omega (arith, v.place) in
      record {
        in_range = omega (arith, sized);
        was_free = rw same free;
        lowest = λ j k. lower j (omega arith);
        accepted = IsStored-accepted i rights m.slots cap m'.slots v sized (omega (arith, sized));
        others = λ j ne.
            rw v.slots_are (get_or-set_ne m.slots i j v.stored new_slot (λ e. ne (v.place ∙ e)));
        attested = λ p e. attach-IsAttested c rand kind init p rights m cap m' (rw e at h);
      }
