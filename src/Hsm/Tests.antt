-- ===== src/Hsm/Tests.antt =====
-- The theorems on the registry of src/hsm_registry.rs and the buses of src/bus.rs on the machine of
-- `Hsm.Setup`.
use iso_light_k.Common.{
  ◌≡◌, ◌↔◌, refl, sym, ap, ◌∙◌, get_or-replicate, true, none, [], ◌∷◌, ok, arith,
}
use iso_light_k.Bus.{software, ring3_process}
use iso_light_k.Hsm.{HsmSlot, new_slot, slot_at, hsm_max_slots, empty, detaching}
use iso_light_k.Hsm.Rights.{of_attach, revoke}
use iso_light_k.Hsm.Setup.{
  crypto, random, booted, hasher, one_attached, one_attached_lem, two_attached,
}
use iso_light_k.Hsm.Registry.{attach, authenticate, detach, enumerate, info_of}
use iso_light_k.Hsm.Registry.Access.{IsAttached, attach_lem}
use iso_light_k.Hsm.Registry.Release.{IsValid, IsDetached, detach_lem, attach-IsValid}
use iso_light_k.Hsm.Registry.Listing.{Has, IsListed, enumerate_lem}

pub booted-IsValid : IsValid booted.slots
booted-IsValid = record {
  sized = refl;
  wiped = λ j e. get_or-replicate hsm_max_slots j new_slot;
  settled = λ j e.
      let at : (slot_at booted.slots j).state ≡ empty =
        ap HsmSlot.state (get_or-replicate hsm_max_slots j new_slot) in
      let clash : empty ≡ detaching = sym at ∙ e in ground arith;
}

one-IsValid : IsValid one_attached.slots
one-IsValid = attach-IsValid crypto random software (1 ∷ []) none of_attach booted booted-IsValid

pub two-IsValid : IsValid two_attached.slots
two-IsValid =
    attach-IsValid crypto random ring3_process (3 ∷ 0 ∷ []) none of_attach one_attached one-IsValid

hasher-authentic : authenticate one_attached.slots hasher revoke ≡ true
unfolding authenticate attach
hasher-authentic = refl

attach_lem_example : IsAttached crypto random software none of_attach booted hasher one_attached
attach_lem_example =
    attach_lem crypto random software (1 ∷ []) none of_attach booted hasher one_attached refl
      one_attached_lem

detach_lem_example :
    ((detach hasher revoke one_attached).0 ≡ ok tt)
    × IsDetached hasher one_attached (detach hasher revoke one_attached).1
detach_lem_example = detach_lem hasher revoke one_attached one-IsValid.sized hasher-authentic

enumerate_lem_example :
    Has (info_of 1 (slot_at two_attached.slots 1)) (enumerate 8 two_attached.slots)
    ↔ IsListed (info_of 1 (slot_at two_attached.slots 1)) 0 8 two_attached.slots
enumerate_lem_example =
    enumerate_lem (info_of 1 (slot_at two_attached.slots 1)) 8 two_attached.slots
