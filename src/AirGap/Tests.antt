-- ===== src/AirGap/Tests.antt =====
-- The capability of src/air_gap.rs that is taken twice.
use iso_light_k.Common.{ℕ, ◌≡◌, refl, replicate}
use iso_light_k.Syscall.{Memory, SyscallContext, denied, as_rax, copy_to_user}
use iso_light_k.Audit.{initial}
use iso_light_k.Ipc.Registry
use iso_light_k.Hsm.{capability_bytes, new_slot, hsm_max_slots}
use iso_light_k.AirGap.{AirGap, provisioned, unset, take_audit_read_cap}
use iso_light_k.AirGap.Laws.{take_audit_read_cap_once}

abbrev drawn : AirGap ℕ
drawn = record {
  machine = record {
    slots = replicate hsm_max_slots new_slot;
    audit = initial;
    trust_root = replicate 4 1;
    boot_challenge = replicate 32 7;
    ipc = Registry.empty;
    world = 0;
  };
  audit_read = record { cap = record { token = 77; slot = 255; rights = 0 }; state = provisioned };
  network_attach = unset;
}

abbrev zeros : Memory
zeros = λ a. 0

abbrev context : SyscallContext
context = record { num = 15; arg0 = 4096; arg1 = 0; arg2 = 0; arg3 = 0; arg4 = 0; arg5 = 0 }

abbrev after_take : AirGap ℕ
after_take = (take_audit_read_cap context drawn zeros).1

take_audit_read_cap_once_example :
    ((take_audit_read_cap context drawn zeros).2
      ≡ copy_to_user zeros 4096 (capability_bytes drawn.audit_read.cap))
    × ((take_audit_read_cap context after_take zeros).0 ≡ as_rax denied)
    × ((take_audit_read_cap context after_take zeros).2 ≡ zeros)
unfolding take_audit_read_cap
take_audit_read_cap_once_example =
    take_audit_read_cap_once context context drawn after_take zeros zeros refl refl
