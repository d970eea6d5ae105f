-- ===== src/Hsm.antt =====
-- src/hsm_registry.rs: the slots of the attached security modules and the capabilities to them. The
-- statics REGISTRY, AUDIT_RING, ACTIVE_TRUST_ROOT_PK and BOOT_CHALLENGE and the registry of the
-- endpoints are the fields of `Machine`, which every operation takes and returns. The padding
-- bytes of a capability, which no code reads, are left out.
pub mod Rights
mod Setup
mod Tests
pub mod Attest
pub mod Registry
pub mod Keeps
pub mod Channel
pub mod Syscall
use iso_light_k.Common.{
  ℕ, bit_and, Bool, not, ◌&&◌, ◌==◌, List, [], ◌∷◌, ◌++◌, get_or, set, replicate,
}
use iso_light_k.Common.Bytes.{field, to_le_bytes}
use iso_light_k.Audit.{AuditRing}
use iso_light_k.Ipc.Registry.{IpcRegistry}
use iso_light_k.Bus.Instance
use iso_light_k.Bus.Instance.{BusInstance, empty_bus}

abbrev pub hsm_max_slots : ℕ
hsm_max_slots = 8

abbrev pub chan_max : ℕ
chan_max = 4096

abbrev pub invalid_slot : ℕ
invalid_slot = 255

pub data HsmSlotState : Type 0 where
  empty attached detaching : HsmSlotState

-- `state as u8`
abbrev pub state_octet : HsmSlotState → ℕ
state_octet empty = 0
state_octet attached = 1
state_octet detaching = 2

pub data HsmCapError : Type 0 where
  invalid_token bad_slot rights_missing full not_attached busy : HsmCapError
  token_gen bad_init attest_failed : HsmCapError

pub record HsmCapability : Type 0 where
  pub token : ℕ
  pub slot : ℕ
  pub rights : ℕ

abbrev pub invalid : HsmCapability
invalid = record { token = 0; slot = invalid_slot; rights = 0 }

-- `(self.rights & required) == required`
abbrev pub covers : ℕ → ℕ → Bool
covers rights required = bit_and rights required == required

unfoldable pub is_valid_for : HsmCapability → ℕ → ℕ → Bool
is_valid_for c slot required = not (c.token == 0) && c.slot == slot && covers c.rights required

unfoldable pub ct_token_eq : HsmCapability → HsmCapability → Bool
ct_token_eq c d = c.token == d.token

-- The 16 bytes of a capability in memory.
unfoldable pub capability_bytes : HsmCapability → List ℕ
capability_bytes c =
    to_le_bytes 8 c.token
    ++ to_le_bytes 1 c.slot
    ++ replicate 1 0
    ++ to_le_bytes 2 c.rights
    ++ replicate 4 0

unfoldable pub capability_of : List ℕ → HsmCapability
capability_of bytes = record {
  token = field bytes 0 8;
  slot = field bytes 8 1;
  rights = field bytes 10 2;
}

pub record HsmSlot : Type 0 where
  pub state : HsmSlotState
  pub token : ℕ
  pub rights : ℕ
  pub bus : BusInstance
  pub verify_result_code : ℕ
  pub pk_hash_prefix : List ℕ

abbrev pub new_slot : HsmSlot
new_slot = record {
  state = empty;
  token = 0;
  rights = 0;
  bus = empty_bus;
  verify_result_code = 0;
  pk_hash_prefix = replicate 4 0;
}

unfoldable pub zeroize : HsmSlot → HsmSlot
unfolding Instance.zeroize
zeroize s = record s {
  token = 0;
  bus = Instance.zeroize s.bus;
  rights = 0;
  verify_result_code = 0;
  pk_hash_prefix = replicate 4 0;
  state = empty;
}

-- `slots` has 8 of them.
pub record Machine (W : Type 0) : Type 0 where
  pub slots : List HsmSlot
  pub audit : AuditRing
  pub trust_root : List ℕ
  pub boot_challenge : List ℕ
  pub ipc : IpcRegistry
  pub world : W

abbrev pub slot_at : List HsmSlot → ℕ → HsmSlot
slot_at slots i = get_or slots i new_slot

-- The slot with its bus replaced.
abbrev pub set_bus : ℕ → BusInstance → List HsmSlot → List HsmSlot
set_bus i bus slots = set slots i (record (slot_at slots i) { bus = bus })
