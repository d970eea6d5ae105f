-- ===== src/AirGap.antt =====
-- src/air_gap.rs: the two capabilities that each go to one taker, the check of them at boot, and the
-- report of slots and audit events. The statics of the file are the fields of `AirGap` beside the
-- machine; the build's feature `tls-external` is a Boolean.
pub mod Laws
mod Tests
use iso_light_k.Common.{
  ℕ, zero, suc, ◌+◌, ◌*◌, ◌-◌, Bool, true, false, not, ◌&&◌, ltb, ◌==◌, if◌then◌else◌, Option, none,
  some, List, [], ◌∷◌, ◌++◌, length, take, drop, replicate, Result, ok, err,
}
use iso_light_k.Common.Bytes.{to_le_bytes}
use iso_light_k.Syscall.{
  Memory, SyscallContext, denied, bad_address, as_rax, is_user_range, copy_to_user,
}
use iso_light_k.Audit.{audit_ring_capacity, audit_enqueue, audit_snapshot}
use iso_light_k.Capability.{CapError}
use iso_light_k.Primitives.{Random}
use iso_light_k.Bus.{BusKind, software, network, kind_octet}
use iso_light_k.Hsm.{HsmCapability, invalid, capability_bytes, Machine, hsm_max_slots}
use iso_light_k.Hsm.Registry.{HsmSlotInfo, enumerate}
use iso_light_k.Hsm.Channel.Commands.{events_bytes}

pub data NetCapState : Type 0 where
  provisioned taken : NetCapState

-- A capability that is handed out once.
pub record OneShot : Type 0 where
  pub cap : HsmCapability
  pub state : NetCapState

pub record AirGap (W : Type 0) : Type 0 where
  pub machine : Machine W
  pub audit_read : OneShot
  pub network_attach : OneShot

abbrev pub unset : OneShot
unset = record { cap = invalid; state = provisioned }

abbrev pub gap_status_header_len : ℕ
gap_status_header_len = 8

abbrev pub gap_status_len : ℕ
gap_status_len = 456

abbrev pub record_event : {W : Type 0} → ℕ → ℕ → BusKind → Machine W → Machine W
record_event marker result kind m = record m {
  audit = audit_enqueue m.audit marker result (kind_octet kind) (replicate 4 0);
}

-- `gen_token_u64().unwrap_or(0)`
abbrev pub token_or_zero : Result CapError ℕ → ℕ
token_or_zero (ok t) = t
token_or_zero (err e) = 0

module _ (rand : Random) where
  -- Two draws, of which the first is the token.
  unfoldable pub draw_cap : OneShot → Machine rand.World → OneShot × Machine rand.World
  draw_cap s m =
      let (t, w) = rand.gen_token_u64 m.world in
      let (hop, w') = rand.gen_token_u64 w in
      (record s { cap = record s.cap { token = token_or_zero t } }, record m { world = w' })

  unfoldable pub init_audit_read_cap : AirGap rand.World → AirGap rand.World
  unfolding draw_cap
  init_audit_read_cap g =
      let (s, m) = draw_cap g.audit_read g.machine in record g { audit_read = s; machine = m }

  unfoldable pub init_network_cap : AirGap rand.World → AirGap rand.World
  unfolding draw_cap
  init_network_cap g =
      let (s, m) = draw_cap g.network_attach g.machine in
      record g { network_attach = s; machine = m }

-- `none` is the panic that stops the boot.
unfoldable pub gap_self_check : {W : Type 0} → Bool → AirGap W → Option (AirGap W)
gap_self_check tls_external g =
    if tls_external && g.network_attach.cap.token == 0
    then none
    else if g.audit_read.cap.token == 0
    then none
    else some g

-- The hand-over of a capability: the result register, the capability, the machine and the memory.
abbrev pub Taking : Type 0 → Type 0
Taking W = ℕ × OneShot × Machine W × Memory

unfoldable pub hand_over :
    {W : Type 0} → ℕ → BusKind → HsmCapability → NetCapState → ℕ → Machine W → Memory → Taking W
unfolding audit_enqueue capability_bytes copy_to_user
hand_over marker kind cap taken out_ptr m memory =
    (as_rax denied, record { cap = cap; state = taken }, record_event marker 2 kind m, memory)
hand_over marker kind cap provisioned out_ptr m memory = (
  0,
  record { cap = cap; state = taken },
  record_event marker 3 kind m,
  copy_to_user memory out_ptr (capability_bytes cap),
)

unfoldable pub take_cap : {W : Type 0} → ℕ → BusKind → OneShot → ℕ → Machine W → Memory → Taking W
unfolding is_user_range hand_over
take_cap marker kind s out_ptr m memory =
    if is_user_range out_ptr 16
    then hand_over marker kind s.cap s.state out_ptr m memory
    else (as_rax denied, s, m, memory)

unfoldable pub take_network_cap :
    {W : Type 0} → SyscallContext → AirGap W → Memory → ℕ × AirGap W × Memory
unfolding take_cap
take_network_cap ctx g memory =
    let (rax, s, m, memory') = take_cap 254 network g.network_attach ctx.arg0 g.machine memory in
    (rax, record g { network_attach = s; machine = m }, memory')

unfoldable pub take_audit_read_cap :
    {W : Type 0} → SyscallContext → AirGap W → Memory → ℕ × AirGap W × Memory
unfolding take_cap
take_audit_read_cap ctx g memory =
    let (rax, s, m, memory') = take_cap 253 software g.audit_read ctx.arg0 g.machine memory in
    (rax, record g { audit_read = s; machine = m }, memory')

-- The 8 bytes of a slot: its index, its transport, the verdict, a zero and the prefix of its key.
unfoldable pub entry_bytes : HsmSlotInfo → List ℕ
entry_bytes i = i.slot ∷ take 2 i.reserved ++ 0 ∷ take 4 (drop 2 i.reserved)

unfoldable pub entries_bytes : List HsmSlotInfo → List ℕ
unfolding entry_bytes
entries_bytes [] = []
entries_bytes (i ∷ is) = entry_bytes i ++ entries_bytes is

abbrev pub empty_entry : List ℕ
empty_entry = 255 ∷ replicate 7 0

unfoldable pub padding : ℕ → List ℕ
padding zero = []
padding (suc n) = empty_entry ++ padding n

-- The 456 bytes of the report: entries and events that are not there are zero, but for the index
-- 255 of an entry.
unfoldable pub status_bytes : {W : Type 0} → Machine W → List ℕ
unfolding enumerate audit_snapshot entries_bytes padding events_bytes
status_bytes m =
    let infos = enumerate hsm_max_slots m.slots in
    let (events, written, total) = audit_snapshot m.audit audit_ring_capacity in
    to_le_bytes 2 (length infos)
    ++ to_le_bytes 2 written
    ++ to_le_bytes 4 total
    ++ entries_bytes infos
    ++ padding (hsm_max_slots - length infos)
    ++ events_bytes events
    ++ replicate ((audit_ring_capacity - written) * 12) 0

unfoldable pub handle_status :
    {W : Type 0} → SyscallContext → AirGap W → Memory → ℕ × AirGap W × Memory
unfolding audit_enqueue is_user_range status_bytes copy_to_user
handle_status ctx g memory =
    if ltb ctx.arg1 gap_status_len
    then (as_rax denied, g, memory)
    else if not (g.audit_read.cap.token == ctx.arg2)
    then (as_rax denied, record g { machine = record_event 255 2 software g.machine }, memory)
    else if not (is_user_range ctx.arg0 ctx.arg1)
    then (as_rax bad_address, g, memory)
    else (0, g, copy_to_user memory ctx.arg0 (status_bytes g.machine))
