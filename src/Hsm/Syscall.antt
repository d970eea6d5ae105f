-- ===== src/Hsm/Syscall.antt =====
-- src/hsm_registry.rs: the handlers of the system calls on the slots. Each takes the machine and the
-- user's memory and returns both beside the result register. The staging buffers RELAY_BUF and
-- ATTEST_BUF, zeroed before and after each use, are lists.

pub mod Attach
pub mod Guards
mod Tests
pub mod Returns
pub mod Keeps
pub mod Called
pub mod Gate
use iso_light_k.Common.{
  ℕ, zero, suc, ◌+◌, ◌*◌, ◌-◌, ◌^◌, min, Bool, true, false, not, ◌&&◌, ◌||◌, ltb, leb, ◌==◌,
  if◌then◌else◌, Option, none, some, List, [], ◌∷◌, ◌++◌, length, take, replicate, Result, ok, err,
}
use iso_light_k.Common.Partial.{◌>>=◌}
use iso_light_k.Common.Bytes.{to_le_bytes}
use iso_light_k.Syscall.{
  Memory, SyscallError, bad_arg, bad_address, denied, as_rax, SyscallContext, is_user_range,
  copy_from_user, copy_to_user,
}
use iso_light_k.Syscall
use iso_light_k.Audit.{audit_enqueue}
use iso_light_k.Primitives.{Crypto, Random}
use iso_light_k.Wire.{wire_frame_max}
use iso_light_k.Bus.{
  BusKind, software, ring3_process, network, kind_octet, BusError, max_bus_init_blob,
}
use iso_light_k.Hsm.{
  HsmCapError, attest_failed, full, bad_init, invalid_token, bad_slot, rights_missing, not_attached,
  busy, token_gen, HsmCapability, capability_bytes, capability_of, Machine, chan_max, hsm_max_slots,
}
use iso_light_k.Hsm.Rights.{allow_use, revoke, relay_src, relay_dst, of_attach}
use iso_light_k.Hsm.Rights
use iso_light_k.Hsm.Attest.{pk_len, sig_len, pk_of, pk_hash_prefix}
use iso_light_k.Hsm.Registry.{attach, authenticate, detach, HsmSlotInfo, enumerate}
use iso_light_k.Hsm.Channel.{bus_write}
use iso_light_k.Hsm.Channel.Commands.{bus_read}

abbrev pub cap_size : ℕ
cap_size = 16

-- Enough for a frame of 4096 bytes.
abbrev pub nesting_bound : ℕ
nesting_bound = 257

abbrev pub attest_exact : ℕ
attest_exact = pk_len + sig_len

-- The result register, the machine and the user's memory.
abbrev pub Outcome : Type 0 → Type 0
Outcome W = ℕ × Machine W × Memory

abbrev pub fail : {W : Type 0} → SyscallError → Machine W → Memory → Outcome W
fail e m memory = (as_rax e, m, memory)

abbrev pub read_cap : Memory → ℕ → HsmCapability
read_cap memory ptr = capability_of (copy_from_user memory ptr cap_size)

abbrev pub info_bytes : HsmSlotInfo → List ℕ
info_bytes i = i.slot ∷ i.state ∷ i.reserved

unfoldable pub infos_bytes : List HsmSlotInfo → List ℕ
infos_bytes [] = []
infos_bytes (i ∷ is) = info_bytes i ++ infos_bytes is

-- The result register of a detach.
unfoldable pub detach_rax : Result HsmCapError (Unit {0}) → ℕ
detach_rax (ok _) = 0
detach_rax (err invalid_token) = as_rax denied
detach_rax (err bad_slot) = as_rax denied
detach_rax (err not_attached) = as_rax denied
detach_rax (err busy) = as_rax denied
detach_rax (err rights_missing) = as_rax denied
detach_rax (err e) = as_rax Syscall.internal

module _ {W : Type 0} where
  unfoldable pub handle_detach : SyscallContext → Machine W → Memory → Outcome W
  unfolding is_user_range capability_of copy_from_user detach detach_rax
  handle_detach ctx m memory =
      if not (ctx.arg2 == cap_size)
      then fail bad_arg m memory
      else if not (is_user_range ctx.arg0 ctx.arg2)
      then fail bad_address m memory
      else (let (r, m') = detach (read_cap memory ctx.arg0) revoke m in (detach_rax r, m', memory))

  unfoldable pub handle_enumerate : SyscallContext → Machine W → Memory → Outcome W
  unfolding is_user_range capability_of copy_from_user authenticate enumerate infos_bytes
      copy_to_user
  handle_enumerate ctx m memory =
      let infos = enumerate ctx.arg2 m.slots in
      if not (is_user_range ctx.arg0 cap_size)
      then fail bad_address m memory
      else if not (authenticate m.slots (read_cap memory ctx.arg0) Rights.enumerate)
      then fail denied m memory
      else if ltb hsm_max_slots ctx.arg2
      then fail bad_arg m memory
      else if not (is_user_range ctx.arg1 (ctx.arg2 * 8))
      then fail bad_address m memory
      else (length infos, m, copy_to_user memory ctx.arg1 (infos_bytes infos))

  -- The result of `write` of a bus as a result register.
  abbrev pub write_rax : Memory → Result BusError ℕ × Machine W → Outcome W
  write_rax memory (ok n, m) = (0, m, memory)
  write_rax memory (err e, m) = fail Syscall.internal m memory

  unfoldable pub handle_write : Crypto → SyscallContext → Machine W → Memory → Option (Outcome W)
  unfolding is_user_range capability_of copy_from_user authenticate bus_write
  handle_write c ctx m memory =
      let cap = read_cap memory ctx.arg0 in
      if not (ltb ctx.arg2 (chan_max + 1) && not (ctx.arg2 == 0))
      then some (fail bad_arg m memory)
      else if not (is_user_range ctx.arg0 cap_size)
      then some (fail bad_address m memory)
      else if not (is_user_range ctx.arg1 ctx.arg2)
      then some (fail bad_address m memory)
      else if not (authenticate m.slots cap allow_use)
      then some (fail denied m memory)
      else (bus_write c nesting_bound cap.slot (copy_from_user memory ctx.arg1 ctx.arg2) m >>= λ x.
          some (write_rax memory x))

  -- The end of a read, by its result.
  unfoldable pub read_done : Memory → ℕ → Result BusError (List ℕ) × Machine W → Outcome W
  unfolding copy_to_user
  read_done memory out_ptr (err e, m) = fail Syscall.internal m memory
  read_done memory out_ptr (ok bytes, m) = (length bytes, m, copy_to_user memory out_ptr bytes)

  unfoldable pub handle_read : SyscallContext → Machine W → Memory → Outcome W
  unfolding is_user_range capability_of copy_from_user authenticate bus_read read_done
  handle_read ctx m memory =
      let cap = read_cap memory ctx.arg0 in
      if not (ltb ctx.arg2 (wire_frame_max + 1) && ltb 15 ctx.arg2)
      then fail bad_arg m memory
      else if not (is_user_range ctx.arg0 cap_size)
      then fail bad_address m memory
      else if not (is_user_range ctx.arg1 ctx.arg2)
      then fail bad_address m memory
      else if not (authenticate m.slots cap allow_use)
      then fail denied m memory
      else read_done memory ctx.arg1 (bus_read ctx.arg2 cap.slot m)

  -- The second half of a relay: the write counts only if it took every byte.
  abbrev pub relay_rax : ℕ → Memory → Result BusError ℕ × Machine W → Outcome W
  relay_rax byte_len memory (ok n, m) =
      if n == byte_len then (0, m, memory) else fail Syscall.internal m memory
  relay_rax byte_len memory (err e, m) = fail Syscall.internal m memory

  -- The write of all the bytes that were read.
  unfoldable pub relay_write :
      Crypto → ℕ → ℕ → Memory → Result BusError (List ℕ) × Machine W → Option (Outcome W)
  unfolding bus_write
  relay_write c dst byte_len memory (err e, m) = some (fail Syscall.internal m memory)
  relay_write c dst byte_len memory (ok bytes, m) =
      if not (length bytes == byte_len)
      then some (fail Syscall.internal m memory)
      else (bus_write c nesting_bound dst bytes m >>= λ x. some (relay_rax byte_len memory x))

  -- The transfer: the read takes the bytes out of the source.
  unfoldable pub relay_bytes : Crypto → ℕ → ℕ → ℕ → Machine W → Memory → Option (Outcome W)
  unfolding bus_read relay_write
  relay_bytes c src dst byte_len m memory =
      relay_write c dst byte_len memory (bus_read byte_len src m)

  unfoldable pub handle_relay : Crypto → SyscallContext → Machine W → Memory → Option (Outcome W)
  unfolding is_user_range capability_of copy_from_user authenticate relay_bytes
  handle_relay c ctx m memory =
      let src_cap = read_cap memory ctx.arg0 in
      let dst_cap = read_cap memory ctx.arg1 in
      if not (ltb ctx.arg2 (chan_max + 1) && not (ctx.arg2 == 0))
      then some (fail bad_arg m memory)
      else if not (is_user_range ctx.arg0 cap_size)
      then some (fail bad_address m memory)
      else if not (is_user_range ctx.arg1 cap_size)
      then some (fail bad_address m memory)
      else if not (authenticate m.slots src_cap relay_src && authenticate m.slots dst_cap relay_dst)
      then some (fail denied m memory)
      else relay_bytes c src_cap.slot dst_cap.slot ctx.arg2 m memory
