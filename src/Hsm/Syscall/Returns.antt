-- ===== src/Hsm/Syscall/Returns.antt =====
-- The handlers (src/hsm_registry.rs) return: no frame is long enough to nest deeper than the bound.
use iso_light_k.Common.{
  ℕ, zero, suc, ◌+◌, ◌≤◌, ◌≡◌, refl, ap, not, ◌&&◌, ltb, ◌==◌, Bool-cases, inl, inr, List, length,
  Result, ok, err, arith,
}
use iso_light_k.Common.Partial.{Returns, Returns->>=}
use iso_light_k.Syscall.{Memory, SyscallContext, is_user_range, copy_from_user}
use iso_light_k.Primitives.{Crypto}
use iso_light_k.Bus.{BusError}
use iso_light_k.Hsm.{Machine, chan_max}
use iso_light_k.Hsm.Rights.{allow_use, relay_src, relay_dst}
use iso_light_k.Hsm.Registry.{authenticate}
use iso_light_k.Hsm.Channel.{bus_write}
use iso_light_k.Hsm.Channel.Commands.{bus_read}
use iso_light_k.Hsm.Channel.Total.{bus_write-Returns}
use iso_light_k.Hsm.Syscall.{
  cap_size, nesting_bound, read_cap, handle_write, relay_write, relay_bytes, handle_relay,
}

length-copy_from_user : (memory : Memory) (ptr n : ℕ) → length (copy_from_user memory ptr n) ≡ n
unfolding copy_from_user
length-copy_from_user memory ptr zero = refl
length-copy_from_user memory ptr (suc n) = ap suc (length-copy_from_user memory (ptr + 1) n)

-- A call to write always returns: nested frames are never deeper than the bound of 257.
pub handle_write-Returns :
    {W : Type 0} (c : Crypto) (ctx : SyscallContext) (m : Machine W) (memory : Memory)
    → Returns (handle_write c ctx m memory)
unfolding handle_write
handle_write-Returns c ctx m memory =
    let cap = read_cap memory ctx.arg0 in
    let bytes = copy_from_user memory ctx.arg1 ctx.arg2 in
    elim (Bool-cases (ltb ctx.arg2 (chan_max + 1) && not (ctx.arg2 == 0))) [
      | inr odd ↦ rw odd refl
      | inl sized ↦ elim (Bool-cases (is_user_range ctx.arg0 cap_size)) [
        | inr outside ↦ rw (sized, outside) refl
        | inl there ↦ elim (Bool-cases (is_user_range ctx.arg1 ctx.arg2)) [
          | inr outside ↦ rw (sized, there, outside) refl
          | inl here ↦ elim (Bool-cases (authenticate m.slots cap allow_use)) [
            | inr bad ↦ rw (sized, there, here, bad) refl
            | inl good ↦
                rw (sized, there, here, good)
                  (Returns->>= (bus_write c nesting_bound cap.slot bytes m) _ (
                    bus_write-Returns c nesting_bound cap.slot bytes m
                      (ground (arith, length-copy_from_user memory ctx.arg1 ctx.arg2))))
          ]
        ]
      ]
    ]

relay_write-Returns :
    {W : Type 0} (c : Crypto) (dst byte_len : ℕ) (memory : Memory)
    (x : Result BusError (List ℕ) × Machine W)
    → byte_len ≤ chan_max
    → Returns (relay_write c dst byte_len memory x)
unfolding relay_write
relay_write-Returns c dst byte_len memory (err e, m) small = refl
relay_write-Returns c dst byte_len memory (ok bytes, m) small =
    elim (Bool-cases (length bytes == byte_len)) [
      | inr part ↦ rw part refl
      | inl whole ↦ rw whole (
          Returns->>= (bus_write c nesting_bound dst bytes m) _
            (bus_write-Returns c nesting_bound dst bytes m (ground arith)))
    ]

-- So does a call to relay.
pub handle_relay-Returns :
    {W : Type 0} (c : Crypto) (ctx : SyscallContext) (m : Machine W) (memory : Memory)
    → Returns (handle_relay c ctx m memory)
unfolding handle_relay relay_bytes
handle_relay-Returns c ctx m memory =
    let src = read_cap memory ctx.arg0 in
    let dst = read_cap memory ctx.arg1 in
    elim (Bool-cases (ltb ctx.arg2 (chan_max + 1) && not (ctx.arg2 == 0))) [
      | inr odd ↦ rw odd refl
      | inl sized ↦ elim (Bool-cases (is_user_range ctx.arg0 cap_size)) [
        | inr outside ↦ rw (sized, outside) refl
        | inl there ↦ elim (Bool-cases (is_user_range ctx.arg1 cap_size)) [
          | inr outside ↦ rw (sized, there, outside) refl
          | inl here ↦
              elim (Bool-cases
                (authenticate m.slots src relay_src && authenticate m.slots dst relay_dst)) [
                  | inr bad ↦ rw (sized, there, here, bad) refl
                  | inl good ↦
                      rw (sized, there, here, good)
                        (relay_write-Returns c dst.slot ctx.arg2 memory
                          (bus_read ctx.arg2 src.slot m) (ground arith))
                ]
        ]
      ]
    ]
