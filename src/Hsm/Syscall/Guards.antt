-- ===== src/Hsm/Syscall/Guards.antt =====
-- The handlers (src/hsm_registry.rs) against the registry: who is refused, and that they return.
use iso_light_k.Common.{
  ℕ, ◌+◌, ◌≤◌, ◌≡◌, refl, ap, false, not, ◌&&◌, ltb, ◌==◌, Bool-cases, inl, inr, some, err, arith,
}
use iso_light_k.Syscall.{
  Memory, SyscallContext, is_user_range, as_rax, bad_arg, bad_address, denied, internal,
}
use iso_light_k.Primitives.{Crypto}
use iso_light_k.Wire.{wire_frame_max}
use iso_light_k.Hsm.{
  Machine, HsmCapability, HsmSlotState, empty, attached, detaching, chan_max, hsm_max_slots,
  slot_at,
}
use iso_light_k.Hsm.Rights.{allow_use, revoke, relay_src, relay_dst}
use iso_light_k.Hsm.Rights
use iso_light_k.Hsm.Registry.{authenticate, detach, refusal}
use iso_light_k.Hsm.Registry.Release.{detach_refused}
use iso_light_k.Hsm.Syscall.{
  Outcome, fail, cap_size, read_cap, detach_rax, handle_detach, handle_enumerate, handle_write,
  handle_read, handle_relay,
}

-- An error comes back, and nothing has changed.
pub record IsRefused {W : Type 0} (m : Machine W) (memory : Memory) (o : Outcome W) : Type 0 where
  pub is_error : as_rax internal ≤ o.0
  pub same_machine : o.1 ≡ m
  pub same_memory : o.2 ≡ memory

module _ {W : Type 0} (m : Machine W) (memory : Memory) where
  IsRefused-arg : IsRefused m memory (as_rax bad_arg, m, memory)
  IsRefused-arg = record { is_error = omega arith; same_machine = refl; same_memory = refl }

  IsRefused-address : IsRefused m memory (as_rax bad_address, m, memory)
  IsRefused-address = record { is_error = omega arith; same_machine = refl; same_memory = refl }

  IsRefused-denied : IsRefused m memory (as_rax denied, m, memory)
  IsRefused-denied = record { is_error = omega arith; same_machine = refl; same_memory = refl }

  handle_enumerate-IsRefused :
      (ctx : SyscallContext)
      → authenticate m.slots (read_cap memory ctx.arg0) Rights.enumerate ≡ false
      → IsRefused m memory (handle_enumerate ctx m memory)
  unfolding handle_enumerate
  handle_enumerate-IsRefused ctx bad = elim (Bool-cases (is_user_range ctx.arg0 cap_size)) [
    | inl there ↦ rw (there, bad) IsRefused-denied
    | inr outside ↦ rw outside IsRefused-address
  ]

  handle_read-IsRefused :
      (ctx : SyscallContext)
      → authenticate m.slots (read_cap memory ctx.arg0) allow_use ≡ false
      → IsRefused m memory (handle_read ctx m memory)
  unfolding handle_read
  handle_read-IsRefused ctx bad =
      elim (Bool-cases (ltb ctx.arg2 (wire_frame_max + 1) && ltb 15 ctx.arg2)) [
        | inr odd ↦ rw odd IsRefused-arg
        | inl sized ↦ elim (Bool-cases (is_user_range ctx.arg0 cap_size)) [
          | inr outside ↦ rw (sized, outside) IsRefused-address
          | inl there ↦ elim (Bool-cases (is_user_range ctx.arg1 ctx.arg2)) [
            | inr outside ↦ rw (sized, there, outside) IsRefused-address
            | inl here ↦ rw (sized, there, here, bad) IsRefused-denied
          ]
        ]
      ]

  handle_write-IsRefused :
      (c : Crypto) (ctx : SyscallContext)
      → authenticate m.slots (read_cap memory ctx.arg0) allow_use ≡ false
      → (o : Outcome W) × (handle_write c ctx m memory ≡ some o) × IsRefused m memory o
  unfolding handle_write
  handle_write-IsRefused c ctx bad =
      elim (Bool-cases (ltb ctx.arg2 (chan_max + 1) && not (ctx.arg2 == 0))) [
        | inr odd ↦ rw odd (fail bad_arg m memory, refl, IsRefused-arg)
        | inl sized ↦ elim (Bool-cases (is_user_range ctx.arg0 cap_size)) [
          | inr outside ↦ rw (sized, outside) (fail bad_address m memory, refl, IsRefused-address)
          | inl there ↦ elim (Bool-cases (is_user_range ctx.arg1 ctx.arg2)) [
            | inr outside ↦
                rw (sized, there, outside) (fail bad_address m memory, refl, IsRefused-address)
            | inl here ↦ rw (sized, there, here, bad) (fail denied m memory, refl, IsRefused-denied)
          ]
        ]
      ]

  handle_relay-IsRefused :
      (c : Crypto) (ctx : SyscallContext)
      → (authenticate m.slots (read_cap memory ctx.arg0) relay_src
          && authenticate m.slots (read_cap memory ctx.arg1) relay_dst)
        ≡ false
      → (o : Outcome W) × (handle_relay c ctx m memory ≡ some o) × IsRefused m memory o
  unfolding handle_relay
  handle_relay-IsRefused c ctx bad =
      elim (Bool-cases (ltb ctx.arg2 (chan_max + 1) && not (ctx.arg2 == 0))) [
        | inr odd ↦ rw odd (fail bad_arg m memory, refl, IsRefused-arg)
        | inl sized ↦ elim (Bool-cases (is_user_range ctx.arg0 cap_size)) [
          | inr outside ↦ rw (sized, outside) (fail bad_address m memory, refl, IsRefused-address)
          | inl there ↦ elim (Bool-cases (is_user_range ctx.arg1 cap_size)) [
            | inr outside ↦
                rw (sized, there, outside) (fail bad_address m memory, refl, IsRefused-address)
            | inl here ↦ rw (sized, there, here, bad) (fail denied m memory, refl, IsRefused-denied)
          ]
        ]
      ]

  detach_rax_refused :
      (cap : HsmCapability) (required : ℕ)
      → authenticate m.slots cap required ≡ false
      → detach_rax (detach cap required m).0 ≡ as_rax denied
  unfolding detach detach_rax
  detach_rax_refused cap required bad = elim (Bool-cases (ltb cap.slot hsm_max_slots)) [
    | inr beyond ↦ rw (bad, beyond) refl
    | inl there ↦ rw (bad, there) (each (slot_at m.slots cap.slot).state)
  ]
    where
      each : (s : HsmSlotState) → detach_rax (err (refusal s)) ≡ as_rax denied
      each empty = refl
      each attached = refl
      each detaching = refl

  handle_detach-IsRefused :
      (ctx : SyscallContext)
      → authenticate m.slots (read_cap memory ctx.arg0) revoke ≡ false
      → IsRefused m memory (handle_detach ctx m memory)
  unfolding handle_detach
  handle_detach-IsRefused ctx bad = elim (Bool-cases (ctx.arg2 == cap_size)) [
    | inr odd ↦ rw odd IsRefused-arg
    | inl sized ↦ elim (Bool-cases (is_user_range ctx.arg0 ctx.arg2)) [
      | inr outside ↦ rw (sized, outside) IsRefused-address
      | inl there ↦
          let cap = read_cap memory ctx.arg0 in
          rw (sized, there)
            (record {
              is_error = rw (detach_rax_refused cap revoke bad) (omega arith);
              same_machine = detach_refused cap revoke m bad;
              same_memory = refl;
            })
    ]
  ]

  -- Where the registry accepts the capability at the first argument for none of listing,
  -- revocation, use and relay from it, the calls to enumerate, detach, read, write and relay with
  -- it all return an error from -6 to -1, and change neither the machine nor the user's memory.
  pub unauthenticated-IsRefused :
      (c : Crypto) (ctx : SyscallContext)
      → authenticate m.slots (read_cap memory ctx.arg0) Rights.enumerate ≡ false
      → authenticate m.slots (read_cap memory ctx.arg0) revoke ≡ false
      → authenticate m.slots (read_cap memory ctx.arg0) allow_use ≡ false
      → authenticate m.slots (read_cap memory ctx.arg0) relay_src ≡ false
      → IsRefused m memory (handle_enumerate ctx m memory)
        × IsRefused m memory (handle_detach ctx m memory)
        × IsRefused m memory (handle_read ctx m memory)
        × ((o : Outcome W) × (handle_write c ctx m memory ≡ some o) × IsRefused m memory o)
        × ((o : Outcome W) × (handle_relay c ctx m memory ≡ some o) × IsRefused m memory o)
  unauthenticated-IsRefused c ctx no_list no_revoke no_use no_source = (
    handle_enumerate-IsRefused ctx no_list,
    handle_detach-IsRefused ctx no_revoke,
    handle_read-IsRefused ctx no_use,
    handle_write-IsRefused c ctx no_use,
    handle_relay-IsRefused c ctx
        (ap (λ b. b && authenticate m.slots (read_cap memory ctx.arg1) relay_dst) no_source),
  )
