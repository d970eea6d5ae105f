-- ===== src/Hsm/Syscall/Keeps.antt =====
-- What the handlers (src/hsm_registry.rs) may change of the table of slots.
use iso_light_k.Common.{
  ℕ, ◌+◌, ◌≡◌, refl, true, false, not, ◌&&◌, ltb, ◌==◌, Bool-cases, inl, inr, List, length, Result,
  ok, err, arith,
}
use iso_light_k.Common.Partial.{After, After->>=}
use iso_light_k.Syscall.{Memory, SyscallContext, is_user_range, copy_from_user}
use iso_light_k.Primitives.{Crypto}
use iso_light_k.Bus.{BusError}
use iso_light_k.Wire.{wire_frame_max}
use iso_light_k.Hsm.{Machine, HsmCapability, HsmSlot, chan_max, slot_at}
use iso_light_k.Hsm.Rights.{allow_use, revoke, relay_src, relay_dst}
use iso_light_k.Hsm.Registry.{authenticate, is_empty}
use iso_light_k.Hsm.Registry.Access.{authenticate_iff}
use iso_light_k.Hsm.Registry.Release.{IsValid, detach-IsValid}
use iso_light_k.Hsm.Channel.{bus_write}
use iso_light_k.Hsm.Channel.Commands.{bus_read}
use iso_light_k.Hsm.Keeps.{Keeps, Keeps-refl, Keeps-trans, Keeps-IsValid, in_use}
use iso_light_k.Hsm.Channel.Keeps.{bus_read-Keeps, bus_write-After}
use iso_light_k.Hsm.Syscall.{
  cap_size, nesting_bound, read_cap, handle_detach, handle_enumerate, handle_write, handle_read,
  relay_write, relay_bytes, handle_relay, read_done, write_rax, relay_rax,
}

used :
    {W : Type 0} (m : Machine W) (cap : HsmCapability) (required : ℕ)
    → authenticate m.slots cap required ≡ true
    → is_empty (slot_at m.slots cap.slot) ≡ false
used m cap required good =
    in_use m.slots cap.slot ((authenticate_iff m.slots cap required).0 good).is_live

read_done-same :
    {W : Type 0} (memory : Memory) (ptr : ℕ) (x : Result BusError (List ℕ) × Machine W)
    → (read_done memory ptr x).1 ≡ x.1
unfolding read_done
read_done-same memory ptr (err e, m) = refl
read_done-same memory ptr (ok bytes, m) = refl

write_rax-same :
    {W : Type 0} (memory : Memory) (x : Result BusError ℕ × Machine W)
    → (write_rax memory x).1 ≡ x.1
write_rax-same memory (err e, m) = refl
write_rax-same memory (ok n, m) = refl

relay_rax-same :
    {W : Type 0} (byte_len : ℕ) (memory : Memory) (x : Result BusError ℕ × Machine W)
    → (relay_rax byte_len memory x).1 ≡ x.1
relay_rax-same byte_len memory (err e, m) = refl
relay_rax-same byte_len memory (ok n, m) = elim (Bool-cases (n == byte_len)) [
  | inl whole ↦ rw whole refl
  | inr part ↦ rw part refl
]

relay_write-Keeps :
    {W : Type 0} (c : Crypto) (dst byte_len : ℕ) (memory : Memory) (before : List HsmSlot)
    → IsValid before
    → (x : Result BusError (List ℕ) × Machine W) → Keeps before x.1.slots
    → After (λ o. Keeps before o.1.slots) (relay_write c dst byte_len memory x)
unfolding relay_write
relay_write-Keeps c dst byte_len memory before v (err e, m) k = k
relay_write-Keeps c dst byte_len memory before v (ok bytes, m) k =
    elim (Bool-cases (length bytes == byte_len)) [
      | inr part ↦ rw part k
      | inl whole ↦ rw whole (
          After->>= (λ x. Keeps m.slots x.1.slots) (λ o. Keeps before o.1.slots)
            (bus_write c nesting_bound dst bytes m) _
            (bus_write-After c nesting_bound dst bytes m (Keeps-IsValid before m.slots k v))
            (λ x h.
              rw (relay_rax-same byte_len memory x) (Keeps-trans before m.slots x.1.slots k h)))
    ]

module _ {W : Type 0} (m : Machine W) (memory : Memory) (v : IsValid m.slots) where
  pub handle_detach-IsValid : (ctx : SyscallContext) → IsValid (handle_detach ctx m memory).1.slots
  unfolding handle_detach
  handle_detach-IsValid ctx = elim (Bool-cases (ctx.arg2 == cap_size)) [
    | inr odd ↦ rw odd v
    | inl sized ↦ elim (Bool-cases (is_user_range ctx.arg0 ctx.arg2)) [
      | inr outside ↦ rw (sized, outside) v
      | inl there ↦ rw (sized, there) (detach-IsValid (read_cap memory ctx.arg0) revoke m v)
    ]
  ]

  pub handle_enumerate-same : (ctx : SyscallContext) → (handle_enumerate ctx m memory).1 ≡ m
  unfolding handle_enumerate
  handle_enumerate-same ctx = ground arith

  pub handle_read-Keeps : (ctx : SyscallContext) → Keeps m.slots (handle_read ctx m memory).1.slots
  unfolding handle_read
  handle_read-Keeps ctx =
      let cap = read_cap memory ctx.arg0 in
      elim (Bool-cases (ltb ctx.arg2 (wire_frame_max + 1) && ltb 15 ctx.arg2)) [
        | inr odd ↦ rw odd (Keeps-refl m.slots)
        | inl sized ↦ elim (Bool-cases (is_user_range ctx.arg0 cap_size)) [
          | inr outside ↦ rw (sized, outside) (Keeps-refl m.slots)
          | inl there ↦ elim (Bool-cases (is_user_range ctx.arg1 ctx.arg2)) [
            | inr outside ↦ rw (sized, there, outside) (Keeps-refl m.slots)
            | inl here ↦ elim (Bool-cases (authenticate m.slots cap allow_use)) [
              | inr bad ↦ rw (sized, there, here, bad) (Keeps-refl m.slots)
              | inl good ↦
                  rw (sized, there, here, good)
                    (rw (read_done-same memory ctx.arg1 (bus_read ctx.arg2 cap.slot m)) (
                      bus_read-Keeps m.slots ctx.arg2 cap.slot m (used m cap allow_use good)
                        (Keeps-refl m.slots)))
            ]
          ]
        ]
      ]

  pub handle_write-Keeps :
      (c : Crypto) (ctx : SyscallContext)
      → After (λ o. Keeps m.slots o.1.slots) (handle_write c ctx m memory)
  unfolding handle_write
  handle_write-Keeps c ctx =
      let cap = read_cap memory ctx.arg0 in
      let bytes = copy_from_user memory ctx.arg1 ctx.arg2 in
      elim (Bool-cases (ltb ctx.arg2 (chan_max + 1) && not (ctx.arg2 == 0))) [
        | inr odd ↦ rw odd (Keeps-refl m.slots)
        | inl sized ↦ elim (Bool-cases (is_user_range ctx.arg0 cap_size)) [
          | inr outside ↦ rw (sized, outside) (Keeps-refl m.slots)
          | inl there ↦ elim (Bool-cases (is_user_range ctx.arg1 ctx.arg2)) [
            | inr outside ↦ rw (sized, there, outside) (Keeps-refl m.slots)
            | inl here ↦ elim (Bool-cases (authenticate m.slots cap allow_use)) [
              | inr bad ↦ rw (sized, there, here, bad) (Keeps-refl m.slots)
              | inl good ↦
                  rw (sized, there, here, good)
                    (After->>= (λ x. Keeps m.slots x.1.slots) (λ o. Keeps m.slots o.1.slots)
                      (bus_write c nesting_bound cap.slot bytes m) _
                      (bus_write-After c nesting_bound cap.slot bytes m v)
                      (λ x k. rw (write_rax-same memory x) k))
            ]
          ]
        ]
      ]

  pub handle_relay-Keeps :
      (c : Crypto) (ctx : SyscallContext)
      → After (λ o. Keeps m.slots o.1.slots) (handle_relay c ctx m memory)
  unfolding handle_relay relay_bytes
  handle_relay-Keeps c ctx =
      let src = read_cap memory ctx.arg0 in
      let dst = read_cap memory ctx.arg1 in
      elim (Bool-cases (ltb ctx.arg2 (chan_max + 1) && not (ctx.arg2 == 0))) [
        | inr odd ↦ rw odd (Keeps-refl m.slots)
        | inl sized ↦ elim (Bool-cases (is_user_range ctx.arg0 cap_size)) [
          | inr outside ↦ rw (sized, outside) (Keeps-refl m.slots)
          | inl there ↦ elim (Bool-cases (is_user_range ctx.arg1 cap_size)) [
            | inr outside ↦ rw (sized, there, outside) (Keeps-refl m.slots)
            | inl here ↦
                elim (Bool-cases
                  (authenticate m.slots src relay_src && authenticate m.slots dst relay_dst)) [
                    | inr bad ↦ rw (sized, there, here, bad) (Keeps-refl m.slots)
                    | inl good ↦
                        let src_good : authenticate m.slots src relay_src ≡ true = ground arith in
                        rw (sized, there, here, good)
                          (relay_write-Keeps c dst.slot ctx.arg2 memory m.slots v
                            (bus_read ctx.arg2 src.slot m)
                            (bus_read-Keeps m.slots ctx.arg2 src.slot m
                              (used m src relay_src src_good) (Keeps-refl m.slots)))
                  ]
          ]
        ]
      ]
