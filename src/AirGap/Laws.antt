-- ===== src/AirGap/Laws.antt =====
-- The capabilities of src/air_gap.rs: each goes out once, and a boot that goes on has drawn them.
use iso_light_k.Common.{
  ℕ, ◌≡◌, ◌≢◌, refl, sym, ap, ◌∙◌, Bool, false, ◌&&◌, ltb, ◌==◌, ==_iff, Bool-cases, inl, inr, some,
  arith,
}
use iso_light_k.Syscall.{Memory, SyscallContext, denied, as_rax, is_user_range, copy_to_user}
use iso_light_k.Bus.{BusKind, software}
use iso_light_k.Hsm.{HsmCapability, capability_bytes, Machine}
use iso_light_k.AirGap.{
  NetCapState, provisioned, taken, OneShot, AirGap, hand_over, take_cap, take_audit_read_cap,
  gap_self_check, handle_status, gap_status_len,
}

-- Handing over succeeds from one state only, which it leaves.
hand_over_once :
    {W : Type 0} (marker : ℕ) (kind : BusKind) (cap : HsmCapability) (x : NetCapState) (out_ptr : ℕ)
    (m : Machine W) (memory : Memory)
    → (hand_over marker kind cap x out_ptr m memory).0 ≡ 0
    → (x ≡ provisioned)
      × ((hand_over marker kind cap x out_ptr m memory).1 ≡ record { cap = cap; state = taken })
      × ((hand_over marker kind cap x out_ptr m memory).3
          ≡ copy_to_user memory out_ptr (capability_bytes cap))
unfolding hand_over
hand_over_once marker kind cap provisioned out_ptr m memory h = (refl, refl, refl)
hand_over_once marker kind cap taken out_ptr m memory h = absurd (ground arith)

take_cap_once :
    {W : Type 0} (marker : ℕ) (kind : BusKind) (s : OneShot) (out_ptr : ℕ) (m : Machine W)
    (memory : Memory)
    → (take_cap marker kind s out_ptr m memory).0 ≡ 0
    → (s.state ≡ provisioned)
      × ((take_cap marker kind s out_ptr m memory).1 ≡ record { cap = s.cap; state = taken })
      × ((take_cap marker kind s out_ptr m memory).3
          ≡ copy_to_user memory out_ptr (capability_bytes s.cap))
unfolding take_cap
take_cap_once marker kind s out_ptr m memory h = elim (Bool-cases (is_user_range out_ptr 16)) [
  | inr outside ↦ absurd (fails outside)
  | inl there ↦
      rw there
        (hand_over_once marker kind s.cap s.state out_ptr m memory (rw (there, take_cap) at h))
]
  where
    fails : is_user_range out_ptr 16 ≡ false → ⊥
    fails outside = let e : as_rax denied ≡ 0 = rw (outside, take_cap) at h in ground arith

-- What is taken is refused from then on, and the memory stays.
take_cap_refused :
    {W : Type 0} (marker : ℕ) (kind : BusKind) (s : OneShot) (out_ptr : ℕ) (m : Machine W)
    (memory : Memory)
    → s.state ≡ taken
    → ((take_cap marker kind s out_ptr m memory).0 ≡ as_rax denied)
      × ((take_cap marker kind s out_ptr m memory).1.state ≡ taken)
      × ((take_cap marker kind s out_ptr m memory).3 ≡ memory)
unfolding take_cap hand_over
take_cap_refused marker kind s out_ptr m memory e = elim (Bool-cases (is_user_range out_ptr 16)) [
  | inl there ↦ simp (there, e) (refl, refl, refl)
  | inr outside ↦ simp (outside, e) (refl, refl, refl)
]

-- Where a call to take the capability for the audit ring returns 0, the bytes of the capability
-- are at the address asked for; every later call, with the capability's state as this call left
-- it, is denied and changes no memory.
pub take_audit_read_cap_once :
    {W : Type 0} (ctx later : SyscallContext) (g h : AirGap W) (memory memory' : Memory)
    → (take_audit_read_cap ctx g memory).0 ≡ 0
    → h.audit_read ≡ (take_audit_read_cap ctx g memory).1.audit_read
    → ((take_audit_read_cap ctx g memory).2
        ≡ copy_to_user memory ctx.arg0 (capability_bytes g.audit_read.cap))
      × ((take_audit_read_cap later h memory').0 ≡ as_rax denied)
      × ((take_audit_read_cap later h memory').2 ≡ memory')
unfolding take_audit_read_cap
take_audit_read_cap_once ctx later g h memory memory' zero_rax same =
    let (was, now, bytes) =
      take_cap_once 253 software g.audit_read ctx.arg0 g.machine memory zero_rax in
    let gone : h.audit_read.state ≡ taken = ap OneShot.state (same ∙ now) in
    let (denied_now, still, untouched) =
      take_cap_refused 253 software h.audit_read later.arg0 h.machine memory' gone in
    (bytes, denied_now, untouched)

-- A report is written only for the token of the capability.
pub handle_status_token :
    {W : Type 0} (ctx : SyscallContext) (g : AirGap W) (memory : Memory)
    → (handle_status ctx g memory).0 ≡ 0
    → ctx.arg2 ≡ g.audit_read.cap.token
unfolding handle_status
handle_status_token ctx g memory h = elim (Bool-cases (g.audit_read.cap.token == ctx.arg2)) [
  | inl same ↦ sym ((==_iff g.audit_read.cap.token ctx.arg2).0 same)
  | inr other ↦ absurd (fails other)
]
  where
    fails : (g.audit_read.cap.token == ctx.arg2) ≡ false → ⊥
    fails other = elim (Bool-cases (ltb ctx.arg1 gap_status_len)) [
      | inl short ↦ let e : as_rax denied ≡ 0 = rw (short, handle_status) at h in ground arith
      | inr long ↦ let e : as_rax denied ≡ 0 = rw (long, other, handle_status) at h in ground arith
    ]

-- Where the self check does not stop the boot, it changes nothing, the token of the capability for
-- the audit ring is not 0, and in a build with `tls-external` neither is that of the network
-- capability.
pub gap_self_check_tokens :
    {W : Type 0} (tls_external : Bool) (g g' : AirGap W)
    → gap_self_check tls_external g ≡ some g'
    → (g' ≡ g)
      × (g.audit_read.cap.token ≢ 0)
      × ((tls_external && g.network_attach.cap.token == 0) ≡ false)
unfolding gap_self_check
gap_self_check_tokens tls_external g g' h = (ground arith, λ z. ground arith, ground arith)
