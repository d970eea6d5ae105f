-- ===== src/Hsm/Syscall/Gate.antt =====
-- `handle_attach` (src/hsm_registry.rs): only what the trust root has signed is attached.
use iso_light_k.Common.{
  ℕ, ◌≡◌, ◌≢◌, refl, Bool, some, Option-cases, inl, inr, List, Result, ok, err, arith,
}
use iso_light_k.Syscall.{
  Memory, SyscallError, unknown, bad_arg, bad_address, denied, no_message, internal, as_rax,
  SyscallContext, copy_from_user,
}
use iso_light_k.Primitives.{Crypto, Random}
use iso_light_k.Bus.{BusKind}
use iso_light_k.Hsm.{Machine, HsmCapError, HsmCapability}
use iso_light_k.Hsm.Rights.{of_attach}
use iso_light_k.Hsm.Attest.{pk_of, pk_hash_prefix}
use iso_light_k.Hsm.Registry.{attach}
use iso_light_k.Hsm.Registry.Stored.{IsAttested, attach-IsAttested}
use iso_light_k.Hsm.Syscall.Attach.{
  KindRequest, accepted, network_denied, not_a_kind, decode_kind, attach_args, attach_error,
  finish_attach, run_attach, attach_request, handle_attach,
}

as_rax-ne-zero : (e : SyscallError) → as_rax e ≢ 0
as_rax-ne-zero unknown = λ h. ground arith
as_rax-ne-zero bad_arg = λ h. ground arith
as_rax-ne-zero bad_address = λ h. ground arith
as_rax-ne-zero denied = λ h. ground arith
as_rax-ne-zero no_message = λ h. ground arith
as_rax-ne-zero internal = λ h. ground arith

module _ (c : Crypto) (rand : Random) (ctx : SyscallContext) (m : Machine rand.World)
    (memory : Memory) where
  -- The trust root has signed the payload for the transport that is asked for.
  abbrev Signed : KindRequest → Type 0
  Signed k =
      (kind : BusKind) × (k ≡ accepted kind)
      × IsAttested c rand m kind (copy_from_user memory ctx.arg3 ctx.arg5)

  finish_attach-Signed :
      (kind : BusKind) (init prefix : List ℕ) (r : Result HsmCapError HsmCapability)
      (m' : Machine rand.World)
      → attach c rand kind init (some (copy_from_user memory ctx.arg3 ctx.arg5)) of_attach m
        ≡ (r, m')
      → (finish_attach c rand kind prefix ctx.arg4 memory (r, m')).0 ≡ 0
      → Signed (accepted kind)
  unfolding finish_attach
  finish_attach-Signed kind init prefix (err e) m' at h = absurd (as_rax-ne-zero (attach_error e) h)
  finish_attach-Signed kind init prefix (ok cap) m' at h =
      let payload = copy_from_user memory ctx.arg3 ctx.arg5 in
      (kind, refl, attach-IsAttested c rand kind init payload of_attach m cap m' at)

  attach_request-Signed :
      (k : KindRequest) → (attach_request c rand k ctx m memory).0 ≡ 0 → Signed k
  unfolding attach_request run_attach
  attach_request-Signed not_a_kind h = absurd (as_rax-ne-zero bad_arg h)
  attach_request-Signed network_denied h = absurd (as_rax-ne-zero denied h)
  attach_request-Signed (accepted kind) h = elim (Option-cases (attach_args ctx)) [
    | inr (e, bad) ↦ absurd (as_rax-ne-zero e (rw (bad, attach_request) at h))
    | inl good ↦
        let init = copy_from_user memory ctx.arg1 ctx.arg2 in
        let payload = copy_from_user memory ctx.arg3 ctx.arg5 in
        finish_attach-Signed kind init (pk_hash_prefix c (pk_of payload))
          (attach c rand kind init (some payload) of_attach m).0
          (attach c rand kind init (some payload) of_attach m).1 refl
          (rw (good, attach_request) at h)
  ]

  -- Where `handle_attach` returns 0, the payload in the user's memory has the length of a key and
  -- a signature, and ML-DSA accepts its signature, under the trust root and the enrolment context,
  -- for the digest of its key, of the octet of the transport that the first argument asks for and
  -- of the challenge of this boot.
  pub handle_attach_gate :
      (tls_external network_taken : Bool)
      → (handle_attach c rand tls_external network_taken ctx m memory).0 ≡ 0
      → (kind : BusKind) × (decode_kind tls_external network_taken ctx.arg0 ≡ accepted kind)
        × IsAttested c rand m kind (copy_from_user memory ctx.arg3 ctx.arg5)
  unfolding handle_attach
  handle_attach_gate tls_external network_taken h =
      attach_request-Signed (decode_kind tls_external network_taken ctx.arg0) h
