-- ===== src/Hsm/Syscall/Called.antt =====
-- The table of slots (src/hsm_registry.rs) after any sequence of system calls, between which the
-- user changes its memory.
use iso_light_k.Common.{ℕ, List, ◌≡◌, refl, Bool, some, Option-cases, inl, inr, Result, ok, err}
use iso_light_k.Common.Partial.{After-result}
use iso_light_k.Syscall.{Memory, SyscallContext, copy_from_user}
use iso_light_k.Primitives.{Crypto, Random}
use iso_light_k.Bus.{BusKind}
use iso_light_k.Hsm.{
  Machine, HsmCapError, HsmCapability, attest_failed, full, bad_init, invalid_token, bad_slot,
  rights_missing, not_attached, busy, token_gen,
}
use iso_light_k.Hsm.Rights.{of_attach}
use iso_light_k.Hsm.Attest.{pk_of, pk_hash_prefix}
use iso_light_k.Hsm.Registry.{attach}
use iso_light_k.Hsm.Registry.Release.{IsValid, attach-IsValid}
use iso_light_k.Hsm.Keeps.{Keeps, Keeps-IsValid}
use iso_light_k.Hsm.Syscall.{
  Outcome, handle_detach, handle_enumerate, handle_write, handle_read, handle_relay,
}
use iso_light_k.Hsm.Syscall.Attach.{
  KindRequest, accepted, network_denied, not_a_kind, decode_kind, attach_args, audit_failure,
  finish_attach, run_attach, attach_request, handle_attach,
}
use iso_light_k.Hsm.Syscall.Keeps.{
  handle_detach-IsValid, handle_enumerate-same, handle_read-Keeps, handle_write-Keeps,
  handle_relay-Keeps,
}

module _ (c : Crypto) (rand : Random) where
  audit_failure-slots :
      (e : HsmCapError) (kind : BusKind) (prefix : List ℕ) (m : Machine rand.World)
      → (audit_failure e kind prefix m).slots ≡ m.slots
  unfolding audit_failure
  audit_failure-slots attest_failed kind prefix m = refl
  audit_failure-slots full kind prefix m = refl
  audit_failure-slots bad_init kind prefix m = refl
  audit_failure-slots invalid_token kind prefix m = refl
  audit_failure-slots bad_slot kind prefix m = refl
  audit_failure-slots rights_missing kind prefix m = refl
  audit_failure-slots not_attached kind prefix m = refl
  audit_failure-slots busy kind prefix m = refl
  audit_failure-slots token_gen kind prefix m = refl

  finish_attach-slots :
      (kind : BusKind) (prefix : List ℕ) (ptr : ℕ) (memory : Memory)
      (x : Result HsmCapError HsmCapability × Machine rand.World)
      → (finish_attach c rand kind prefix ptr memory x).1.slots ≡ x.1.slots
  unfolding finish_attach
  finish_attach-slots kind prefix ptr memory (err e, m) = audit_failure-slots e kind prefix m
  finish_attach-slots kind prefix ptr memory (ok cap, m) = refl

  run_attach-IsValid :
      (kind : BusKind) (ctx : SyscallContext) (m : Machine rand.World) (memory : Memory)
      → IsValid m.slots
      → IsValid (run_attach c rand kind ctx m memory).1.slots
  unfolding run_attach
  run_attach-IsValid kind ctx m memory v =
      let init = copy_from_user memory ctx.arg1 ctx.arg2 in
      let payload = copy_from_user memory ctx.arg3 ctx.arg5 in
      let prefix = pk_hash_prefix c (pk_of payload) in
      rw
        (finish_attach-slots kind prefix ctx.arg4 memory
          (attach c rand kind init (some payload) of_attach m))
        (attach-IsValid c rand kind init (some payload) of_attach m v)

  attach_request-IsValid :
      (k : KindRequest) (ctx : SyscallContext) (m : Machine rand.World) (memory : Memory)
      → IsValid m.slots
      → IsValid (attach_request c rand k ctx m memory).1.slots
  unfolding attach_request
  attach_request-IsValid not_a_kind ctx m memory v = v
  attach_request-IsValid network_denied ctx m memory v = v
  attach_request-IsValid (accepted kind) ctx m memory v = elim (Option-cases (attach_args ctx)) [
    | inr (f, bad) ↦ rw (bad, attach_request) v
    | inl good ↦ rw (good, attach_request) (run_attach-IsValid kind ctx m memory v)
  ]

  handle_attach-IsValid :
      (tls_external network_taken : Bool) (ctx : SyscallContext) (m : Machine rand.World)
      (memory : Memory)
      → IsValid m.slots
      → IsValid (handle_attach c rand tls_external network_taken ctx m memory).1.slots
  unfolding handle_attach
  handle_attach-IsValid tls_external network_taken ctx m memory v =
      attach_request-IsValid (decode_kind tls_external network_taken ctx.arg0) ctx m memory v

  -- What the machine can become by the calls of a user whose memory holds anything at each.
  pub data Called (start : Machine rand.World) : Machine rand.World → Type 0 where
    started : Called start start
    attach_call :
        (tls_external network_taken : Bool) (ctx : SyscallContext) (m : Machine rand.World)
        (memory : Memory)
        → Called start m
        → Called start (handle_attach c rand tls_external network_taken ctx m memory).1
    detach_call :
        (ctx : SyscallContext) (m : Machine rand.World) (memory : Memory)
        → Called start m
        → Called start (handle_detach ctx m memory).1
    enumerate_call :
        (ctx : SyscallContext) (m : Machine rand.World) (memory : Memory)
        → Called start m
        → Called start (handle_enumerate ctx m memory).1
    read_call :
        (ctx : SyscallContext) (m : Machine rand.World) (memory : Memory)
        → Called start m
        → Called start (handle_read ctx m memory).1
    write_call :
        (ctx : SyscallContext) (m : Machine rand.World) (memory : Memory) (o : Outcome rand.World)
        → handle_write c ctx m memory ≡ some o
        → Called start m
        → Called start o.1
    relay_call :
        (ctx : SyscallContext) (m : Machine rand.World) (memory : Memory) (o : Outcome rand.World)
        → handle_relay c ctx m memory ≡ some o
        → Called start m
        → Called start o.1

  -- Whatever sequence of the six calls a user makes, with any memory at each, on a machine whose
  -- table of slots is valid, the table stays valid: it has 8 slots, an empty one holds nothing of
  -- what was attached to it, and none is half detached.
  pub Called-IsValid :
      (start m : Machine rand.World) → IsValid start.slots → Called start m → IsValid m.slots
  Called-IsValid start m v started = v
  Called-IsValid start n v (attach_call tls_external network_taken ctx m memory r) =
      handle_attach-IsValid tls_external network_taken ctx m memory (Called-IsValid start m v r)
  Called-IsValid start n v (detach_call ctx m memory r) =
      handle_detach-IsValid m memory (Called-IsValid start m v r) ctx
  Called-IsValid start n v (enumerate_call ctx m memory r) =
      let w = Called-IsValid start m v r in rw (handle_enumerate-same m memory w ctx) w
  Called-IsValid start n v (read_call ctx m memory r) =
      let w = Called-IsValid start m v r in
      Keeps-IsValid m.slots _ (handle_read-Keeps m memory w ctx) w
  Called-IsValid start n v (write_call ctx m memory o e r) =
      let w = Called-IsValid start m v r in
      Keeps-IsValid m.slots o.1.slots
        (After-result (λ x. Keeps m.slots x.1.slots) (handle_write c ctx m memory) o
          (handle_write-Keeps m memory w c ctx) e)
        w
  Called-IsValid start n v (relay_call ctx m memory o e r) =
      let w = Called-IsValid start m v r in
      Keeps-IsValid m.slots o.1.slots
        (After-result (λ x. Keeps m.slots x.1.slots) (handle_relay c ctx m memory) o
          (handle_relay-Keeps m memory w c ctx) e)
        w
