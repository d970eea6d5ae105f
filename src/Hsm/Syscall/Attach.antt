-- ===== src/Hsm/Syscall/Attach.antt =====
-- src/hsm_registry.rs: the handler of the system call that attaches a module.
use iso_light_k.Common.{
  ℕ, Bool, not, ◌&&◌, ltb, ◌==◌, if◌then◌else◌, Option, none, some, List, replicate, Result, ok,
  err,
}
use iso_light_k.Syscall.{
  Memory, SyscallError, bad_arg, bad_address, denied, as_rax, SyscallContext, is_user_range,
  copy_from_user, copy_to_user,
}
use iso_light_k.Syscall
use iso_light_k.Audit.{audit_enqueue}
use iso_light_k.Primitives.{Crypto, Random}
use iso_light_k.Bus.{BusKind, software, ring3_process, network, kind_octet, max_bus_init_blob}
use iso_light_k.Hsm.{
  HsmCapError, attest_failed, full, bad_init, HsmCapability, capability_bytes, Machine,
}
use iso_light_k.Hsm.Rights.{of_attach}
use iso_light_k.Hsm.Attest.{pk_of, pk_hash_prefix}
use iso_light_k.Hsm.Registry.{attach}
use iso_light_k.Hsm.Syscall.{cap_size, attest_exact, Outcome, fail}

-- What the first argument of an attach asks for.
pub data KindRequest : Type 0 where
  accepted : BusKind → KindRequest
  network_denied not_a_kind : KindRequest

-- The network is open only to a build with the feature `tls-external` whose capability was taken.
unfoldable pub decode_kind : Bool → Bool → ℕ → KindRequest
decode_kind tls_external network_taken raw =
    if raw == 0
    then accepted software
    else if raw == 1
    then accepted ring3_process
    else if raw == 6
    then (if tls_external && network_taken then accepted network else network_denied)
    else not_a_kind

-- The error that each failure of an attach becomes.
unfoldable pub attach_error : HsmCapError → SyscallError
attach_error attest_failed = denied
attach_error full = bad_arg
attach_error bad_init = bad_arg
attach_error e = Syscall.internal

-- The event that a failed attach leaves: only a failed attestation leaves one.
unfoldable pub audit_failure : {W : Type 0} → HsmCapError → BusKind → List ℕ → Machine W → Machine W
unfolding audit_enqueue
audit_failure attest_failed kind prefix m = record m {
  audit = audit_enqueue m.audit 255 1 (kind_octet kind) prefix;
}
audit_failure e kind prefix m = m

-- Whether the lengths and the pointers of an attach are as they must be.
unfoldable pub attach_args : SyscallContext → Option SyscallError
unfolding is_user_range
attach_args ctx =
    if ltb max_bus_init_blob ctx.arg2
    then some bad_arg
    else if not (ctx.arg5 == attest_exact)
    then some bad_arg
    else if ltb 0 ctx.arg2 && not (is_user_range ctx.arg1 ctx.arg2)
    then some bad_address
    else if not (is_user_range ctx.arg4 cap_size)
    then some bad_address
    else if not (is_user_range ctx.arg3 ctx.arg5)
    then some bad_address
    else none

module _ (c : Crypto) (rand : Random) where
  -- The end of an attach, by its result.
  unfoldable pub finish_attach :
      BusKind
      → List ℕ
      → ℕ
      → Memory
      → Result HsmCapError HsmCapability × Machine rand.World
      → Outcome rand.World
  unfolding audit_enqueue audit_failure attach_error capability_bytes copy_to_user
  finish_attach kind prefix out_ptr memory (err e, m) =
      fail (attach_error e) (audit_failure e kind prefix m) memory
  finish_attach kind prefix out_ptr memory (ok cap, m) = (
    0,
    record m { audit = audit_enqueue m.audit cap.slot 0 (kind_octet kind) prefix },
    copy_to_user memory out_ptr (capability_bytes cap),
  )

  -- The call once its arguments are checked.
  unfoldable pub run_attach :
      BusKind → SyscallContext → Machine rand.World → Memory → Outcome rand.World
  unfolding pk_of pk_hash_prefix attach finish_attach copy_from_user
  run_attach kind ctx m memory =
      let init = copy_from_user memory ctx.arg1 ctx.arg2 in
      let payload = copy_from_user memory ctx.arg3 ctx.arg5 in
      let prefix = pk_hash_prefix c (pk_of payload) in
      finish_attach kind prefix ctx.arg4 memory (attach c rand kind init (some payload) of_attach m)

  -- The call once its first argument is decoded.
  unfoldable pub attach_request :
      KindRequest → SyscallContext → Machine rand.World → Memory → Outcome rand.World
  unfolding attach_args run_attach audit_enqueue
  attach_request not_a_kind ctx m memory = fail bad_arg m memory
  attach_request network_denied ctx m memory =
      fail denied (record m { audit = audit_enqueue m.audit 255 2 6 (replicate 4 0) }) memory
  attach_request (accepted kind) ctx m memory = elim (attach_args ctx) [
    | some e ↦ fail e m memory
    | none ↦ run_attach kind ctx m memory
  ]

  unfoldable pub handle_attach :
      Bool → Bool → SyscallContext → Machine rand.World → Memory → Outcome rand.World
  unfolding decode_kind attach_request
  handle_attach tls_external network_taken ctx m memory =
      attach_request (decode_kind tls_external network_taken ctx.arg0) ctx m memory
