-- ===== src/Hsm/Syscall/Tests.antt =====
-- System calls on the machine of `Hsm.Setup`, with a memory of zeros.
use iso_light_k.Common.{ℕ, ◌≡◌, refl, false, some}
use iso_light_k.Common.Bytes.{little_endian}
use iso_light_k.Syscall.{Memory, SyscallContext, copy_from_user}
use iso_light_k.Bus.{BusKind}
use iso_light_k.Hsm.{Machine, capability_of}
use iso_light_k.Hsm.Setup.{crypto, random, booted, one_attached}
use iso_light_k.Hsm.Tests.{booted-IsValid}
use iso_light_k.Hsm.Registry.{attach, authenticate}
use iso_light_k.Hsm.Registry.Release.{IsValid}
use iso_light_k.Hsm.Registry.Stored.{IsAttested}
use iso_light_k.Hsm.Syscall.{
  Outcome, handle_detach, handle_enumerate, handle_write, handle_read, handle_relay,
}
use iso_light_k.Hsm.Syscall.Attach.{accepted, decode_kind, handle_attach}
use iso_light_k.Hsm.Syscall.Guards.{IsRefused, unauthenticated-IsRefused}
use iso_light_k.Hsm.Syscall.Called.{started, attach_call, Called-IsValid}
use iso_light_k.Hsm.Syscall.Gate.{handle_attach_gate}

abbrev zeros : Memory
zeros = λ a. 0

-- 16 bytes at 8192 to write, and a capability of zeros at 4096.
abbrev write_context : SyscallContext
write_context = record {
  num = 10;
  arg0 = 4096;
  arg1 = 8192;
  arg2 = 16;
  arg3 = 0;
  arg4 = 0;
  arg5 = 0;
}

unauthenticated-IsRefused_example :
    IsRefused one_attached zeros (handle_enumerate write_context one_attached zeros)
    × IsRefused one_attached zeros (handle_detach write_context one_attached zeros)
    × IsRefused one_attached zeros (handle_read write_context one_attached zeros)
    × ((o : Outcome ℕ) × (handle_write crypto write_context one_attached zeros ≡ some o)
        × IsRefused one_attached zeros o)
    × ((o : Outcome ℕ) × (handle_relay crypto write_context one_attached zeros ≡ some o)
        × IsRefused one_attached zeros o)
unfolding authenticate capability_of copy_from_user little_endian attach
unauthenticated-IsRefused_example =
    unauthenticated-IsRefused one_attached zeros crypto write_context refl refl refl refl

-- A signed module at 12288 attaches with an empty blob; its capability goes to 8192.
abbrev attach_context : SyscallContext
attach_context = record {
  num = 7;
  arg0 = 0;
  arg1 = 0;
  arg2 = 0;
  arg3 = 12288;
  arg4 = 8192;
  arg5 = 3732;
}

abbrev attached_machine : Machine ℕ
attached_machine = (handle_attach crypto random false false attach_context booted zeros).1

Called-IsValid_example : IsValid attached_machine.slots
Called-IsValid_example =
    Called-IsValid crypto random booted attached_machine booted-IsValid
      (attach_call false false attach_context booted zeros started)

handle_attach_gate_example :
    (kind : BusKind) × (decode_kind false false attach_context.arg0 ≡ accepted kind)
    × IsAttested crypto random booted kind (copy_from_user zeros 12288 3732)
unfolding handle_attach copy_from_user
handle_attach_gate_example =
    handle_attach_gate crypto random attach_context booted zeros false false refl
