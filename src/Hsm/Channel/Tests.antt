-- ===== src/Hsm/Channel/Tests.antt =====
-- A frame that is written to the process of `Hsm.Setup`.
use iso_light_k.Common.{
  ℕ, ◌≡◌, ◌≢◌, ◌↔◌, refl, true, Option, some, none, List, [], ◌∷◌, length, Result, ok, arith,
}
use iso_light_k.Common.Bytes.{little_endian}
use iso_light_k.Common.Partial.{Returns}
use iso_light_k.Wire.{parse_header}
use iso_light_k.Bus.{BusError}
use iso_light_k.Bus.Ring3
use iso_light_k.Bus.Ring3.{Ring3ProcessBus}
use iso_light_k.Bus.Instance.{BusInstance, ring3_bus}
use iso_light_k.Ipc.Registry
use iso_light_k.Hsm.{Machine, HsmCapability}
use iso_light_k.Hsm.Setup.{crypto, booted, two_attached}
use iso_light_k.Hsm.Registry.{attach, authenticate}
use iso_light_k.Hsm.Registry.Release.{IsValid}
use iso_light_k.Hsm.Tests.{two-IsValid}
use iso_light_k.Hsm.Channel.{bus_write, answer}
use iso_light_k.Hsm.Channel.Commands.{bus_at}
use iso_light_k.Hsm.Channel.Total.{bus_write-Returns}
use iso_light_k.Hsm.Channel.Sizes.{ArePrefixed}
use iso_light_k.Hsm.Channel.Keeps.{bus_write-IsValid}
use iso_light_k.Hsm.Channel.Reply.{IsAnswered, bus_write-IsAnswered}

-- A ping with the number 9.
abbrev ping_frame : List ℕ
ping_frame = 76 ∷ 87 ∷ 75 ∷ 48 ∷ 1 ∷ 0 ∷ 1 ∷ 0 ∷ 9 ∷ 0 ∷ 0 ∷ 0 ∷ 0 ∷ 0 ∷ 0 ∷ 0 ∷ []

abbrev machine_of : Option (Result BusError ℕ × Machine ℕ) → Machine ℕ
machine_of none = booted
machine_of (some (r, m)) = m

abbrev process_of : BusInstance → Ring3ProcessBus
process_of (ring3_bus p) = p
process_of b = Ring3.new

abbrev idle_process : Ring3ProcessBus
idle_process = process_of (bus_at two_attached 1)

abbrev pinged : Machine ℕ
pinged = machine_of (bus_write crypto 2 1 ping_frame two_attached)

abbrev busy_process : Ring3ProcessBus
busy_process = process_of (bus_at pinged 1)

pinged_lem : bus_write crypto 2 1 ping_frame two_attached ≡ some (ok 16, pinged)
unfolding bus_write answer attach little_endian Registry.init
pinged_lem = refl

bus_write-Returns_example : Returns (bus_write crypto 2 1 ping_frame two_attached)
bus_write-Returns_example = bus_write-Returns crypto 2 1 ping_frame two_attached (omega arith)

bus_write-IsValid_example :
    IsValid pinged.slots
    × ((cap : HsmCapability) (required : ℕ)
        → (authenticate pinged.slots cap required ≡ true)
          ↔ (authenticate two_attached.slots cap required ≡ true))
bus_write-IsValid_example =
    bus_write-IsValid crypto 2 1 ping_frame two_attached pinged (ok 16) two-IsValid pinged_lem

idle_process_lem : bus_at two_attached 1 ≡ ring3_bus idle_process
unfolding attach little_endian Registry.init
idle_process_lem = refl

two-ArePrefixed : ArePrefixed two_attached.audit.events
unfolding attach little_endian Registry.init
two-ArePrefixed = omega arith

bus_write-IsAnswered_example :
    (16 ≡ length ping_frame) × IsAnswered 1 ping_frame idle_process pinged
unfolding parse_header little_endian attach Registry.init
bus_write-IsAnswered_example =
    bus_write-IsAnswered crypto 1 1 ping_frame two_attached idle_process 16 pinged two-IsValid
      two-ArePrefixed (omega arith) idle_process_lem (omega arith) pinged_lem

busy_process_lem : bus_at pinged 1 ≡ ring3_bus busy_process
unfolding bus_write answer attach little_endian Registry.init
busy_process_lem = refl

busy_process-response : busy_process.response_len ≢ 0
unfolding bus_write answer attach little_endian Registry.init
busy_process-response = λ e. absurd (omega arith)
