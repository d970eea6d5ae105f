-- ===== src/Hsm/Channel/Total.antt =====
-- The nesting of writes (src/bus.rs) ends: each nested frame is shorter than the one around it.
use iso_light_k.Common.{
  ℕ, zero, suc, ◌+◌, ◌<◌, refl, ltb, Bool-cases, inl, inr, Option, none, some, List, length, take,
  drop, length-take, length-drop, ◌*◌, Result, arith,
}
use iso_light_k.Common.Partial.{Returns, Returns->>=}
use iso_light_k.Primitives.{Crypto}
use iso_light_k.Wire.{WireFrameHeader, parse_header}
use iso_light_k.Bus.{BusError}
use iso_light_k.Bus.Ring3.{Ring3ProcessBus}
use iso_light_k.Bus.Instance.{
  BusInstance, software_bus, ring3_bus, empty_bus, usb_bus, spi_bus, serial_bus, smart_card_bus,
  network_bus,
}
use iso_light_k.Hsm.{Machine, capability_of}
use iso_light_k.Hsm.Channel.{
  answer, dispatch, ring3_refusal, ring3_serve, ring3_write, write_instance, bus_write,
}
use iso_light_k.Hsm.Channel.Commands.{bus_at, digest_of, handle_blake3}

module _ {W : Type 0} (c : Crypto)
    (write : ℕ → List ℕ → Machine W → Option (Result BusError ℕ × Machine W)) (bound : ℕ)
    (shorter : (i : ℕ) (b : List ℕ) (m : Machine W)
      → length b < bound
      → Returns (write i b m)) where
  handle_blake3-Returns :
      (idx req_id : ℕ) (payload : List ℕ) (m : Machine W)
      → length payload < bound + 16
      → Returns (handle_blake3 write idx req_id payload m)
  unfolding handle_blake3 digest_of
  handle_blake3-Returns idx req_id payload m l =
      let slot = (capability_of (take 16 payload)).slot in
      let input = drop 16 payload in
      elim (Bool-cases (ltb (length payload) 16)) [
        | inl short ↦ rw short refl
        | inr long ↦
            let nested = shorter slot input m (ground (arith, length-drop 16 payload)) in
            ground (arith, nested)
      ]

  dispatch-Returns :
      (idx : ℕ) (hdr : WireFrameHeader) (payload : List ℕ) (m : Machine W)
      → length payload < bound + 16
      → Returns (dispatch c write idx hdr payload m)
  unfolding dispatch
  dispatch-Returns idx hdr payload m l =
      ground (arith, handle_blake3-Returns idx hdr.req_id payload m l)

  ring3_serve-Returns :
      (idx : ℕ) (p : Ring3ProcessBus) (bytes : List ℕ) (m : Machine W) (o : Option BusError)
      → length bytes < bound + 16
      → Returns (ring3_serve c write idx p bytes m o)
  unfolding ring3_serve
  ring3_serve-Returns idx p bytes m (some e) l = refl
  ring3_serve-Returns idx p bytes m none l =
      let hdr = parse_header (take 16 bytes) in
      let payload = take hdr.payload_len (drop 16 bytes) in
      let small : length payload < bound + 16 =
        omega (arith, length-take hdr.payload_len (drop 16 bytes), length-drop 16 bytes) in
      Returns->>= (dispatch c write idx hdr payload m) (answer idx p (length bytes))
        (dispatch-Returns idx hdr payload m small)

  write_instance-Returns :
      (idx : ℕ) (bus : BusInstance) (bytes : List ℕ) (m : Machine W)
      → length bytes < bound + 16
      → Returns (write_instance c write idx bus bytes m)
  unfolding write_instance ring3_write
  write_instance-Returns idx (software_bus s) bytes m l = refl
  write_instance-Returns idx (ring3_bus p) bytes m l =
      ring3_serve-Returns idx p bytes m (ring3_refusal p bytes) l
  write_instance-Returns idx empty_bus bytes m l = refl
  write_instance-Returns idx usb_bus bytes m l = refl
  write_instance-Returns idx spi_bus bytes m l = refl
  write_instance-Returns idx serial_bus bytes m l = refl
  write_instance-Returns idx smart_card_bus bytes m l = refl
  write_instance-Returns idx network_bus bytes m l = refl

-- A write to the bus of a slot returns within any depth of nested writes that, times 16, exceeds
-- the length of the frame.
pub bus_write-Returns :
    {W : Type 0} (c : Crypto) (fuel idx : ℕ) (bytes : List ℕ) (m : Machine W)
    → length bytes < fuel * 16
    → Returns (bus_write c fuel idx bytes m)
unfolding bus_write
bus_write-Returns c zero idx bytes m l = absurd (omega arith)
bus_write-Returns c (suc fuel) idx bytes m l =
    write_instance-Returns c (bus_write c fuel) (fuel * 16)
      (λ i b m k. bus_write-Returns c fuel i b m k) idx (bus_at m idx) bytes m (omega arith)
