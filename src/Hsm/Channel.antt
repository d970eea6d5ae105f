-- ===== src/Hsm/Channel.antt =====
-- src/bus.rs: the dispatch of a frame that is written to a Ring 3 process, and `write` of every bus.
-- A request for a digest authenticates against the registry and writes to another slot's bus, or
-- to its own: both are slots of one machine, and the caller's response buffer is that slot's when
-- the nested calls are done. `none` is a nesting deeper than the fuel.

pub mod Commands
pub mod Total
mod Tests
pub mod Keeps
pub mod Sizes
pub mod Frames
pub mod Reply
use iso_light_k.Common.{
  ℕ, zero, suc, ◌+◌, ◌%◌, ◌^◌, bit_and, Bool, true, false, not, ◌&&◌, ◌||◌, ltb, leb, ◌==◌,
  if◌then◌else◌, Option, none, some, List, [], ◌∷◌, ◌++◌, length, take, drop, Result, ok, err,
}
use iso_light_k.Common.Partial.{◌>>=◌}
use iso_light_k.Common.Bytes.{little_endian, to_le_bytes}
use iso_light_k.Audit.{EnrollEvent, audit_ring_capacity, audit_enqueue, audit_snapshot}
use iso_light_k.Primitives.{Crypto}
use iso_light_k.Wire.{
  WireFrameHeader, WireCmd, ping, blake3_hash, attest_submit, status_request, error, success,
  bad_frame, unknown_cmd, denied, internal, wire_frame_max, wire_payload_max, wire_magic,
  wire_version, wire_cmd_response_bit, cmd_code, parse_header, build_response_frame,
  build_error_frame_inplace, handle_ping,
}
use iso_light_k.Bus.{BusKind, software, ring3_process, BusError, not_open, not_implemented}
use iso_light_k.Bus
use iso_light_k.Bus.Software
use iso_light_k.Bus.Ring3.{Ring3ProcessBus}
use iso_light_k.Bus.Instance
use iso_light_k.Bus.Instance.{BusInstance, empty_bus, software_bus, ring3_bus}
use iso_light_k.Hsm.{HsmCapability, capability_of, Machine, slot_at, set_bus, hsm_max_slots}
use iso_light_k.Hsm.Rights.{allow_use}
use iso_light_k.Hsm.Attest.{pk_len, sig_len, AttestError, verify_attest, pk_hash_prefix}
use iso_light_k.Hsm.Registry.{authenticate}
use iso_light_k.Hsm.Channel.Commands.{
  Frame, attest_check, attest_octet, attest_reply, bus_at, bus_read, digest_frame, digest_of,
  event_bytes, events_bytes, handle_attest_submit, handle_blake3, handle_status, octet_kind,
  put_bus, read_digest, response_buffer, status_payload, wire_attest_len,
}

-- The checks of the header against the bytes of the frame.
unfoldable pub is_request : WireFrameHeader → List ℕ → Bool
is_request hdr bytes =
    little_endian hdr.magic == little_endian wire_magic
    && hdr.version == wire_version
    && leb (hdr.payload_len + 16) (length bytes)
    && leb hdr.payload_len wire_payload_max
    && bit_and hdr.cmd wire_cmd_response_bit == 0
    && not (hdr.cmd == cmd_code error)

unfoldable pub dispatch :
    {W : Type 0}
    → Crypto
    → (ℕ → List ℕ → Machine W → Option (Result BusError ℕ × Machine W))
    → ℕ
    → WireFrameHeader
    → List ℕ
    → Machine W
    → Option (Frame × Machine W)
unfolding handle_ping handle_blake3 handle_attest_submit handle_status build_error_frame_inplace
dispatch c write idx hdr payload m =
    let out = response_buffer m idx in
    if hdr.cmd == cmd_code ping
    then some (handle_ping hdr.req_id out, m)
    else if hdr.cmd == cmd_code blake3_hash
    then handle_blake3 write idx hdr.req_id payload m
    else if hdr.cmd == cmd_code attest_submit
    then some (handle_attest_submit c idx hdr.req_id payload m)
    else if hdr.cmd == cmd_code status_request
    then some (handle_status idx hdr.req_id payload m, m)
    else some (build_error_frame_inplace hdr.req_id unknown_cmd out, m)

-- The response is stored; the calls in between leave the endpoint and the open state.
unfoldable pub answer :
    {W : Type 0} → ℕ → Ring3ProcessBus → ℕ → Frame × Machine W → Result BusError ℕ × Machine W
answer idx p n (frame, m) = (
  ok n,
  put_bus idx (ring3_bus (record p { pending_response = frame.1; response_len = frame.0 % 2 ^ 16 }))
      m,
)

-- Why a frame is refused before its command is looked at.
unfoldable pub ring3_refusal : Ring3ProcessBus → List ℕ → Option BusError
unfolding parse_header is_request
ring3_refusal p bytes =
    if not p.open_state
    then some not_open
    else if ltb (length bytes) 16 || ltb wire_frame_max (length bytes)
    then some Bus.internal
    else if not (p.response_len == 0)
    then some Bus.internal
    else if not (is_request (parse_header (take 16 bytes)) bytes)
    then some Bus.internal
    else none

unfoldable pub ring3_serve :
    {W : Type 0}
    → Crypto
    → (ℕ → List ℕ → Machine W → Option (Result BusError ℕ × Machine W))
    → ℕ
    → Ring3ProcessBus
    → List ℕ
    → Machine W
    → Option BusError
    → Option (Result BusError ℕ × Machine W)
unfolding parse_header dispatch answer
ring3_serve c write idx p bytes m (some e) = some (err e, m)
ring3_serve c write idx p bytes m none =
    let hdr = parse_header (take 16 bytes) in
    dispatch c write idx hdr (take hdr.payload_len (drop 16 bytes)) m >>= λ x.
    some (answer idx p (length bytes) x)

-- `write` of a Ring 3 process.
unfoldable pub ring3_write :
    {W : Type 0}
    → Crypto
    → (ℕ → List ℕ → Machine W → Option (Result BusError ℕ × Machine W))
    → ℕ
    → Ring3ProcessBus
    → List ℕ
    → Machine W
    → Option (Result BusError ℕ × Machine W)
unfolding ring3_refusal ring3_serve
ring3_write c write idx p bytes m = ring3_serve c write idx p bytes m (ring3_refusal p bytes)

unfoldable pub write_instance :
    {W : Type 0}
    → Crypto
    → (ℕ → List ℕ → Machine W → Option (Result BusError ℕ × Machine W))
    → ℕ
    → BusInstance
    → List ℕ
    → Machine W
    → Option (Result BusError ℕ × Machine W)
unfolding Software.write ring3_write
write_instance c write idx (software_bus s) bytes m =
    let (r, s') = Software.write c bytes s in some (r, put_bus idx (software_bus s') m)
write_instance c write idx (ring3_bus p) bytes m = ring3_write c write idx p bytes m
write_instance c write idx empty_bus bytes m = some (err not_open, m)
write_instance c write idx bus bytes m = some (err not_implemented, m)

-- `write` of the bus of a slot.
unfoldable pub bus_write :
    {W : Type 0} → Crypto → ℕ → ℕ → List ℕ → Machine W → Option (Result BusError ℕ × Machine W)
unfolding write_instance
bus_write c zero idx bytes m = none
bus_write c (suc fuel) idx bytes m = write_instance c (bus_write c fuel) idx (bus_at m idx) bytes m
