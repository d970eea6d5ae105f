-- ===== src/Bus/Ring3.antt =====
-- src/bus.rs: `Ring3ProcessBus` but for its `write`, which calls the registry and stands with it.
-- `endpoint_exists` of src/ipc.rs is that of the registry of endpoints passed.
use iso_light_k.Common.{
  ℕ, Bool, true, false, not, ltb, ◌==◌, if◌then◌else◌, List, length, take, drop, replicate, Result,
  ok, err,
}
use iso_light_k.Common.Bytes.{field}
use iso_light_k.Capability.{invalid_endpoint}
use iso_light_k.Ipc.Registry.{IpcRegistry, endpoint_exists}
use iso_light_k.Wire.{wire_frame_max}
use iso_light_k.Bus.{
  BusError, not_open, already_open, wire_not_ready, bad_init, internal, BusReady, all_zero,
}

pub record Ring3ProcessBus : Type 0 where
  pub endpoint : ℕ
  pub open_state : Bool
  pub pending_response : List ℕ
  pub response_len : ℕ

abbrev pub new : Ring3ProcessBus
new = record {
  endpoint = invalid_endpoint;
  open_state = false;
  pending_response = replicate wire_frame_max 0;
  response_len = 0;
}

unfoldable pub open_bus :
    IpcRegistry → List ℕ → Ring3ProcessBus → Result BusError (Unit {0}) × Ring3ProcessBus
unfolding endpoint_exists
open_bus ipc init b =
    let endpoint = field init 0 2 in
    if b.open_state
    then (err already_open, b)
    else if ltb (length init) 2
    then (err bad_init, b)
    else if not (all_zero (drop 2 init))
    then (err bad_init, b)
    else if endpoint == invalid_endpoint
    then (err bad_init, b)
    else if not (endpoint_exists ipc endpoint)
    then (err bad_init, b)
    else (ok tt, record b { endpoint = endpoint; open_state = true })

-- A response that waits stays.
unfoldable pub close : Ring3ProcessBus → Result BusError (Unit {0}) × Ring3ProcessBus
close b =
    if b.open_state
    then (ok tt, record b { endpoint = invalid_endpoint; open_state = false })
    else (err not_open, b)

unfoldable pub read : ℕ → Ring3ProcessBus → Result BusError (List ℕ) × Ring3ProcessBus
read room b =
    if not b.open_state
    then (err not_open, b)
    else if b.response_len == 0
    then (err wire_not_ready, b)
    else if ltb room b.response_len
    then (err internal, b)
    else (
      ok (take b.response_len b.pending_response),
      record b { pending_response = replicate wire_frame_max 0; response_len = 0 },
    )

unfoldable pub poll : Ring3ProcessBus → Result BusError BusReady
poll b =
    if b.open_state
    then ok (record {
      readable = not (b.response_len == 0);
      writable = b.response_len == 0;
      closed = false;
    })
    else err not_open

unfoldable pub zeroize : Ring3ProcessBus → Ring3ProcessBus
zeroize b = record b {
  pending_response = replicate wire_frame_max 0;
  response_len = 0;
  endpoint = invalid_endpoint;
  open_state = false;
}
