-- ===== src/Hsm/Channel/Commands.antt =====
-- src/bus.rs: the commands of the wire protocol that a Ring 3 process is asked for, and `read` of a bus.
use iso_light_k.Common.{
  ℕ, zero, suc, ◌+◌, not, ltb, ◌==◌, if◌then◌else◌, Option, none, some, List, [], ◌∷◌, ◌++◌, length,
  take, drop, Result, ok, err,
}
use iso_light_k.Common.Partial.{◌>>=◌}
use iso_light_k.Common.Bytes.{little_endian, to_le_bytes}
use iso_light_k.Audit.{EnrollEvent, audit_ring_capacity, audit_enqueue, audit_snapshot}
use iso_light_k.Primitives.{Crypto}
use iso_light_k.Wire.{
  blake3_hash, attest_submit, status_request, success, bad_frame, denied, internal,
  build_response_frame, build_error_frame_inplace,
}
use iso_light_k.Bus.{BusKind, software, ring3_process, BusError}
use iso_light_k.Bus.Instance
use iso_light_k.Bus.Instance.{BusInstance, empty_bus, software_bus, ring3_bus}
use iso_light_k.Hsm.{capability_of, Machine, slot_at, set_bus}
use iso_light_k.Hsm.Rights.{allow_use}
use iso_light_k.Hsm.Attest.{pk_len, sig_len, AttestError, verify_attest, pk_hash_prefix}
use iso_light_k.Hsm.Registry.{authenticate}

abbrev pub wire_attest_len : ℕ
wire_attest_len = pk_len + 1 + sig_len

-- A response: the length of the frame and the buffer that holds it.
abbrev pub Frame : Type 0
Frame = ℕ × List ℕ

abbrev pub bus_at : {W : Type 0} → Machine W → ℕ → BusInstance
bus_at m i = (slot_at m.slots i).bus

abbrev pub put_bus : {W : Type 0} → ℕ → BusInstance → Machine W → Machine W
put_bus i bus m = record m { slots = set_bus i bus m.slots }

-- The buffer of the response of the Ring 3 process at the slot.
abbrev pub response_buffer : {W : Type 0} → Machine W → ℕ → List ℕ
response_buffer m i = elim (bus_at m i) [ ring3_bus p ↦ p.pending_response | _ ↦ [] ]

unfoldable pub octet_kind : ℕ → Option BusKind
octet_kind zero = some software
octet_kind (suc zero) = some ring3_process
octet_kind (suc (suc n)) = none

-- The octet of the transport in an attestation over the wire.
abbrev pub attest_octet : List ℕ → ℕ
attest_octet payload = little_endian (take 1 (drop pk_len payload))

-- The verdict is recorded, and no slot changes.
unfoldable pub attest_reply :
    {W : Type 0}
    → ℕ
    → ℕ
    → List ℕ
    → List ℕ
    → Machine W
    → Result AttestError (Unit {0})
    → Frame × Machine W
unfolding audit_enqueue build_response_frame build_error_frame_inplace
attest_reply req_id octet prefix out m (ok _) = (
  build_response_frame req_id attest_submit success [] out,
  record m { audit = audit_enqueue m.audit 254 5 octet prefix },
)
attest_reply req_id octet prefix out m (err _) = (
  build_error_frame_inplace req_id denied out,
  record m { audit = audit_enqueue m.audit 254 6 octet prefix },
)

-- The verification, once the octet of the transport is decoded.
unfoldable pub attest_check :
    {W : Type 0} → Crypto → ℕ → List ℕ → List ℕ → Machine W → Option BusKind → Frame × Machine W
unfolding verify_attest pk_hash_prefix attest_reply build_error_frame_inplace
attest_check c req_id payload out m none = (build_error_frame_inplace req_id bad_frame out, m)
attest_check c req_id payload out m (some kind) =
    let pk = take pk_len payload in
    attest_reply req_id (attest_octet payload) (pk_hash_prefix c pk) out m
      (verify_attest c m pk kind (drop (pk_len + 1) payload))

unfoldable pub handle_attest_submit :
    {W : Type 0} → Crypto → ℕ → ℕ → List ℕ → Machine W → Frame × Machine W
unfolding octet_kind attest_check build_error_frame_inplace
handle_attest_submit c idx req_id payload m =
    let out = response_buffer m idx in
    if not (length payload == wire_attest_len)
    then (build_error_frame_inplace req_id bad_frame out, m)
    else attest_check c req_id payload out m (octet_kind (attest_octet payload))

-- One event as 12 bytes; the padding byte is 0 as `audit_enqueue` writes it.
abbrev pub event_bytes : EnrollEvent → List ℕ
event_bytes e =
    to_le_bytes 4 e.seq
    ++ to_le_bytes 1 e.slot_idx
    ++ to_le_bytes 1 e.result
    ++ to_le_bytes 1 e.bus_kind
    ++ 0 ∷ e.pk_hash_prefix

unfoldable pub events_bytes : List EnrollEvent → List ℕ
events_bytes [] = []
events_bytes (e ∷ es) = event_bytes e ++ events_bytes es

unfoldable pub status_payload : {W : Type 0} → Machine W → List ℕ
unfolding audit_snapshot events_bytes
status_payload m =
    let (events, written, total) = audit_snapshot m.audit audit_ring_capacity in
    to_le_bytes 2 written ++ to_le_bytes 4 total ++ 0 ∷ 0 ∷ events_bytes events

unfoldable pub handle_status : {W : Type 0} → ℕ → ℕ → List ℕ → Machine W → Frame
unfolding status_payload build_response_frame build_error_frame_inplace
handle_status idx req_id payload m =
    let out = response_buffer m idx in
    if length payload == 0
    then build_response_frame req_id status_request success (status_payload m) out
    else build_error_frame_inplace req_id bad_frame out

-- `read` of the bus of a slot, into a buffer of `room` bytes.
unfoldable pub bus_read : {W : Type 0} → ℕ → ℕ → Machine W → Result BusError (List ℕ) × Machine W
unfolding Instance.read
bus_read room idx m = let (r, bus) = Instance.read room (bus_at m idx) in (r, put_bus idx bus m)

abbrev pub exactly : ℕ → Result BusError (List ℕ) → Option (List ℕ)
exactly n (err e) = none
exactly n (ok bytes) = if length bytes == n then some bytes else none

-- The read of exactly 32 bytes after a write.
unfoldable pub read_digest :
    {W : Type 0} → ℕ → Result BusError ℕ × Machine W → Option (List ℕ) × Machine W
unfolding bus_read
read_digest idx (err e, m) = (none, m)
read_digest idx (ok n, m) = let (r, m') = bus_read 32 idx m in (exactly 32 r, m')

-- The digest that a bus gives for some input.
unfoldable pub digest_of :
    {W : Type 0}
    → (ℕ → List ℕ → Machine W → Option (Result BusError ℕ × Machine W))
    → ℕ
    → List ℕ
    → Machine W
    → Option (Option (List ℕ) × Machine W)
unfolding read_digest
digest_of write idx input m = write idx input m >>= λ x. some (read_digest idx x)

unfoldable pub digest_frame : {W : Type 0} → ℕ → ℕ → Option (List ℕ) × Machine W → Frame × Machine W
unfolding build_response_frame build_error_frame_inplace
digest_frame idx req_id (none, m) =
    (build_error_frame_inplace req_id internal (response_buffer m idx), m)
digest_frame idx req_id (some digest, m) =
    (build_response_frame req_id blake3_hash success digest (response_buffer m idx), m)

unfoldable pub handle_blake3 :
    {W : Type 0}
    → (ℕ → List ℕ → Machine W → Option (Result BusError ℕ × Machine W))
    → ℕ
    → ℕ
    → List ℕ
    → Machine W
    → Option (Frame × Machine W)
unfolding capability_of authenticate digest_of digest_frame build_error_frame_inplace
handle_blake3 write idx req_id payload m =
    let cap = capability_of (take 16 payload) in
    if ltb (length payload) 16
    then some (build_error_frame_inplace req_id bad_frame (response_buffer m idx), m)
    else if not (authenticate m.slots cap allow_use)
    then some (build_error_frame_inplace req_id denied (response_buffer m idx), m)
    else (digest_of write cap.slot (drop 16 payload) m >>= λ x. some (digest_frame idx req_id x))
