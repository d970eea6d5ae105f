-- ===== src/Ipc/Endpoint.antt =====
-- src/ipc.rs: `IpcEndpoint`, which holds one message at a time. An operation returns its result
-- beside the new endpoint.
pub mod Laws
use iso_light_k.Common.{
  ℕ, ◌+◌, ◌%◌, ◌^◌, Bool, true, false, not, ltb, if◌then◌else◌, Result, ok, err,
}
use iso_light_k.Capability.{Capability, is_valid_for}
use iso_light_k.Ipc.{
  IpcError, capability_denied, endpoint_busy, payload_len_mismatch, no_message, ipc_max_payload,
}
use iso_light_k.Ipc.Message.{IpcMessage, MessageHeader}

pub data EndpointState : Type 0 where
  idle : EndpointState
  pending_reply : IpcMessage → EndpointState
  reply_ready : IpcMessage → EndpointState

pub record IpcEndpoint : Type 0 where
  pub id : ℕ
  pub required_rights : ℕ
  pub state : EndpointState
  pub sequence : ℕ

unfoldable pub new : ℕ → ℕ → IpcEndpoint
new id required_rights = record {
  id = id;
  required_rights = required_rights;
  state = idle;
  sequence = 0;
}

-- `wrapping_add` on a `u32`.
unfoldable pub next_sequence : IpcEndpoint → ℕ × IpcEndpoint
next_sequence e = let n = (e.sequence + 1) % 2 ^ 32 in (n, record e { sequence = n })

abbrev pub is_pending_reply : EndpointState → Bool
is_pending_reply (pending_reply m) = true
is_pending_reply idle = false
is_pending_reply (reply_ready m) = false

abbrev pub is_reply_ready : EndpointState → Bool
is_reply_ready (reply_ready m) = true
is_reply_ready idle = false
is_reply_ready (pending_reply m) = false

-- The message with the sequence number of the endpoint.
abbrev pub stamp : ℕ → IpcMessage → IpcMessage
stamp n m = record m { header = record (m.header) { sequence = n } }

unfoldable pub post :
    IpcEndpoint → Capability → IpcMessage → Result IpcError (Unit {0}) × IpcEndpoint
unfolding next_sequence
post e cap msg =
    if not (is_valid_for cap e.id e.required_rights)
    then (err capability_denied, e)
    else if is_pending_reply e.state
    then (err endpoint_busy, e)
    else if ltb ipc_max_payload msg.header.payload_len
    then (err payload_len_mismatch, e)
    else let (n, e') = next_sequence e in (ok tt, record e' { state = pending_reply (stamp n msg) })

take_state : EndpointState → Result IpcError IpcMessage × EndpointState
take_state (pending_reply msg) = (ok msg, idle)
take_state idle = (err no_message, idle)
take_state (reply_ready msg) = (err no_message, reply_ready msg)

unfoldable pub take : IpcEndpoint → Result IpcError IpcMessage × IpcEndpoint
unfolding take_state
take e = let (r, s) = take_state e.state in (r, record e { state = s })

unfoldable pub post_reply : IpcEndpoint → IpcMessage → Result IpcError (Unit {0}) × IpcEndpoint
post_reply e reply =
    if is_reply_ready e.state
    then (err endpoint_busy, e)
    else (ok tt, record e { state = reply_ready reply })

take_reply_state : EndpointState → Result IpcError IpcMessage × EndpointState
take_reply_state (reply_ready msg) = (ok msg, idle)
take_reply_state idle = (err no_message, idle)
take_reply_state (pending_reply msg) = (err no_message, pending_reply msg)

unfoldable pub take_reply : IpcEndpoint → Result IpcError IpcMessage × IpcEndpoint
unfolding take_reply_state
take_reply e = let (r, s) = take_reply_state e.state in (r, record e { state = s })
