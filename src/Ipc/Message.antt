-- ===== src/Ipc/Message.antt =====
-- src/ipc.rs: `IpcMessage`. A payload is a list of bytes; `Secret`, which erases it on drop, has no
-- effect on the values.
pub mod Laws
use iso_light_k.Common.{
  ℕ, ◌-◌, ltb, if◌then◌else◌, List, ◌++◌, length, take, drop, replicate, Result, ok, err,
}
use iso_light_k.Ipc.{MessageType, IpcError, payload_too_large, ipc_max_payload}

pub record MessageHeader : Type 0 where
  pub msg_type : MessageType
  pub payload_len : ℕ
  pub sequence : ℕ

pub record IpcMessage : Type 0 where
  pub header : MessageHeader
  pub payload : List ℕ

unfoldable pub new : MessageType → ℕ → IpcMessage
new msg_type sequence = record {
  header = record { msg_type = msg_type; payload_len = 0; sequence = sequence };
  payload = replicate ipc_max_payload 0;
}

-- The bytes are copied to the front of the payload, and the bytes from there on are zeroed.
unfoldable pub set_payload : IpcMessage → List ℕ → Result IpcError IpcMessage
set_payload m bytes =
    if ltb ipc_max_payload (length bytes)
    then err payload_too_large
    else ok (record {
      header = record (m.header) { payload_len = length bytes };
      payload = bytes ++ replicate (ipc_max_payload - length bytes) 0;
    })

unfoldable pub payload_bytes : IpcMessage → List ℕ
payload_bytes m = take m.header.payload_len m.payload
