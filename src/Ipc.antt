-- ===== src/Ipc.antt =====
-- src/ipc.rs: synchronous message passing. Here its constants, message kinds and errors; `Message`,
-- `Endpoint`, `Registry` and `Call` model its structures and its public functions.
pub mod Message
pub mod Payload
pub mod Endpoint
pub mod Registry
pub mod Call
mod Tests
use iso_light_k.Common.{ℕ, Bool, ◌||◌, ◌==◌}
use iso_light_k.Capability.{ep_system, ep_crypto, ep_sign}

abbrev pub ipc_max_payload : ℕ
ipc_max_payload = 256

abbrev pub ipc_max_endpoints : ℕ
ipc_max_endpoints = 16

unfoldable pub is_kernel_service : ℕ → Bool
is_kernel_service id = id == ep_crypto || (id == ep_system || id == ep_sign)

pub data MessageType : Type 0 where
  ping pong connect disconnect : MessageType
  encrypt_req encrypt_resp decrypt_req decrypt_resp hash_req hash_resp : MessageType
  key_derive_req key_derive_resp sign_req sign_resp verify_req verify_resp : MessageType
  dh_req dh_resp : MessageType
  sign_begin_req sign_begin_resp sign_in_chunk_req sign_in_chunk_resp : MessageType
  sign_exec_req sign_exec_resp sign_out_chunk_req sign_out_chunk_resp : MessageType
  sign_end_req sign_end_resp error : MessageType

pub data IpcError : Type 0 where
  capability_denied endpoint_busy endpoint_not_found payload_too_large : IpcError
  payload_len_mismatch no_message endpoints_full invalid_message_type : IpcError
