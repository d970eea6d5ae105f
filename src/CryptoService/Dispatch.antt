-- ===== src/CryptoService/Dispatch.antt =====
-- `dispatch` of src/crypto_service.rs: a request at EP_CRYPTO is taken, handled and answered.
pub mod Laws
use iso_light_k.Common.{ℕ, List, take, Result, ok, err}
use iso_light_k.Capability.{ep_crypto}
use iso_light_k.Primitives.{Aead}
use iso_light_k.Hmac.{CryptoError, invalid_request}
use iso_light_k.Ipc.{
  MessageType, IpcError, encrypt_req, encrypt_resp, decrypt_req, decrypt_resp, hash_req, hash_resp,
  key_derive_req, key_derive_resp, sign_req, sign_resp, verify_req, verify_resp, dh_req, dh_resp,
  error,
}
use iso_light_k.Ipc.Message.{IpcMessage}
use iso_light_k.Ipc.Payload.{CryptoPayload}
use iso_light_k.Ipc.Registry.{IpcRegistry}
use iso_light_k.Ipc.Call.{ipc_recv, ipc_reply}
use iso_light_k.CryptoService.{Packages, parse_request, write_error_reply}
use iso_light_k.CryptoService.Handlers.{
  handle_encrypt, handle_decrypt, handle_hash, handle_kdf, handle_sign, handle_verify, handle_dh,
}

-- The type of the answer and its bytes: one for an error, the whole payload otherwise.
abbrev pub final : MessageType → Result CryptoError (List ℕ) → MessageType × List ℕ
final reply_type (ok reply) = (reply_type, reply)
final reply_type (err e) = (error, take 1 (write_error_reply e))

module _ (aead : Aead) (crates : Packages) where
  unfoldable pub handle : MessageType → CryptoPayload → MessageType × List ℕ
  handle encrypt_req req = final encrypt_resp (handle_encrypt aead req)
  handle decrypt_req req = final decrypt_resp (handle_decrypt aead req)
  handle hash_req req = final hash_resp (handle_hash crates req)
  handle key_derive_req req = final key_derive_resp (handle_kdf crates req)
  handle sign_req req = final sign_resp (handle_sign crates req)
  handle verify_req req = final verify_resp (handle_verify crates req)
  handle dh_req req = final dh_resp (handle_dh crates req)
  handle kind req = final error (err invalid_request)

  unfoldable pub answer : MessageType → Result CryptoError CryptoPayload → MessageType × List ℕ
  answer kind (err e) = final error (err e)
  answer kind (ok req) = handle kind req

  unfoldable pub received :
      Result IpcError IpcMessage × IpcRegistry → Result IpcError (Unit {0}) × IpcRegistry
  received (err e, r) = (err e, r)
  received (ok msg, r) =
      let (kind, bytes) = answer msg.header.msg_type (parse_request msg) in
      ipc_reply r ep_crypto kind bytes

  unfoldable pub dispatch : IpcRegistry → Result IpcError (Unit {0}) × IpcRegistry
  dispatch r = received (ipc_recv r ep_crypto)
