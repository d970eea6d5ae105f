-- ===== src/CryptoService/Tests.antt =====
-- The theorems on the crypto service (src/crypto_service.rs) at concrete inputs.
use iso_light_k.Common.{ℕ, ◌≡◌, refl, none, some, List, [], ◌∷◌, replicate, ok, arith}
use iso_light_k.Capability.{ep_crypto}
use iso_light_k.Primitives.Plain.{plain_cipher, plain_tag}
use iso_light_k.Ipc.{hash_req}
use iso_light_k.Ipc.Message.{IpcMessage}
use iso_light_k.Ipc.Payload.{CryptoPayload, read_crypto_payload}
use iso_light_k.Ipc.Endpoint
use iso_light_k.Ipc.Endpoint.{IpcEndpoint, pending_reply}
use iso_light_k.Ipc.Registry.{IpcRegistry, find, lookup}
use iso_light_k.CryptoService.Plain.{packages}
use iso_light_k.CryptoService.{parse_algo, ok_reply, write_ok_reply}
use iso_light_k.CryptoService.Handlers.{
  ◌>>=◌, with_key_sizes, all_zero, encrypt_chacha20poly, encrypt_by, handle_encrypt, handle_decrypt,
}
use iso_light_k.CryptoService.Handlers.RoundTrip.{with_data, handle_decrypt-handle_encrypt}
use iso_light_k.CryptoService.Dispatch.{dispatch}
use iso_light_k.CryptoService.Dispatch.Laws.{crypto_dispatch-IsAnswered}

-- ChaCha20-Poly1305 on two bytes.
abbrev request : CryptoPayload
request = record {
  algo = 3;
  key_len = 32;
  nonce_len = 12;
  flags = 0;
  data_len = 2;
  key = replicate 64 1;
  nonce = replicate 12 1;
  bytes = 5 ∷ 6 ∷ replicate 166 0;
}

abbrev sealed : List ℕ
sealed = ok_reply 3 (5 ∷ 6 ∷ plain_tag)

encrypted_once : handle_encrypt plain_cipher request ≡ ok sealed
unfolding handle_encrypt ◌>>=◌ parse_algo encrypt_by encrypt_chacha20poly with_key_sizes all_zero
    write_ok_reply
encrypted_once = refl

handle_decrypt-handle_encrypt_example :
    handle_decrypt plain_cipher
      (with_data request (read_crypto_payload sealed).data_len (read_crypto_payload sealed).bytes)
    ≡ write_ok_reply 3 (5 ∷ 6 ∷ [])
handle_decrypt-handle_encrypt_example =
    handle_decrypt-handle_encrypt plain_cipher request sealed refl encrypted_once

abbrev hash_message : IpcMessage
hash_message = record {
  header = record { msg_type = hash_req; payload_len = 256; sequence = 3 };
  payload = 0x12 ∷ replicate 255 0;
}

abbrev crypto_endpoint : IpcEndpoint
crypto_endpoint = record {
  id = 1;
  required_rights = 4;
  state = pending_reply hash_message;
  sequence = 3;
}

abbrev crypto_registry : IpcRegistry
crypto_registry = record { endpoints = some crypto_endpoint ∷ replicate 15 none; count = 1 }

crypto_endpoint-IsValid : Endpoint.Laws.IsValid crypto_endpoint
crypto_endpoint-IsValid = record { stamped = λ m e. ground arith; bounded = omega arith }

find_crypto : find crypto_registry ep_crypto ≡ some crypto_endpoint
unfolding find lookup
find_crypto = refl

crypto_dispatch-IsAnswered_example : (dispatch plain_cipher packages crypto_registry).0 ≡ ok tt
crypto_dispatch-IsAnswered_example =
    (crypto_dispatch-IsAnswered plain_cipher packages crypto_registry crypto_endpoint hash_message
      crypto_endpoint-IsValid find_crypto refl).0
