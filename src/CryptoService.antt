-- ===== src/CryptoService.antt =====
-- src/crypto_service.rs: the service behind EP_CRYPTO. Here the requests and replies, and the packages
-- that the service calls, which are parameters with the sizes that they document; HMAC and HKDF are in
-- Hmac. A handler gives the reply that it writes, or its error.
pub mod Handlers
pub mod Dispatch
pub mod Plain
mod Tests
use iso_light_k.Common.{
  ℕ, ◌+◌, ◌-◌, ◌≡◌, Bool, ltb, ◌==◌, if◌then◌else◌, Option, List, [], ◌∷◌, ◌++◌, length, replicate,
  some, Result, ok, err,
}
use iso_light_k.Common.Bytes.{to_le_bytes}
use iso_light_k.Hmac.{
  CryptoError, unknown_algorithm, invalid_key_length, invalid_nonce_length, invalid_data_length,
  authentication_failed, invalid_request, output_too_large, weak_nonce,
}
use iso_light_k.Ipc.{ipc_max_payload}
use iso_light_k.Ipc.Message.{IpcMessage}
use iso_light_k.Ipc.Payload.{
  CryptoAlgo, aes256_gcm, chacha20_poly, hmac_sha256, blake3, sha3_256, sha3_512, hkdf_sha256,
  ed25519_sign, ed25519_verify, ed448_sign, ed448_verify, x448_dh, CryptoPayload,
  read_crypto_payload, crypto_data_len,
}

pub record Packages : Type 0 where
  pub sha256 : List ℕ → List ℕ
  pub blake3_hash : List ℕ → Option (List ℕ)
  pub sha3_256_hash : List ℕ → List ℕ
  pub sha3_512_hash : List ℕ → List ℕ
  -- A secret key and a message give a signature.
  pub ed25519_signature : List ℕ → List ℕ → List ℕ
  pub ed448_signature : List ℕ → List ℕ → List ℕ
  -- The message, the signature and the public key.
  pub ed25519_is_signed : List ℕ → List ℕ → List ℕ → Bool
  pub ed448_is_signed : List ℕ → List ℕ → List ℕ → Bool
  -- `none` for a peer key that the package refuses.
  pub x448_shared : List ℕ → List ℕ → Option (List ℕ)
  pub length-ed25519_signature : (sk msg : List ℕ) → length (ed25519_signature sk msg) ≡ 64
  pub length-ed448_signature : (sk msg : List ℕ) → length (ed448_signature sk msg) ≡ 114
  pub length-x448_shared : (sk pk ss : List ℕ) → x448_shared sk pk ≡ some ss → length ss ≡ 56

abbrev pub error_code : CryptoError → ℕ
error_code unknown_algorithm = 1
error_code invalid_key_length = 2
error_code invalid_nonce_length = 3
error_code invalid_data_length = 4
error_code authentication_failed = 5
error_code invalid_request = 6
error_code output_too_large = 7
error_code weak_nonce = 8

unfoldable pub parse_request : IpcMessage → Result CryptoError CryptoPayload
parse_request msg =
    if ltb msg.header.payload_len ipc_max_payload
    then err invalid_request
    else ok (read_crypto_payload msg.payload)

-- In a reply that is zeroed.
unfoldable pub write_error_reply : CryptoError → List ℕ
write_error_reply e = error_code e ∷ replicate (ipc_max_payload - 1) 0

-- The fields in front of the result are the algorithm, three zeros and the length.
abbrev pub ok_reply : ℕ → List ℕ → List ℕ
ok_reply algo bytes =
    algo
    ∷ 0
    ∷ 0
    ∷ 0
    ∷ (to_le_bytes 2 (length bytes)
        ++ (replicate 82 0 ++ (bytes ++ replicate (crypto_data_len - length bytes) 0)))

unfoldable pub write_ok_reply : ℕ → List ℕ → Result CryptoError (List ℕ)
write_ok_reply algo bytes =
    if ltb crypto_data_len (length bytes) then err output_too_large else ok (ok_reply algo bytes)

-- Of AES-128-GCM, 0x01, the library has nothing.
unfoldable pub parse_algo : ℕ → Result CryptoError CryptoAlgo
parse_algo byte =
    if byte == 0x01
    then err unknown_algorithm
    else if byte == 0x02
    then ok aes256_gcm
    else if byte == 0x03
    then ok chacha20_poly
    else if byte == 0x10
    then ok hmac_sha256
    else if byte == 0x11
    then ok blake3
    else if byte == 0x12
    then ok sha3_256
    else if byte == 0x13
    then ok sha3_512
    else if byte == 0x20
    then ok hkdf_sha256
    else if byte == 0x30
    then ok ed25519_sign
    else if byte == 0x31
    then ok ed25519_verify
    else if byte == 0x32
    then ok ed448_sign
    else if byte == 0x33
    then ok ed448_verify
    else if byte == 0x40
    then ok x448_dh
    else err unknown_algorithm
