-- ===== src/CryptoService/Handlers.antt =====
-- The handlers of src/crypto_service.rs, one for each type of request. The sizes of keys and nonces
-- are those of the arrays that the packages take.
pub mod RoundTrip
use iso_light_k.Common.{
  ℕ, zero, suc, ◌+◌, ◌-◌, Bool, true, false, not, ◌||◌, ltb, ◌==◌, if◌then◌else◌, Option, none,
  some, List, [], ◌∷◌, ◌++◌, take, drop, Result, ok, err,
}
use iso_light_k.Common.Bytes.{field}
use iso_light_k.Primitives.{Aead}
use iso_light_k.Hmac.{
  CryptoError, unknown_algorithm, invalid_key_length, invalid_nonce_length, invalid_data_length,
  authentication_failed, invalid_request, output_too_large, weak_nonce, hmac_sha256_multi,
  hkdf_extract, hkdf_expand, sha256_block_size, hkdf_max_output,
}
use iso_light_k.Ipc.Payload.{
  CryptoAlgo, aes256_gcm, chacha20_poly, hmac_sha256, blake3, sha3_256, sha3_512, hkdf_sha256,
  ed25519_sign, ed25519_verify, ed448_sign, ed448_verify, x448_dh, CryptoPayload, crypto_data_len,
}
use iso_light_k.CryptoService.{Packages, parse_algo, write_ok_reply}

infixl 5 ◌>>=◌
unfoldable pub ◌>>=◌ {ℓ κ} :
    {A : Type ℓ} {B : Type κ}
    → Result CryptoError A
    → (A → Result CryptoError B)
    → Result CryptoError B
ok a >>= f = f a
err e >>= f = err e

unfoldable pub all_zero : List ℕ → Bool
all_zero [] = true
all_zero (b ∷ bytes) = if b == 0 then all_zero bytes else false

abbrev pub or_error {ℓ} : {A : Type ℓ} → CryptoError → Option A → Result CryptoError A
or_error e none = err e
or_error e (some a) = ok a

-- The cipher text and the tag.
abbrev pub Sealed : Type 0
Sealed = List ℕ × List ℕ

abbrev pub gcm_tag_size : ℕ
gcm_tag_size = 16

abbrev pub key_of : CryptoPayload → List ℕ
key_of req = take 32 req.key

abbrev pub nonce_of : CryptoPayload → List ℕ
nonce_of req = take 12 req.nonce

-- What the four calls of a cipher check first.
unfoldable pub with_key_sizes {ℓ} :
    {A : Type ℓ} → CryptoPayload → Result CryptoError A → Result CryptoError A
with_key_sizes req rest =
    if not (req.key_len == 32)
    then err invalid_key_length
    else if not (req.nonce_len == 12)
    then err invalid_nonce_length
    else rest

module _ (aead : Aead) where
  unfoldable pub encrypt_aes256gcm : CryptoPayload → List ℕ → Result CryptoError Sealed
  encrypt_aes256gcm req plaintext = with_key_sizes req (
      if all_zero (nonce_of req)
      then err weak_nonce
      else ok (aead.aes_seal (key_of req) (nonce_of req) [] plaintext))

  unfoldable pub decrypt_aes256gcm : CryptoPayload → List ℕ → List ℕ → Result CryptoError (List ℕ)
  decrypt_aes256gcm req ciphertext tag =
      with_key_sizes req (
        or_error authentication_failed
          (aead.aes_open (key_of req) (nonce_of req) [] ciphertext tag))

  unfoldable pub encrypt_chacha20poly : CryptoPayload → List ℕ → Result CryptoError Sealed
  encrypt_chacha20poly req plaintext = with_key_sizes req (
      if all_zero (nonce_of req)
      then err weak_nonce
      else or_error invalid_data_length (aead.chacha_seal (key_of req) (nonce_of req) [] plaintext))

  unfoldable pub decrypt_chacha20poly :
      CryptoPayload → List ℕ → List ℕ → Result CryptoError (List ℕ)
  decrypt_chacha20poly req ciphertext tag = with_key_sizes req (
      or_error authentication_failed
        (aead.chacha_open (key_of req) (nonce_of req) [] ciphertext tag))

  unfoldable pub encrypt_by : CryptoAlgo → CryptoPayload → List ℕ → Result CryptoError Sealed
  encrypt_by aes256_gcm req plaintext = encrypt_aes256gcm req plaintext
  encrypt_by chacha20_poly req plaintext = encrypt_chacha20poly req plaintext
  encrypt_by algo req plaintext = err unknown_algorithm

  unfoldable pub decrypt_by :
      CryptoAlgo → CryptoPayload → List ℕ → List ℕ → Result CryptoError (List ℕ)
  decrypt_by aes256_gcm req ciphertext tag = decrypt_aes256gcm req ciphertext tag
  decrypt_by chacha20_poly req ciphertext tag = decrypt_chacha20poly req ciphertext tag
  decrypt_by algo req ciphertext tag = err unknown_algorithm

  unfoldable pub handle_encrypt : CryptoPayload → Result CryptoError (List ℕ)
  handle_encrypt req = parse_algo req.algo >>= λ algo.
      if ltb crypto_data_len req.data_len
      then err invalid_data_length
      else encrypt_by algo req (take req.data_len req.bytes) >>= λ sealed.
          if ltb crypto_data_len (req.data_len + gcm_tag_size)
          then err output_too_large
          else write_ok_reply req.algo (sealed.0 ++ sealed.1)

  unfoldable pub handle_decrypt : CryptoPayload → Result CryptoError (List ℕ)
  handle_decrypt req = parse_algo req.algo >>= λ algo.
      if ltb req.data_len gcm_tag_size || ltb crypto_data_len req.data_len
      then err invalid_data_length
      else let ct_len = req.data_len - gcm_tag_size in
        decrypt_by algo req (take ct_len req.bytes) (drop ct_len (take req.data_len req.bytes))
        >>= λ plaintext. write_ok_reply req.algo plaintext

module _ (crates : Packages) where
  unfoldable pub digest_by : CryptoAlgo → CryptoPayload → List ℕ → Result CryptoError (List ℕ)
  digest_by hmac_sha256 req msg =
      if ltb sha256_block_size req.key_len
      then err invalid_key_length
      else ok (hmac_sha256_multi crates.sha256 (take req.key_len req.key) (msg ∷ []))
  digest_by blake3 req msg =
      or_error invalid_request (crates.blake3_hash msg) >>= λ digest. ok (take 32 digest)
  digest_by sha3_256 req msg = ok (take 32 (crates.sha3_256_hash msg))
  digest_by sha3_512 req msg = ok (take 64 (crates.sha3_512_hash msg))
  digest_by algo req msg = err unknown_algorithm

  unfoldable pub handle_hash : CryptoPayload → Result CryptoError (List ℕ)
  handle_hash req = parse_algo req.algo >>= λ algo.
      if ltb crypto_data_len req.data_len
      then err invalid_data_length
      else digest_by algo req (take req.data_len req.bytes) >>= write_ok_reply req.algo

  -- The request for a key starts with its length.
  unfoldable pub derive : CryptoPayload → Result CryptoError (List ℕ)
  derive req =
      let okm_len = field req.bytes 0 2 in
      if ltb 32 req.key_len
      then err invalid_key_length
      else if ltb 12 req.nonce_len
      then err invalid_nonce_length
      else if ltb req.data_len 2 || ltb crypto_data_len req.data_len
      then err invalid_data_length
      else if okm_len == 0 || ltb hkdf_max_output okm_len
      then err output_too_large
      else hkdf_expand crates.sha256
          (hkdf_extract crates.sha256 (take req.nonce_len req.nonce) (take req.key_len req.key))
          (drop 2 (take req.data_len req.bytes)) okm_len

  unfoldable pub derive_by : CryptoAlgo → CryptoPayload → Result CryptoError (List ℕ)
  derive_by hkdf_sha256 req = derive req
  derive_by algo req = err unknown_algorithm

  unfoldable pub handle_kdf : CryptoPayload → Result CryptoError (List ℕ)
  handle_kdf req = parse_algo req.algo >>= λ algo. derive_by algo req >>= write_ok_reply req.algo

  unfoldable pub sign_by : CryptoAlgo → CryptoPayload → List ℕ → Result CryptoError (List ℕ)
  sign_by ed25519_sign req msg =
      if not (req.key_len == 32)
      then err invalid_key_length
      else ok (crates.ed25519_signature (take 32 req.key) msg)
  sign_by ed448_sign req msg =
      if not (req.key_len == 57)
      then err invalid_key_length
      else ok (crates.ed448_signature (take 57 req.key) msg)
  sign_by algo req msg = err unknown_algorithm

  unfoldable pub handle_sign : CryptoPayload → Result CryptoError (List ℕ)
  handle_sign req = parse_algo req.algo >>= λ algo.
      if ltb crypto_data_len req.data_len
      then err invalid_data_length
      else sign_by algo req (take req.data_len req.bytes) >>= write_ok_reply req.algo

  -- A signature of `sig_size` bytes in front of its message.
  unfoldable pub verify_with :
      ℕ → ℕ → (List ℕ → List ℕ → List ℕ → Bool) → CryptoPayload → Result CryptoError (List ℕ)
  verify_with key_size sig_size is_signed req =
      if not (req.key_len == key_size)
      then err invalid_key_length
      else if ltb req.data_len sig_size
      then err invalid_data_length
      else if ltb crypto_data_len req.data_len
      then err invalid_data_length
      else if is_signed (drop sig_size (take req.data_len req.bytes)) (take sig_size req.bytes)
          (take key_size req.key)
      then ok (1 ∷ [])
      else err authentication_failed

  unfoldable pub verify_by : CryptoAlgo → CryptoPayload → Result CryptoError (List ℕ)
  verify_by ed25519_verify req = verify_with 32 64 crates.ed25519_is_signed req
  verify_by ed448_verify req = verify_with 57 114 crates.ed448_is_signed req
  verify_by algo req = err unknown_algorithm

  unfoldable pub handle_verify : CryptoPayload → Result CryptoError (List ℕ)
  handle_verify req = parse_algo req.algo >>= λ algo. verify_by algo req >>= write_ok_reply req.algo

  unfoldable pub agree_by : CryptoAlgo → CryptoPayload → Result CryptoError (List ℕ)
  agree_by x448_dh req =
      if not (req.key_len == 56)
      then err invalid_key_length
      else if not (req.data_len == 56)
      then err invalid_data_length
      else or_error authentication_failed (crates.x448_shared (take 56 req.key) (take 56 req.bytes))
  agree_by algo req = err unknown_algorithm

  unfoldable pub handle_dh : CryptoPayload → Result CryptoError (List ℕ)
  handle_dh req = parse_algo req.algo >>= λ algo. agree_by algo req >>= write_ok_reply req.algo
