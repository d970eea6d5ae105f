-- ===== src/Tls/Record.antt =====
-- src/tls/record.rs: records under an AEAD. The ciphers are packages, and a parameter with their
-- documented behaviour; a result is `none` where the package reports an error. What is written to
-- `out` is the result, and its size an argument.
pub mod Laws
use iso_light_k.Common.{
  ℕ, zero, suc, ◌+◌, ◌-◌, ◌*◌, ◌/◌, ◌%◌, ◌^◌, ◌≡◌, Bool, not, ltb, ◌==◌, if◌then◌else◌, Option,
  none, some, List, [], ◌∷◌, ◌++◌, length, take, drop, get_or, Result, ok, err, bit_xor,
}
use iso_light_k.Primitives.{Aead}
use iso_light_k.Tls.{
  CipherSuite, aes256_gcm_sha256, chacha20_poly1305_sha256, TlsError, bad_message,
  sequence_exhausted, buffer_too_small, authentication_failed, internal, DirectionalKeys,
  aead_tag_len,
}

abbrev pub record_header_len : ℕ
record_header_len = 5

abbrev pub max_plaintext_len : ℕ
max_plaintext_len = 200

abbrev pub ct_application_data : ℕ
ct_application_data = 23

-- Big-endian bytes.
unfoldable pub to_be_bytes : ℕ → ℕ → List ℕ
to_be_bytes zero n = []
to_be_bytes (suc size) n = to_be_bytes size (n / 256) ++ n % 256 ∷ []

abbrev pub xor_bytes : List ℕ → List ℕ → List ℕ
xor_bytes [] ys = []
xor_bytes (x ∷ xs) [] = []
xor_bytes (x ∷ xs) (y ∷ ys) = bit_xor x y ∷ xor_bytes xs ys

unfoldable pub build_nonce : List ℕ → ℕ → List ℕ
unfolding to_be_bytes
build_nonce static_iv seq = xor_bytes static_iv (0 ∷ 0 ∷ 0 ∷ 0 ∷ to_be_bytes 8 seq)

unfoldable pub build_aad : ℕ → Result TlsError (List ℕ)
build_aad record_payload_len =
    if ltb 65535 record_payload_len
    then err buffer_too_small
    else ok (ct_application_data ∷ 3 ∷ 3 ∷ record_payload_len / 256 ∷ record_payload_len % 256 ∷ [])

module _ (aead : Aead) where
  unfoldable pub seal : CipherSuite → List ℕ → List ℕ → List ℕ → List ℕ → Option (List ℕ × List ℕ)
  seal aes256_gcm_sha256 key nonce aad text = some (aead.aes_seal key nonce aad text)
  seal chacha20_poly1305_sha256 key nonce aad text = aead.chacha_seal key nonce aad text

  unfoldable pub unseal : CipherSuite → List ℕ → List ℕ → List ℕ → List ℕ → List ℕ → Option (List ℕ)
  unseal aes256_gcm_sha256 key nonce aad cipher tag = aead.aes_open key nonce aad cipher tag
  unseal chacha20_poly1305_sha256 key nonce aad cipher tag =
      aead.chacha_open key nonce aad cipher tag

  -- The record, once the text is sealed.
  unfoldable pub sealed_record :
      DirectionalKeys
      → List ℕ
      → Option (List ℕ × List ℕ)
      → Result TlsError (List ℕ) × DirectionalKeys
  sealed_record keys aad none = (err internal, keys)
  sealed_record keys aad (some (cipher, tag)) =
      (ok (aad ++ (cipher ++ tag)), record keys { seq = keys.seq + 1 })

  unfoldable pub with_aad :
      DirectionalKeys
      → CipherSuite
      → List ℕ
      → Result TlsError (List ℕ)
      → Result TlsError (List ℕ) × DirectionalKeys
  unfolding seal sealed_record build_nonce
  with_aad keys suite plaintext (err e) = (err e, keys)
  with_aad keys suite plaintext (ok aad) = sealed_record keys aad (
      seal suite keys.key (build_nonce keys.iv keys.seq) aad
        (plaintext ++ ct_application_data ∷ []))

  -- `room` is the size of the buffer.
  unfoldable pub encrypt_record :
      DirectionalKeys → CipherSuite → List ℕ → ℕ → Result TlsError (List ℕ) × DirectionalKeys
  unfolding build_aad with_aad
  encrypt_record keys suite plaintext room =
      let record_payload_len = length plaintext + 1 + aead_tag_len in
      if ltb max_plaintext_len (length plaintext)
      then (err buffer_too_small, keys)
      else if keys.seq == 2 ^ 64 - 1
      then (err sequence_exhausted, keys)
      else if ltb room (record_header_len + record_payload_len)
      then (err buffer_too_small, keys)
      else with_aad keys suite plaintext (build_aad record_payload_len)

  -- The end of a decryption: the last byte is the type, and is removed.
  unfoldable pub opened :
      DirectionalKeys → ℕ → ℕ → Option (List ℕ) → Result TlsError (List ℕ) × DirectionalKeys
  opened keys ct_len room none = (err authentication_failed, keys)
  opened keys ct_len room (some inner) =
      if not (get_or inner (ct_len - 1) 0 == ct_application_data)
      then (err bad_message, keys)
      else if ltb room (ct_len - 1)
      then (err buffer_too_small, keys)
      else (ok (take (ct_len - 1) inner), record keys { seq = keys.seq + 1 })

  abbrev pub record_length : List ℕ → ℕ
  record_length bytes = get_or bytes 3 0 * 256 + get_or bytes 4 0

  unfoldable pub is_record_header : List ℕ → Bool
  is_record_header bytes =
      if get_or bytes 0 0 == ct_application_data
      then (if get_or bytes 1 0 == 3 then get_or bytes 2 0 == 3 else Bool.false)
      else Bool.false

  unfoldable pub decrypt_record :
      DirectionalKeys → CipherSuite → List ℕ → ℕ → Result TlsError (List ℕ) × DirectionalKeys
  unfolding is_record_header unseal opened build_nonce
  decrypt_record keys suite bytes room =
      let ct_len = record_length bytes - aead_tag_len in
      if ltb (length bytes) (record_header_len + 1 + aead_tag_len)
      then (err bad_message, keys)
      else if not (is_record_header bytes)
      then (err bad_message, keys)
      else if not (record_header_len + record_length bytes == length bytes)
      then (err bad_message, keys)
      else if ltb (record_length bytes) (aead_tag_len + 1)
      then (err bad_message, keys)
      else if ltb (max_plaintext_len + 1) ct_len
      then (err buffer_too_small, keys)
      else if keys.seq == 2 ^ 64 - 1
      then (err sequence_exhausted, keys)
      else opened keys ct_len room (
          unseal suite keys.key (build_nonce keys.iv keys.seq) (take record_header_len bytes)
            (take ct_len (drop record_header_len bytes)) (drop (record_header_len + ct_len) bytes))
