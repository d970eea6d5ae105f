-- ===== src/Hmac.antt =====
-- HMAC and HKDF of src/crypto_service.rs, over a parameter for SHA-256, which is a package.
-- The streamed updates of the hash are one application to the bytes in order.
pub mod Laws
mod Tests
use iso_light_k.Common.{
  ℕ, zero, suc, ◌+◌, ◌-◌, ◌%◌, ◌*◌, min, ltb, ◌==◌, if◌then◌else◌, Option, none, some, List, [],
  ◌∷◌, ◌++◌, map, length, take, replicate, bit_xor, Result, ok, err,
}

abbrev pub sha256_block_size : ℕ
sha256_block_size = 64

abbrev pub sha256_output_size : ℕ
sha256_output_size = 32

abbrev pub hkdf_max_output : ℕ
hkdf_max_output = 168

pub data CryptoError : Type 0 where
  unknown_algorithm invalid_key_length invalid_nonce_length invalid_data_length : CryptoError
  authentication_failed invalid_request output_too_large weak_nonce : CryptoError

module _ (sha256 : List ℕ → List ℕ) where
  abbrev zero_padded : List ℕ → List ℕ
  zero_padded bytes = bytes ++ replicate (sha256_block_size - length bytes) 0

  abbrev pub key_block : List ℕ → List ℕ
  key_block key =
      if ltb sha256_block_size (length key) then zero_padded (sha256 key) else zero_padded key

  abbrev pub concat : List (List ℕ) → List ℕ
  concat [] = []
  concat (chunk ∷ chunks) = chunk ++ concat chunks

  unfoldable pub hmac_sha256_multi : List ℕ → List (List ℕ) → List ℕ
  hmac_sha256_multi key data_chunks =
      let ipad = map (bit_xor 0x36) (key_block key) in
      let opad = map (bit_xor 0x5c) (key_block key) in
      let inner = sha256 (ipad ++ concat data_chunks) in sha256 (opad ++ inner)

  unfoldable pub hkdf_extract : List ℕ → List ℕ → List ℕ
  hkdf_extract salt ikm = hmac_sha256_multi salt (ikm ∷ [])

  -- T(i) from T(i - 1), which the first block lacks.
  abbrev pub next_block : List ℕ → List ℕ → Option (List ℕ) → ℕ → List ℕ
  next_block prk info none counter = hmac_sha256_multi prk (info ∷ (counter ∷ []) ∷ [])
  next_block prk info (some t) counter = hmac_sha256_multi prk (t ∷ info ∷ (counter ∷ []) ∷ [])

  -- The loop, with the bytes that are left to produce, which are enough fuel.
  unfoldable pub expand_loop : ℕ → List ℕ → List ℕ → Option (List ℕ) → ℕ → ℕ → List ℕ
  expand_loop zero prk info prev counter left = []
  expand_loop (suc fuel) prk info prev counter left =
      let t = next_block prk info prev counter in
      let n = min sha256_output_size left in
      let rest = take n t ++ expand_loop fuel prk info (some t) ((counter + 1) % 256) (left - n) in
      if left == 0 then [] else rest

  unfoldable pub hkdf_expand : List ℕ → List ℕ → ℕ → Result CryptoError (List ℕ)
  unfolding expand_loop
  hkdf_expand prk info n =
      if ltb hkdf_max_output n
      then err output_too_large
      else if ltb (255 * sha256_output_size) n
      then err output_too_large
      else ok (expand_loop n prk info none 1 n)
