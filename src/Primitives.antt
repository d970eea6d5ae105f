-- ===== src/Primitives.antt =====
-- What the bus, the attestation and the registry of the security modules are built on: the packages
-- of BLAKE3, AES-256-GCM and ML-DSA-44, and the random generator of src/capability.rs as those
-- components call it, which `Capability.Drbg.Source` fills. A failed call is `none`.
pub mod Plain
use iso_light_k.Common.{ℕ, ◌≡◌, ◌≢◌, Bool, Option, some, List, length, Result, ok}
use iso_light_k.Capability.{CapError}

pub record Crypto : Type 0 where
  pub blake3 : List ℕ → Option (List ℕ)
  -- The key, the nonce and the plain text give the cipher text and the tag.
  pub aes_gcm : List ℕ → List ℕ → List ℕ → List ℕ × List ℕ
  -- The public key, the message, the signature and the context.
  pub mldsa_verify : List ℕ → List ℕ → List ℕ → List ℕ → Option Bool
  pub length-blake3 : (bytes digest : List ℕ) → blake3 bytes ≡ some digest → length digest ≡ 32
  pub length-cipher : (key nonce plain : List ℕ) → length (aes_gcm key nonce plain).0 ≡ length plain
  pub length-tag : (key nonce plain : List ℕ) → length (aes_gcm key nonce plain).1 ≡ 16

-- AES-256-GCM and ChaCha20-Poly1305 as the services call them: the arguments are the key, the nonce,
-- the additional data and the text, to open also the tag.
pub record Aead : Type 0 where
  pub aes_seal : List ℕ → List ℕ → List ℕ → List ℕ → List ℕ × List ℕ
  pub aes_open : List ℕ → List ℕ → List ℕ → List ℕ → List ℕ → Option (List ℕ)
  pub chacha_seal : List ℕ → List ℕ → List ℕ → List ℕ → Option (List ℕ × List ℕ)
  pub chacha_open : List ℕ → List ℕ → List ℕ → List ℕ → List ℕ → Option (List ℕ)
  pub aes_sizes :
      (key nonce aad text : List ℕ)
      → (length (aes_seal key nonce aad text).0 ≡ length text)
        × (length (aes_seal key nonce aad text).1 ≡ 16)
  pub chacha_sizes :
      (key nonce aad text cipher tag : List ℕ)
      → chacha_seal key nonce aad text ≡ some (cipher, tag)
      → (length cipher ≡ length text) × (length tag ≡ 16)
  pub aes_opens :
      (key nonce aad text : List ℕ)
      → aes_open key nonce aad (aes_seal key nonce aad text).0 (aes_seal key nonce aad text).1
        ≡ some text
  pub chacha_opens :
      (key nonce aad text cipher tag : List ℕ)
      → chacha_seal key nonce aad text ≡ some (cipher, tag)
      → chacha_open key nonce aad cipher tag ≡ some text

pub record Random : Type 1 where
  pub World : Type 0
  -- `rand_bytes` into a buffer of that many bytes.
  pub rand_bytes : ℕ → World → Result CapError (List ℕ) × World
  pub gen_token_u64 : World → Result CapError ℕ × World
  pub token-ne-zero : (w : World) (t : ℕ) → (gen_token_u64 w).0 ≡ ok t → t ≢ 0
