-- ===== src/Sign.antt =====
-- src/sign_service.rs: the ML-DSA service of EP_SIGN, one session at a time. The static session and
-- its four buffers are the record `Signer`, which every handler takes and returns. ML-DSA-44 is a
-- package, and a parameter.
pub mod Plain
pub mod Session
pub mod Service
use iso_light_k.Common.{ℕ, ◌+◌, ◌≡◌, Bool, Option, some, List, length, replicate}

abbrev pub pk_len : ℕ
pk_len = 1312

abbrev pub sk_len : ℕ
sk_len = 2560

abbrev pub sig_len : ℕ
sig_len = 2420

abbrev pub msg_buf_len : ℕ
msg_buf_len = 1020

abbrev pub out_buf_len : ℕ
out_buf_len = pk_len + sk_len

abbrev pub chunk_size : ℕ
chunk_size = 240

-- A buffer that is erased.
unfoldable pub zeros : ℕ → List ℕ
zeros n = replicate n 0

pub data Op : Type 0 where
  keygen sign verify : Op

pub data Phase : Type 0 where
  idle collect_key collect_aux collect_msg ready output_ready : Phase

pub data SignError : Type 0 where
  invalid_phase invalid_op invalid_variant size_too_large : SignError
  chunk_overflow exec_failed verify_failed invalid_request : SignError

unfoldable pub error_code : SignError → ℕ
error_code invalid_phase = 1
error_code invalid_op = 2
error_code invalid_variant = 3
error_code size_too_large = 4
error_code chunk_overflow = 5
error_code exec_failed = 6
error_code verify_failed = 7
error_code invalid_request = 8

pub record SignSession : Type 0 where
  pub phase : Phase
  pub op : Op
  pub key_total : ℕ
  pub aux_total : ℕ
  pub msg_total : ℕ
  pub key_recv : ℕ
  pub aux_recv : ℕ
  pub msg_recv : ℕ
  pub out_total : ℕ
  pub verify_ok : Bool

pub record Signer : Type 0 where
  pub session : SignSession
  pub key_buf : List ℕ
  pub aux_buf : List ℕ
  pub msg_buf : List ℕ
  pub out_buf : List ℕ

-- What the service calls of the package: `none` is an error.
pub record Mldsa : Type 0 where
  -- A seed gives the public and the secret key.
  pub keygen : List ℕ → Option (List ℕ × List ℕ)
  -- The secret key, the message, the context and the random bytes.
  pub sign : List ℕ → List ℕ → List ℕ → List ℕ → Option (List ℕ)
  -- The public key, the message, the signature and the context.
  pub verify : List ℕ → List ℕ → List ℕ → List ℕ → Option Bool
  pub length-keygen :
      (seed pk sk : List ℕ)
      → keygen seed ≡ some (pk, sk)
      → (length pk ≡ pk_len) × (length sk ≡ sk_len)
  pub length-sign :
      (sk msg ctx rnd sig : List ℕ) → sign sk msg ctx rnd ≡ some sig → length sig ≡ sig_len
