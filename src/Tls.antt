-- ===== src/Tls.antt =====
-- src/tls: TLS 1.3 with pre-shared keys inside the kernel. Here the constants, the errors and the pool
-- of connections of src/tls/mod.rs; the static TLS_POOL is passed along.
pub mod Transcript
pub mod KeySchedule
pub mod Record
pub mod Handshake
pub mod Slots
pub mod Loopback
mod Tests
use iso_light_k.Common.{
  ℕ, zero, suc, ◌+◌, Bool, true, false, Option, none, some, List, [], ◌∷◌, replicate, set,
  get_elem?, Result, ok, err,
}
use iso_light_k.Keystore.{HsmError, psk_not_found, not_provisioned, zero_id}
use iso_light_k.Keystore

abbrev pub max_tls_conns : ℕ
max_tls_conns = 4

abbrev pub transcript_buf_len : ℕ
transcript_buf_len = 4096

abbrev pub aead_key_len : ℕ
aead_key_len = 32

abbrev pub aead_iv_len : ℕ
aead_iv_len = 12

abbrev pub aead_tag_len : ℕ
aead_tag_len = 16

abbrev pub tls_hash_len : ℕ
tls_hash_len = 32

abbrev pub tls_kem_ss_len : ℕ
tls_kem_ss_len = 32

-- The external profile is there in builds with the feature `tls-external` only.
pub data Profile : Type 0 where
  closed external : Profile

pub data KexPolicy : Type 0 where
  hybrid classical : KexPolicy

pub data CipherSuite : Type 0 where
  aes256_gcm_sha256 chacha20_poly1305_sha256 : CipherSuite

abbrev pub suite_code : CipherSuite → ℕ
suite_code aes256_gcm_sha256 = 1
suite_code chacha20_poly1305_sha256 = 2

pub data Side : Type 0 where
  client server : Side

pub data TlsError : Type 0 where
  pool_full invalid_handle transcript_overflow bad_message unexpected_state : TlsError
  unknown_psk profile_disabled hsm_failure authentication_failed finished_mismatch : TlsError
  sequence_exhausted buffer_too_small kex_policy_mismatch internal : TlsError

-- `From<HsmError>`.
unfoldable pub of_hsm_error : HsmError → TlsError
of_hsm_error psk_not_found = unknown_psk
of_hsm_error not_provisioned = hsm_failure
of_hsm_error Keystore.internal = hsm_failure

pub record DirectionalKeys : Type 0 where
  pub key : List ℕ
  pub iv : List ℕ
  pub seq : ℕ

-- `wipe` leaves it too.
abbrev pub empty_keys : DirectionalKeys
empty_keys = record { key = replicate aead_key_len 0; iv = replicate aead_iv_len 0; seq = 0 }

pub data ConnState : Type 0 where
  free handshaking connected closed_state : ConnState

-- The transcript is the part of its buffer that is filled.
pub record TlsConnection : Type 0 where
  pub state : ConnState
  pub side : Side
  pub profile : Profile
  pub policy : KexPolicy
  pub suite : CipherSuite
  pub psk_id : List ℕ
  pub transcript : List ℕ
  pub app_write : DirectionalKeys
  pub app_read : DirectionalKeys

abbrev pub empty_connection : TlsConnection
empty_connection = record {
  state = free;
  side = client;
  profile = closed;
  policy = hybrid;
  suite = aes256_gcm_sha256;
  psk_id = zero_id;
  transcript = [];
  app_write = empty_keys;
  app_read = empty_keys;
}

abbrev pub TlsPool : Type 0
TlsPool = List (Option TlsConnection)

-- The first free slot is taken.
unfoldable pub first_free : TlsPool → Option ℕ
first_free [] = none
first_free (none ∷ pool) = some 0
first_free (some c ∷ pool) = elim (first_free pool) [ none ↦ none | some i ↦ some (suc i) ]

unfoldable pub alloc_slot : TlsPool → Result TlsError ℕ × TlsPool
unfolding first_free
alloc_slot pool = elim (first_free pool) [
  | none ↦ (err pool_full, pool)
  | some i ↦ (ok i, set pool i (some empty_connection))
]

abbrev pub connection_of : Option (Option TlsConnection) → Result TlsError TlsConnection
connection_of (some (some c)) = ok c
connection_of (some none) = err invalid_handle
connection_of none = err invalid_handle

unfoldable pub slot : TlsPool → ℕ → Result TlsError TlsConnection
slot pool h = connection_of (get_elem? pool h)

-- What a change through the reference of `slot` leaves.
abbrev pub put : ℕ → TlsConnection → TlsPool → TlsPool
put h c pool = set pool h (some c)

-- A connection that is closed is wiped before it is dropped.
unfoldable pub close : TlsPool → ℕ → Result TlsError (Unit {0}) × TlsPool
close pool h = elim (get_elem? pool h) [
  | none ↦ (err invalid_handle, pool)
  | some c ↦ (ok tt, set pool h none)
]

unfoldable pub wipe_all : TlsPool → TlsPool
wipe_all [] = []
wipe_all (c ∷ pool) = none ∷ wipe_all pool
