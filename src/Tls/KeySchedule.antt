-- ===== src/Tls/KeySchedule.antt =====
-- src/tls/keyschedule.rs: the secrets of TLS 1.3 from the pre-shared key and the key exchange. The HSM
-- driver and SHA-256 are parameters. All labels are constants of at most 12 bytes: a label of more
-- than 118, on which the code panics, is not passed.
use iso_light_k.Common.{
  ℕ, ◌+◌, ◌/◌, ◌%◌, ◌||◌, Bool, false, not, ltb, ◌==◌, if◌then◌else◌, List, [], ◌∷◌, ◌++◌, length,
  replicate, Result, ok, err, bit_xor, bit_or,
}
use iso_light_k.Hmac.{CryptoError, hmac_sha256_multi, hkdf_extract, hkdf_expand}
use iso_light_k.Keystore.{HsmError}
use iso_light_k.Tls.{
  KexPolicy, hybrid, classical, TlsError, internal, kex_policy_mismatch, of_hsm_error,
  tls_kem_ss_len, aead_key_len, aead_iv_len, tls_hash_len,
}

infixl 5 ◌>>=◌
unfoldable pub ◌>>=◌ {ℓ κ} :
    {A : Type ℓ} {B : Type κ} → Result TlsError A → (A → Result TlsError B) → Result TlsError B
ok a >>= f = f a
err e >>= f = err e

-- What the handshake asks of the driver.
pub record HsmDriver : Type 0 where
  pub psk_exists : List ℕ → Bool
  pub psk_hkdf_extract : List ℕ → List ℕ → Result HsmError (List ℕ)

abbrev pub zero_hash : List ℕ
zero_hash = replicate tls_hash_len 0

-- "tls13 " and the labels, as bytes.
abbrev pub label_prefix : List ℕ
label_prefix = 116 ∷ 108 ∷ 115 ∷ 49 ∷ 51 ∷ 32 ∷ []

abbrev pub label_ext_binder : List ℕ
label_ext_binder = 101 ∷ 120 ∷ 116 ∷ 32 ∷ 98 ∷ 105 ∷ 110 ∷ 100 ∷ 101 ∷ 114 ∷ []

abbrev pub label_derived : List ℕ
label_derived = 100 ∷ 101 ∷ 114 ∷ 105 ∷ 118 ∷ 101 ∷ 100 ∷ []

abbrev pub label_c_hs_traffic : List ℕ
label_c_hs_traffic = 99 ∷ 32 ∷ 104 ∷ 115 ∷ 32 ∷ 116 ∷ 114 ∷ 97 ∷ 102 ∷ 102 ∷ 105 ∷ 99 ∷ []

abbrev pub label_s_hs_traffic : List ℕ
label_s_hs_traffic = 115 ∷ 32 ∷ 104 ∷ 115 ∷ 32 ∷ 116 ∷ 114 ∷ 97 ∷ 102 ∷ 102 ∷ 105 ∷ 99 ∷ []

abbrev pub label_c_ap_traffic : List ℕ
label_c_ap_traffic = 99 ∷ 32 ∷ 97 ∷ 112 ∷ 32 ∷ 116 ∷ 114 ∷ 97 ∷ 102 ∷ 102 ∷ 105 ∷ 99 ∷ []

abbrev pub label_s_ap_traffic : List ℕ
label_s_ap_traffic = 115 ∷ 32 ∷ 97 ∷ 112 ∷ 32 ∷ 116 ∷ 114 ∷ 97 ∷ 102 ∷ 102 ∷ 105 ∷ 99 ∷ []

abbrev pub label_key : List ℕ
label_key = 107 ∷ 101 ∷ 121 ∷ []

abbrev pub label_iv : List ℕ
label_iv = 105 ∷ 118 ∷ []

abbrev pub label_finished : List ℕ
label_finished = 102 ∷ 105 ∷ 110 ∷ 105 ∷ 115 ∷ 104 ∷ 101 ∷ 100 ∷ []

-- The info of an expansion to `n` bytes: length, label and context.
abbrev pub label_info : List ℕ → List ℕ → ℕ → List ℕ
label_info label context n =
    n / 256 ∷ n % 256 ∷ (6 + length label) ∷ (label_prefix ++ label ++ length context ∷ context)

abbrev pub to_tls : Result CryptoError (List ℕ) → Result TlsError (List ℕ)
to_tls (ok bytes) = ok bytes
to_tls (err e) = err internal

pub record ScheduleSecrets : Type 0 where
  pub early : List ℕ
  pub handshake : List ℕ
  pub master : List ℕ
  pub client_handshake_traffic : List ℕ
  pub server_handshake_traffic : List ℕ
  pub client_application_traffic_0 : List ℕ
  pub server_application_traffic_0 : List ℕ
  pub binder_key : List ℕ

abbrev pub empty_secrets : ScheduleSecrets
empty_secrets = record {
  early = zero_hash;
  handshake = zero_hash;
  master = zero_hash;
  client_handshake_traffic = zero_hash;
  server_handshake_traffic = zero_hash;
  client_application_traffic_0 = zero_hash;
  server_application_traffic_0 = zero_hash;
  binder_key = zero_hash;
}

abbrev pub of_hsm : Result HsmError (List ℕ) → Result TlsError (List ℕ)
of_hsm (ok bytes) = ok bytes
of_hsm (err e) = err (of_hsm_error e)

-- The length of the shared secret that a policy expects.
abbrev pub expected_len : KexPolicy → ℕ
expected_len classical = tls_kem_ss_len
expected_len hybrid = tls_kem_ss_len + tls_kem_ss_len

-- The fold of `diff |= x ^ y`.
unfoldable pub diff_of : ℕ → List ℕ → List ℕ → ℕ
diff_of d [] bs = d
diff_of d (a ∷ xs) [] = d
diff_of d (a ∷ xs) (b ∷ ys) = diff_of (bit_or d (bit_xor a b)) xs ys

unfoldable pub ct_eq_bytes : List ℕ → List ℕ → Bool
unfolding diff_of
ct_eq_bytes a b = if not (length a == length b) then false else diff_of 0 a b == 0

-- A failed derivation leaves secrets that no caller reads.
module _ (sha256 : List ℕ → List ℕ) where
  unfoldable pub hkdf_expand_label : List ℕ → List ℕ → List ℕ → ℕ → Result TlsError (List ℕ)
  unfolding hkdf_expand
  hkdf_expand_label secret label context n =
      if ltb 255 (6 + length label) || ltb 255 (length context)
      then err internal
      else if ltb 65535 n
      then err internal
      else if ltb 128 (10 + length label + length context)
      then err internal
      else to_tls (hkdf_expand sha256 secret (label_info label context n) n)

  unfoldable pub derive_secret : List ℕ → List ℕ → List ℕ → Result TlsError (List ℕ)
  unfolding hkdf_expand_label
  derive_secret prk label transcript_hash = hkdf_expand_label prk label transcript_hash tls_hash_len

  abbrev pub sha256_of_empty : List ℕ
  sha256_of_empty = sha256 []

  unfoldable pub derive_early_secrets :
      HsmDriver → List ℕ → ScheduleSecrets → Result TlsError ScheduleSecrets
  unfolding derive_secret
  derive_early_secrets hsm psk_id s = do
    early ← of_hsm (hsm.psk_hkdf_extract psk_id zero_hash)
    binder_key ← derive_secret early label_ext_binder sha256_of_empty
    ok (record s { early = early; binder_key = binder_key })

  unfoldable pub derive_handshake_secrets :
      ScheduleSecrets → List ℕ → List ℕ → KexPolicy → Result TlsError ScheduleSecrets
  unfolding derive_secret
  derive_handshake_secrets s ecdhe_ss transcript_hash policy =
      if not (length ecdhe_ss == expected_len policy) then err kex_policy_mismatch else do
        early_derived ← derive_secret s.early label_derived sha256_of_empty
        let handshake = hkdf_extract sha256 early_derived ecdhe_ss
        c ← derive_secret handshake label_c_hs_traffic transcript_hash
        t ← derive_secret handshake label_s_hs_traffic transcript_hash
        ok (record s {
          handshake = handshake;
          client_handshake_traffic = c;
          server_handshake_traffic = t;
        })

  unfoldable pub derive_master_and_app_secrets :
      ScheduleSecrets → List ℕ → Result TlsError ScheduleSecrets
  unfolding derive_secret
  derive_master_and_app_secrets s transcript_hash = do
    hs_derived ← derive_secret s.handshake label_derived sha256_of_empty
    let master = hkdf_extract sha256 hs_derived zero_hash
    c ← derive_secret master label_c_ap_traffic transcript_hash
    t ← derive_secret master label_s_ap_traffic transcript_hash
    ok (record s {
      master = master;
      client_application_traffic_0 = c;
      server_application_traffic_0 = t;
    })

  -- The key and the IV.
  unfoldable pub derive_traffic_keys : List ℕ → Result TlsError (List ℕ × List ℕ)
  unfolding hkdf_expand_label
  derive_traffic_keys traffic_secret = do
    key ← hkdf_expand_label traffic_secret label_key [] aead_key_len
    iv ← hkdf_expand_label traffic_secret label_iv [] aead_iv_len
    ok (key, iv)

  unfoldable pub derive_finished_key : List ℕ → Result TlsError (List ℕ)
  unfolding hkdf_expand_label
  derive_finished_key traffic_secret =
      hkdf_expand_label traffic_secret label_finished [] tls_hash_len

  unfoldable pub compute_verify_data : List ℕ → List ℕ → List ℕ
  compute_verify_data finished_key transcript_hash =
      hmac_sha256_multi sha256 finished_key (transcript_hash ∷ [])

  unfoldable pub compute_binder : List ℕ → List ℕ → Result TlsError (List ℕ)
  unfolding derive_finished_key compute_verify_data
  compute_binder binder_key transcript_hash = do
    finished_key ← derive_finished_key binder_key
    ok (compute_verify_data finished_key transcript_hash)
