-- ===== src/Tls/Handshake.antt =====
-- src/tls/handshake.rs: `do_handshake`, both ends of which run in this kernel, from the two fresh
-- connections to the connected ones. X25519 and ML-KEM-768 are packages and a parameter, as are SHA-256
-- and the random generator. The keys, hashes and random values have the fixed sizes of their arrays, so
-- a message is the concatenation of its parts.
pub mod Action
pub mod Agreement
pub mod Header
use iso_light_k.Common.{
  ℕ, ◌+◌, ◌*◌, ◌/◌, ◌%◌, not, ltb, if◌then◌else◌, Option, none, some, List, [], ◌∷◌, ◌++◌, Result,
  ok, err, get_or, length,
}
use iso_light_k.Tls.{
  KexPolicy, hybrid, classical, CipherSuite, suite_code, TlsError, bad_message, unknown_psk,
  internal, buffer_too_small, finished_mismatch, TlsConnection, connected, DirectionalKeys,
  tls_hash_len,
}
use iso_light_k.Tls.Transcript.{update, snapshot}
use iso_light_k.Tls.KeySchedule.{
  HsmDriver, ScheduleSecrets, empty_secrets, ct_eq_bytes, derive_early_secrets,
  derive_handshake_secrets, derive_master_and_app_secrets, derive_traffic_keys, derive_finished_key,
  compute_verify_data, compute_binder, ◌>>=◌,
}

abbrev pub hs_type_client_hello : ℕ
hs_type_client_hello = 1

abbrev pub hs_type_server_hello : ℕ
hs_type_server_hello = 2

abbrev pub hs_type_finished : ℕ
hs_type_finished = 20

abbrev pub hs_header_len : ℕ
hs_header_len = 4

-- The first bytes of a buffer of `room`.
unfoldable pub write_handshake_header : ℕ → ℕ → ℕ → Result TlsError (List ℕ)
write_handshake_header room hs_type payload_len =
    if ltb 16777215 payload_len
    then err internal
    else if ltb room hs_header_len
    then err buffer_too_small
    else ok (hs_type ∷ payload_len / 65536 % 256 ∷ payload_len / 256 % 256 ∷ payload_len % 256 ∷ [])

unfoldable pub parse_handshake_header : List ℕ → Result TlsError (ℕ × ℕ)
parse_handshake_header buf =
    if ltb (length buf) hs_header_len
    then err bad_message
    else ok (get_or buf 0 0, get_or buf 1 0 * 65536 + get_or buf 2 0 * 256 + get_or buf 3 0)

pub record Kex : Type 0 where
  pub public_key : List ℕ → List ℕ
  -- `none` for a shared secret that the package refuses.
  pub diffie_hellman : List ℕ → List ℕ → Option (List ℕ)
  -- The seeds give the encapsulation key and the decapsulation key.
  pub mlkem768_keygen : List ℕ → List ℕ → List ℕ × List ℕ
  -- The cipher text and the shared secret.
  pub mlkem768_encaps : List ℕ → List ℕ → Option (List ℕ × List ℕ)
  pub mlkem768_decaps : List ℕ → List ℕ → List ℕ

abbrev pub ch_fixed_prefix_len : ℕ
ch_fixed_prefix_len = 16 + 32 + 1 + 1 + 32

abbrev pub ch_payload_len : KexPolicy → ℕ
ch_payload_len hybrid = ch_fixed_prefix_len + 1184 + 1 + tls_hash_len
ch_payload_len classical = ch_fixed_prefix_len + 0 + 1 + tls_hash_len

abbrev pub sh_payload_len : KexPolicy → ℕ
sh_payload_len hybrid = 32 + 1 + 32 + 1088
sh_payload_len classical = 32 + 1 + 32 + 0

abbrev pub policy_code : KexPolicy → ℕ
policy_code hybrid = 1
policy_code classical = 0

-- What one end holds while the handshake runs.
pub record View : Type 0 where
  pub secrets : ScheduleSecrets
  pub transcript : List ℕ

-- The client and the server.
abbrev pub Views : Type 0
Views = View × View

unfoldable pub both : (View → Result TlsError View) → Views → Result TlsError Views
both f (c, s) = f c >>= λ c'. f s >>= λ s'. ok (c', s')

unfoldable pub heard : List ℕ → View → Result TlsError View
heard msg v = update v.transcript msg >>= λ t. ok (record v { transcript = t })

unfoldable pub with_secrets : Result TlsError ScheduleSecrets → View → Result TlsError View
with_secrets r v = r >>= λ s. ok (record v { secrets = s })

abbrev pub or_internal {ℓ} : {A : Type ℓ} → Option A → Result TlsError A
or_internal none = err internal
or_internal (some a) = ok a

-- What follows the comparison of two codes.
unfoldable pub require_equal {ℓ} :
    {A : Type ℓ} → List ℕ → List ℕ → Result TlsError A → Result TlsError A
require_equal code expected rest =
    if not (ct_eq_bytes code expected) then err finished_mismatch else rest

-- The client hello before its binder.
abbrev pub truncated_hello :
    List ℕ → List ℕ → List ℕ → CipherSuite → KexPolicy → List ℕ → List ℕ → List ℕ
truncated_hello header psk_id client_random suite policy client_pk ek =
    header ++ psk_id ++ client_random ++ suite_code suite ∷ policy_code policy ∷ (client_pk ++ ek)

module _ (sha256 : List ℕ → List ℕ) where
  unfoldable pub open_psk : HsmDriver → List ℕ → Views → Result TlsError Views
  open_psk hsm psk_id v =
      if hsm.psk_exists psk_id
      then both (λ w. with_secrets (derive_early_secrets sha256 hsm psk_id w.secrets) w) v
      else err unknown_psk

  -- The binder of the client, and its check by the server.
  unfoldable pub bind_hello : List ℕ → Views → Result TlsError Views
  bind_hello truncated (c, s) = do
    heard_hello ← update [] truncated
    let truncated_hash = snapshot sha256 heard_hello
    binder ← compute_binder sha256 c.secrets.binder_key truncated_hash
    binder_expected ← compute_binder sha256 s.secrets.binder_key truncated_hash
    require_equal binder binder_expected (both (heard (truncated ++ tls_hash_len ∷ binder)) (c, s))

  -- The server hello is heard, and the secrets of the handshake follow, with its hash.
  unfoldable pub hear_server :
      List ℕ → List ℕ → KexPolicy → Views → Result TlsError (Views × List ℕ)
  hear_server sh ecdhe_ss policy v = do
    v' ← both (heard sh) v
    let h_ch_sh = snapshot sha256 v'.0.transcript
    v'' ←
        both
          (λ w. with_secrets (derive_handshake_secrets sha256 w.secrets ecdhe_ss h_ch_sh policy) w)
          v'
    ok (v'', h_ch_sh)

  -- A finished message under the traffic secret of its sender, checked under that of its receiver.
  unfoldable pub finish : (View → List ℕ) → List ℕ → View → View → Views → Result TlsError Views
  finish traffic hash sender receiver v = do
    fin_key ← derive_finished_key sha256 (traffic sender)
    header ← write_handshake_header (hs_header_len + tls_hash_len) hs_type_finished tls_hash_len
    view_fin_key ← derive_finished_key sha256 (traffic receiver)
    let verify = compute_verify_data sha256 fin_key hash
    require_equal verify (compute_verify_data sha256 view_fin_key hash)
        (both (heard (header ++ verify)) v)

  unfoldable pub finish_both : Views × List ℕ → Result TlsError Views
  finish_both (v, h_ch_sh) = do
    v' ← finish (λ w. w.secrets.server_handshake_traffic) h_ch_sh v.1 v.0 v
    v'' ←
        finish (λ w. w.secrets.client_handshake_traffic) (snapshot sha256 v'.0.transcript) v'.0 v'.1
          v'
    let h_ch_cf = snapshot sha256 v''.0.transcript
    both (λ w. with_secrets (derive_master_and_app_secrets sha256 w.secrets h_ch_cf) w) v''

  -- The keys of the application.
  unfoldable pub install : TlsConnection → List ℕ → List ℕ → List ℕ → Result TlsError TlsConnection
  install conn transcript write_secret read_secret = do
    w ← derive_traffic_keys sha256 write_secret
    r ← derive_traffic_keys sha256 read_secret
    ok (record conn {
      transcript = transcript;
      app_write = record { key = w.0; iv = w.1; seq = 0 };
      app_read = record { key = r.0; iv = r.1; seq = 0 };
      state = connected;
    })

  unfoldable pub install_both :
      TlsConnection × TlsConnection → Views → Result TlsError (TlsConnection × TlsConnection)
  install_both (client, server) (c, s) = do
    client' ←
        install client c.transcript c.secrets.client_application_traffic_0
          c.secrets.server_application_traffic_0
    server' ←
        install server s.transcript s.secrets.server_application_traffic_0
          s.secrets.client_application_traffic_0
    ok (client', server')

  -- After the exchange of the hellos nothing is drawn.
  unfoldable pub conclude :
      KexPolicy
      → TlsConnection × TlsConnection
      → Views × List ℕ × List ℕ
      → Result TlsError (TlsConnection × TlsConnection)
  conclude policy conns (v, sh, ecdhe_ss) = do
    heard_it ← hear_server sh ecdhe_ss policy v
    finished ← finish_both heard_it
    install_both conns finished

abbrev pub fresh_view : TlsConnection → View
fresh_view conn = record { secrets = empty_secrets; transcript = conn.transcript }
