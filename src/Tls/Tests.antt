-- ===== src/Tls/Tests.antt =====
-- The theorems on src/tls at concrete inputs.
use iso_light_k.Common.{ℕ, true, ◌≡◌, refl, none, some, List, [], ◌∷◌, replicate, ok, err, arith}
use iso_light_k.Primitives.Plain.{plain_cipher, plain_tag, constant_random}
use iso_light_k.Hmac.{hmac_sha256_multi, hkdf_extract, expand_loop, hkdf_expand}
use iso_light_k.Tls.{
  closed, hybrid, chacha20_poly1305_sha256, connected, pool_full, DirectionalKeys, empty_keys,
  TlsConnection, TlsPool, empty_connection, first_free, alloc_slot, slot,
}
use iso_light_k.Tls.Transcript.{update}
use iso_light_k.Tls.KeySchedule
use iso_light_k.Tls.KeySchedule.{
  HsmDriver, diff_of, ct_eq_bytes, hkdf_expand_label, derive_secret, derive_early_secrets,
  derive_handshake_secrets, derive_master_and_app_secrets, derive_traffic_keys, derive_finished_key,
  compute_verify_data, compute_binder,
}
use iso_light_k.Tls.Record.{
  build_aad, seal, sealed_record, with_aad, encrypt_record, decrypt_record,
}
use iso_light_k.Tls.Record.Laws.{decrypt_record-encrypt_record}
use iso_light_k.Tls.Handshake.{
  Kex, write_handshake_header, both, heard, with_secrets, require_equal, open_psk, bind_hello,
  hear_server, finish, finish_both, install, install_both, conclude,
}
use iso_light_k.Tls.Handshake.Action.{
  agree_x25519, agree_mlkem, bind, keygen, agree, exchange_hellos, do_handshake,
}
use iso_light_k.Tls.Loopback.{settle, open_server, open_client, run_loopback, loopback_send_recv}
use iso_light_k.Tls.Loopback.Laws.{Linked, loopback_send_recv-Linked, run_loopback-Linked}
use iso_light_k.Tls.Loopback.Leak.{run_loopback_exhausts}

abbrev record_bytes : List ℕ
record_bytes = 23 ∷ 3 ∷ 3 ∷ 0 ∷ 19 ∷ 5 ∷ 6 ∷ 23 ∷ plain_tag

abbrev next_keys : DirectionalKeys
next_keys = record empty_keys { seq = 1 }

record_made :
    encrypt_record plain_cipher empty_keys chacha20_poly1305_sha256 (5 ∷ 6 ∷ []) 256
    ≡ (ok record_bytes, next_keys)
unfolding encrypt_record with_aad build_aad seal sealed_record
record_made = refl

decrypt_record-encrypt_record_example :
    (decrypt_record plain_cipher empty_keys chacha20_poly1305_sha256 record_bytes 2
      ≡ (ok (5 ∷ 6 ∷ []), next_keys))
    × (next_keys ≡ next_keys)
decrypt_record-encrypt_record_example =
    decrypt_record-encrypt_record plain_cipher empty_keys next_keys chacha20_poly1305_sha256
      (5 ∷ 6 ∷ []) record_bytes 256 2 record_made (omega arith)

abbrev same_digest : List ℕ → List ℕ
same_digest bytes = replicate 32 7

abbrev kex : Kex
kex = record {
  public_key = λ sk. sk;
  diffie_hellman = λ sk pk. some (replicate 32 2);
  mlkem768_keygen = λ d z. (replicate 1184 3, replicate 2400 4);
  mlkem768_encaps = λ ek m. some (replicate 1088 5, replicate 32 6);
  mlkem768_decaps = λ ct dk. replicate 32 6;
}

abbrev driver : HsmDriver
driver = record { psk_exists = λ id. true; psk_hkdf_extract = λ id salt. ok (replicate 32 8) }

abbrev empty_pool : TlsPool
empty_pool = none ∷ none ∷ none ∷ none ∷ []

abbrev linked_pool : TlsPool
linked_pool =
    (run_loopback same_digest kex constant_random driver closed hybrid chacha20_poly1305_sha256
      (replicate 16 1) empty_pool tt).1

handshake_done :
    run_loopback same_digest kex constant_random driver closed hybrid chacha20_poly1305_sha256
      (replicate 16 1)
      empty_pool
      tt
    ≡ (ok (0, 1), linked_pool, tt)
unfolding run_loopback open_client open_server settle alloc_slot first_free slot do_handshake keygen
    agree exchange_hellos agree_x25519 agree_mlkem bind write_handshake_header both heard
    with_secrets require_equal open_psk bind_hello hear_server finish finish_both install
    install_both conclude update KeySchedule.◌>>=◌ diff_of ct_eq_bytes hkdf_expand_label
    derive_secret derive_early_secrets derive_handshake_secrets derive_master_and_app_secrets
    derive_traffic_keys derive_finished_key compute_verify_data compute_binder hmac_sha256_multi
    hkdf_extract expand_loop hkdf_expand
handshake_done = refl

run_loopback-Linked_example : Linked linked_pool 0 1
run_loopback-Linked_example =
    run_loopback-Linked same_digest kex constant_random driver closed hybrid
      chacha20_poly1305_sha256 (replicate 16 1) empty_pool linked_pool 0 1 tt tt handshake_done

abbrev connection : TlsConnection
connection = record empty_connection { state = connected; suite = chacha20_poly1305_sha256 }

abbrev two_connected : TlsPool
two_connected = some connection ∷ some connection ∷ []

two_connected-Linked : Linked two_connected 0 1
unfolding slot
two_connected-Linked = record {
  client_end = connection;
  server_end = connection;
  client_there = refl;
  server_there = refl;
  client_connected = refl;
  server_connected = refl;
  to_server = refl;
  to_client = refl;
  apart = λ e. absurd (omega (arith, e));
}

loopback_send_recv-Linked_example :
    ((loopback_send_recv plain_cipher two_connected 0 1 (5 ∷ 6 ∷ []) 2).0 ≡ ok (5 ∷ 6 ∷ []))
    × Linked (loopback_send_recv plain_cipher two_connected 0 1 (5 ∷ 6 ∷ []) 2).1 0 1
unfolding two_connected-Linked
loopback_send_recv-Linked_example =
    loopback_send_recv-Linked plain_cipher two_connected 0 1 two_connected-Linked (5 ∷ 6 ∷ [])
      record_bytes 2 next_keys record_made (omega arith)

-- The last slot is free.
abbrev three_used : TlsPool
three_used = some connection ∷ some connection ∷ some connection ∷ none ∷ []

last_slot : first_free three_used ≡ some 3
unfolding first_free
last_slot = refl

none_after :
    first_free (some connection ∷ some connection ∷ some connection ∷ some empty_connection ∷ [])
    ≡ none
unfolding first_free
none_after = refl

run_loopback_exhausts_example :
    (left : TlsPool) × (run_loopback same_digest kex constant_random driver closed hybrid
        chacha20_poly1305_sha256
        (replicate 16 1)
        three_used
        tt
      ≡ (err pool_full, left, tt))
    × (alloc_slot left ≡ (err pool_full, left))
run_loopback_exhausts_example =
    run_loopback_exhausts same_digest kex constant_random driver closed hybrid
      chacha20_poly1305_sha256 (replicate 16 1) three_used 3 tt last_slot none_after
