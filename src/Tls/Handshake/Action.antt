-- ===== src/Tls/Handshake/Action.antt =====
-- `do_handshake` (src/tls/handshake.rs): its steps in order, with the random values that it draws
-- between them.
use iso_light_k.Common.{
  ℕ, ◌+◌, not, if◌then◌else◌, Option, none, some, List, [], ◌∷◌, ◌++◌, Result, ok, err,
}
use iso_light_k.Capability.{CapError}
use iso_light_k.Primitives.{Random}
use iso_light_k.Tls.{
  KexPolicy, hybrid, classical, CipherSuite, suite_code, TlsError, hsm_failure, internal,
  TlsConnection,
}
use iso_light_k.Tls.KeySchedule.{HsmDriver, ct_eq_bytes}
use iso_light_k.Tls.Handshake.{
  Kex, Views, write_handshake_header, hs_type_client_hello, hs_type_server_hello, hs_header_len,
  ch_payload_len, sh_payload_len, truncated_hello, open_psk, bind_hello, conclude, fresh_view,
}

abbrev pub of_cap_error {ℓ} : {A : Type ℓ} → Result CapError A → Result TlsError A
of_cap_error (ok a) = ok a
of_cap_error (err e) = err hsm_failure

-- The keys of ML-KEM, where the policy asks for them.
abbrev pub KemKeys : Type 0
KemKeys = Option (List ℕ × List ℕ)

abbrev pub kem_ek : KemKeys → List ℕ
kem_ek none = []
kem_ek (some (ek, dk)) = ek

-- What the server adds to its hello, and the shared secret.
abbrev pub Shared : Type 0
Shared = List ℕ × List ℕ

unfoldable pub agree_x25519 : Kex → List ℕ → List ℕ → Result TlsError (List ℕ)
agree_x25519 kex client_sk server_sk =
    elim (kex.diffie_hellman client_sk (kex.public_key server_sk)) [
      | none ↦ err internal
      | some client_ss ↦ elim (kex.diffie_hellman server_sk (kex.public_key client_sk)) [
        | none ↦ err internal
        | some server_ss ↦
            if not (ct_eq_bytes client_ss server_ss) then err internal else ok client_ss
      ]
    ]

unfoldable pub agree_mlkem : Kex → List ℕ → List ℕ → List ℕ → List ℕ → Result TlsError Shared
agree_mlkem kex ek dk m client_ss = elim (kex.mlkem768_encaps ek m) [
  | none ↦ err internal
  | some (kem_ct, kem_ss_server) ↦
      let kem_ss_client = kex.mlkem768_decaps kem_ct dk in
      if not (ct_eq_bytes kem_ss_client kem_ss_server)
      then err internal
      else ok (kem_ct, client_ss ++ kem_ss_client)
]

module _ (sha256 : List ℕ → List ℕ) (kex : Kex) (rand : Random) where
  abbrev pub Action : Type 0 → Type 0
  Action A = rand.World → Result TlsError A × rand.World

  unfoldable pub bind :
      {A B : Type 0}
      → (A → Action B)
      → Result TlsError A × rand.World
      → Result TlsError B × rand.World
  bind f (ok a, w) = f a w
  bind f (err e, w) = (err e, w)

  infixl 5 ◌>>=◌
  abbrev pub ◌>>=◌ : {A B : Type 0} → Action A → (A → Action B) → Action B
  ◌>>=◌ m f w = bind f (m w)

  abbrev pub lift : {A : Type 0} → Result TlsError A → Action A
  lift r w = (r, w)

  abbrev pub draw : ℕ → Action (List ℕ)
  draw n w = let (r, w') = rand.rand_bytes n w in (of_cap_error r, w')

  unfoldable pub keygen : KexPolicy → Action KemKeys
  keygen hybrid = do d ← draw 32; z ← draw 32; lift (ok (some (kex.mlkem768_keygen d z)))
  keygen classical = lift (ok none)

  unfoldable pub agree : KexPolicy → KemKeys → List ℕ → Action Shared
  agree classical keys client_ss = lift (ok ([], client_ss))
  agree hybrid none client_ss = lift (err internal)
  agree hybrid (some (ek, dk)) client_ss = do m ← draw 32; lift (agree_mlkem kex ek dk m client_ss)

  -- From the client hello to the shared secret: the views, the server hello, the secret.
  unfoldable pub exchange_hellos :
      KexPolicy
      → CipherSuite
      → List ℕ
      → List ℕ
      → List ℕ
      → KemKeys
      → Views
      → Action (Views × List ℕ × List ℕ)
  exchange_hellos policy suite psk_id client_sk server_sk keys v = do
    ch ← lift (
        write_handshake_header (hs_header_len + ch_payload_len hybrid) hs_type_client_hello
          (ch_payload_len policy))
    client_random ← draw 32
    v' ← lift (
        bind_hello sha256
          (truncated_hello ch psk_id client_random suite policy (kex.public_key client_sk)
            (kem_ek keys))
          v)
    sh ← lift (
        write_handshake_header (hs_header_len + sh_payload_len hybrid) hs_type_server_hello
          (sh_payload_len policy))
    server_random ← draw 32
    client_ss ← lift (agree_x25519 kex client_sk server_sk)
    shared ← agree policy keys client_ss
    lift (
        ok (
          v',
          sh ++ server_random ++ suite_code suite ∷ (kex.public_key server_sk ++ shared.0),
          shared.1,
        ))

  unfoldable pub do_handshake :
      HsmDriver
      → TlsConnection × TlsConnection
      → KexPolicy
      → CipherSuite
      → List ℕ
      → Action (TlsConnection × TlsConnection)
  do_handshake hsm (client, server) policy suite psk_id = do
    client_sk ← draw 32
    server_sk ← draw 32
    keys ← keygen policy
    v ← lift (open_psk sha256 hsm psk_id (fresh_view client, fresh_view server))
    x ← exchange_hellos policy suite psk_id client_sk server_sk keys v
    lift (conclude sha256 policy (client, server) x)
