-- ===== src/Tls/Loopback.antt =====
-- `run_loopback` and `loopback_send_recv` (src/tls/handshake.rs): two connections of the pool are
-- connected to each other, and what one sends the other receives. Where the code writes through the
-- reference of a slot, the pool gets the changed connection.
pub mod Laws
pub mod Leak
use iso_light_k.Common.{ℕ, List, Result, ok, err}
use iso_light_k.Primitives.{Aead, Random}
use iso_light_k.Tls.{
  Profile, KexPolicy, CipherSuite, Side, client, server, TlsError, unexpected_state, TlsConnection,
  ConnState, free, handshaking, connected, closed_state, TlsPool, alloc_slot, slot, put, close,
}
use iso_light_k.Tls.KeySchedule.{HsmDriver}
use iso_light_k.Tls.Record.{encrypt_record, decrypt_record}
use iso_light_k.Tls.Handshake.{Kex}
use iso_light_k.Tls.Handshake.Action.{do_handshake}

module _ (sha256 : List ℕ → List ℕ) (kex : Kex) (rand : Random) (hsm : HsmDriver) where
  module _ (profile : Profile) (policy : KexPolicy) (suite : CipherSuite) (psk_id : List ℕ) where
    abbrev pub started : Side → TlsConnection → TlsConnection
    started side c = record c {
      state = handshaking;
      side = side;
      profile = profile;
      policy = policy;
      suite = suite;
      psk_id = psk_id;
    }

    -- The two handles, the pool and the random generator.
    abbrev pub Outcome : Type 0
    Outcome = Result TlsError (ℕ × ℕ) × TlsPool × rand.World

    -- Both connections are closed when the handshake fails.
    unfoldable pub settle :
        ℕ → ℕ → Result TlsError (TlsConnection × TlsConnection) × rand.World → TlsPool → Outcome
    settle client_h server_h (ok (c, s), w) pool =
        (ok (client_h, server_h), put server_h s (put client_h c pool), w)
    settle client_h server_h (err e, w) pool =
        (err e, (close (close pool client_h).1 server_h).1, w)

    -- The server gets the second slot; without one the client is only marked as free.
    unfoldable pub open_server :
        ℕ → TlsConnection → Result TlsError ℕ × TlsPool → rand.World → Outcome
    open_server client_h c (err e, pool) w =
        (err e, put client_h (record c { state = free }) pool, w)
    open_server client_h c (ok server_h, pool) w = elim (slot pool server_h) [
      | err e ↦ (err e, pool, w)
      | ok fresh ↦
          let s = started server fresh in
          settle client_h server_h (do_handshake sha256 kex rand hsm (c, s) policy suite psk_id w)
            (put server_h s pool)
    ]

    unfoldable pub open_client : Result TlsError ℕ × TlsPool → rand.World → Outcome
    open_client (err e, pool) w = (err e, pool, w)
    open_client (ok client_h, pool) w = elim (slot pool client_h) [
      | err e ↦ (err e, pool, w)
      | ok fresh ↦
          let c = started client fresh in
          open_server client_h c (alloc_slot (put client_h c pool)) w
    ]

    unfoldable pub run_loopback : TlsPool → rand.World → Outcome
    run_loopback pool w = open_client (alloc_slot pool) w

unfoldable pub is_connected : ConnState → Result TlsError (Unit {0})
is_connected connected = ok tt
is_connected free = err unexpected_state
is_connected handshaking = err unexpected_state
is_connected closed_state = err unexpected_state

module _ (aead : Aead) where
  -- The received text, of which `room` bytes fit.
  unfoldable pub receive :
      ℕ → CipherSuite → List ℕ → ℕ → TlsPool → Result TlsError (List ℕ) × TlsPool
  receive to suite bytes room pool = elim (slot pool to) [
    | err e ↦ (err e, pool)
    | ok t ↦ elim (is_connected t.state) [
      | err e ↦ (err e, pool)
      | ok _ ↦
          let (r, keys) = decrypt_record aead t.app_read suite bytes room in
          (r, put to (record t { app_read = keys }) pool)
    ]
  ]

  -- A record that was encrypted has used a sequence number, whatever becomes of it.
  unfoldable pub sent :
      ℕ
      → ℕ
      → CipherSuite
      → ℕ
      → Result TlsError (List ℕ)
      → TlsPool
      → Result TlsError (List ℕ) × TlsPool
  sent source to suite room (err e) pool = (err e, pool)
  sent source to suite room (ok bytes) pool = receive to suite bytes room pool

  unfoldable pub loopback_send_recv :
      TlsPool → ℕ → ℕ → List ℕ → ℕ → Result TlsError (List ℕ) × TlsPool
  loopback_send_recv pool source to plaintext room = elim (slot pool source) [
    | err e ↦ (err e, pool)
    | ok f ↦ elim (is_connected f.state) [
      | err e ↦ (err e, pool)
      | ok _ ↦
          let (r, keys) = encrypt_record aead f.app_write f.suite plaintext 256 in
          sent source to f.suite room r (put source (record f { app_write = keys }) pool)
    ]
  ]
