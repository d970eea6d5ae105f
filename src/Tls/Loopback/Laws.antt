-- ===== src/Tls/Loopback/Laws.antt =====
-- What links the two ends of a loopback (src/tls/handshake.rs): it is there after a handshake, and a
-- message that passes keeps it.
use iso_light_k.Common.{
  ℕ, ◌≡◌, ◌≢◌, ◌≤◌, ◌<◌, refl, sym, ap, ◌∙◌, inl, inr, none, some, List, [], length, length-set,
  Result, ok, err, arith,
}
use iso_light_k.Primitives.{Aead, Random}
use iso_light_k.Tls.{
  Profile, KexPolicy, CipherSuite, client, server, TlsError, TlsConnection, ConnState, connected,
  TlsPool, DirectionalKeys, empty_connection, alloc_slot, slot, put,
}
use iso_light_k.Tls.KeySchedule.{HsmDriver}
use iso_light_k.Tls.Record.{encrypt_record, decrypt_record}
use iso_light_k.Tls.Record.Laws.{decrypt_record-encrypt_record}
use iso_light_k.Tls.Handshake.{Kex}
use iso_light_k.Tls.Handshake.Action.{do_handshake}
use iso_light_k.Tls.Handshake.Agreement.{Agrees, do_handshake-Agrees}
use iso_light_k.Tls.Loopback.{
  started, settle, open_server, open_client, run_loopback, is_connected, receive, sent,
  loopback_send_recv,
}
use iso_light_k.Tls.Slots.{
  get_elem?-bound, slot-bound, slot-put, slot-put_ne, alloc_slot-cases, slot-ne-free, slot-alloc,
}

-- Both slots hold connected ends, and each reads under the keys that the other writes under.
pub record Linked (pool : TlsPool) (c s : ℕ) : Type 0 where
  pub client_end : TlsConnection
  pub server_end : TlsConnection
  pub client_there : slot pool c ≡ ok client_end
  pub server_there : slot pool s ≡ ok server_end
  pub client_connected : client_end.state ≡ connected
  pub server_connected : server_end.state ≡ connected
  pub to_server : client_end.app_write ≡ server_end.app_read
  pub to_client : server_end.app_write ≡ client_end.app_read
  pub apart : c ≢ s

pub Linked_sym : (pool : TlsPool) (c s : ℕ) → Linked pool c s → Linked pool s c
Linked_sym pool c s l = record {
  client_end = l.server_end;
  server_end = l.client_end;
  client_there = l.server_there;
  server_there = l.client_there;
  client_connected = l.server_connected;
  server_connected = l.client_connected;
  to_server = l.to_client;
  to_client = l.to_server;
  apart = λ e. l.apart (sym e);
}

connected_lem : (state : ConnState) → state ≡ connected → is_connected state ≡ ok tt
unfolding is_connected
connected_lem state e = rw e refl

module _ (aead : Aead) where
  -- One passage, where the record decrypts.
  loopback_send_recv_lem :
      (pool : TlsPool) (c s room : ℕ) (plain bytes text : List ℕ) (f t : TlsConnection)
      (keys keys' : DirectionalKeys)
      → slot pool c ≡ ok f
      → f.state ≡ connected
      → encrypt_record aead f.app_write f.suite plain 256 ≡ (ok bytes, keys)
      → slot (put c (record f { app_write = keys }) pool) s ≡ ok t
      → t.state ≡ connected
      → decrypt_record aead t.app_read f.suite bytes room ≡ (ok text, keys')
      → loopback_send_recv aead pool c s plain room ≡ (
        ok text,
        put s (record t { app_read = keys' }) (put c (record f { app_write = keys }) pool),
      )
  unfolding loopback_send_recv sent receive
  loopback_send_recv_lem pool c s room plain bytes text f t keys keys' f_there f_up made t_there
        t_up read =
      rw (f_there, loopback_send_recv)
        (rw (connected_lem f.state f_up, made)
          (rw (t_there, receive) (rw (connected_lem t.state t_up, read) refl)))

  -- Between two linked ends, a text that the sender's record layer encrypts and that the output
  -- has room for is received as it was sent, and the ends are linked afterwards.
  pub loopback_send_recv-Linked :
      (pool : TlsPool) (c s : ℕ) (l : Linked pool c s) (plain bytes : List ℕ) (room : ℕ)
      (keys : DirectionalKeys)
      → encrypt_record aead l.client_end.app_write l.client_end.suite plain 256 ≡ (ok bytes, keys)
      → length plain ≤ room
      → ((loopback_send_recv aead pool c s plain room).0 ≡ ok plain)
        × Linked (loopback_send_recv aead pool c s plain room).1 c s
  loopback_send_recv-Linked pool c s l plain bytes room keys encrypted fits =
      let f = l.client_end in
      let t = l.server_end in
      let f' : TlsConnection = record f { app_write = keys } in
      let t' : TlsConnection = record t { app_read = keys } in
      let pool' = put c f' pool in
      let bound' : s < length pool' =
        omega (arith, slot-bound pool s t l.server_there, length-set pool c (some f')) in
      let there : slot pool' s ≡ ok t = slot-put_ne pool c s f' l.apart ∙ l.server_there in
      let (opens, advanced) =
        decrypt_record-encrypt_record aead f.app_write keys f.suite plain bytes 256 room encrypted
          fits in
      let decrypted : decrypt_record aead t.app_read f.suite bytes room ≡ (ok plain, keys) =
        ap (λ (k : DirectionalKeys). decrypt_record aead k f.suite bytes room) (sym l.to_server)
        ∙ opens in
      rw
        (loopback_send_recv_lem pool c s room plain bytes plain f t keys keys l.client_there
          l.client_connected encrypted there l.server_connected decrypted)
        (
          refl,
          record {
            client_end = f';
            server_end = t';
            client_there =
                slot-put_ne pool' s c t' (λ e. l.apart (sym e))
                ∙ slot-put pool c f' (slot-bound pool c f l.client_there);
            server_there = slot-put pool' s t' bound';
            client_connected = l.client_connected;
            server_connected = l.server_connected;
            to_server = refl;
            to_client = l.to_client;
            apart = l.apart;
          },
        )

module _ (sha256 : List ℕ → List ℕ) (kex : Kex) (rand : Random) (hsm : HsmDriver) where
  module _ (profile : Profile) (policy : KexPolicy) (suite : CipherSuite) (psk_id : List ℕ) where
    settle-Linked :
        (i j c s : ℕ) (x : Result TlsError (TlsConnection × TlsConnection) × rand.World)
        (pool pool' : TlsPool) (w' : rand.World)
        → ((ends : TlsConnection × TlsConnection) (w : rand.World) → x ≡ (ok ends, w) → Agrees ends)
        → i < length pool
        → j < length pool
        → i ≢ j
        → settle sha256 kex rand hsm profile policy suite psk_id i j x pool ≡ (ok (c, s), pool', w')
        → Linked pool' c s
    unfolding settle
    settle-Linked i j c s (err e, w) pool pool' w' agrees b b' ne h = absurd (ground arith)
    settle-Linked i j c s (ok (a, d), w) pool pool' w' agrees b b' ne h =
        let g = agrees (a, d) w refl in
        let ic : i ≡ c = cc in
        let js : j ≡ s = cc in
        let p : put j d (put i a pool) ≡ pool' = cc in
        rw (← p, ← ic, ← js)
          (record {
            client_end = a;
            server_end = d;
            client_there = slot-put_ne (put i a pool) j i d (λ e. ne (sym e)) ∙ slot-put pool i a b;
            server_there = slot-put (put i a pool) j d (omega (arith, length-set pool i (some a)));
            client_connected = g.client_connected;
            server_connected = g.server_connected;
            to_server = g.to_server;
            to_client = g.to_client;
            apart = ne;
          })

    open_server-Linked :
        (i c s : ℕ) (conn : TlsConnection) (pool pool' : TlsPool) (w w' : rand.World)
        → conn.transcript ≡ []
        → slot pool i ≡ ok conn
        → open_server sha256 kex rand hsm profile policy suite psk_id i conn (alloc_slot pool) w
          ≡ (ok (c, s), pool', w')
        → Linked pool' c s
    unfolding open_server
    open_server-Linked i c s conn pool pool' w w' empty there h = elim (alloc_slot-cases pool) [
      | inl full ↦ let refused = rw (full, open_server) at h in absurd (ground arith)
      | inr (j, made, free_there) ↦
          let room = get_elem?-bound pool j none free_there in
          let fresh =
            started sha256 kex rand hsm profile policy suite psk_id server empty_connection in
          let pool_1 = put j empty_connection pool in
          let size : length (put j fresh pool_1) ≡ length pool =
            length-set pool_1 j (some fresh) ∙ length-set pool j (some empty_connection) in
          settle-Linked i j c s
            (do_handshake sha256 kex rand hsm (conn, fresh) policy suite psk_id w)
            (put j fresh pool_1) pool' w'
            (λ ends w_1 e.
              do_handshake-Agrees sha256 kex rand hsm (conn, fresh) ends policy suite psk_id w w_1
                empty e)
            (omega (arith, size, slot-bound pool i conn there)) (omega (arith, size, room))
            (slot-ne-free pool i j conn there free_there)
            (rw (made, open_server, slot-alloc pool j free_there) at h)
    ]

    -- Where `run_loopback` succeeds, its two handles are different slots with connected ends, and
    -- what each end writes under the other reads under: key, IV and sequence number are the same.
    pub run_loopback-Linked :
        (pool pool' : TlsPool) (c s : ℕ) (w w' : rand.World)
        → run_loopback sha256 kex rand hsm profile policy suite psk_id pool w
          ≡ (ok (c, s), pool', w')
        → Linked pool' c s
    unfolding run_loopback open_client
    run_loopback-Linked pool pool' c s w w' h = elim (alloc_slot-cases pool) [
      | inl full ↦ let refused = rw (full, open_client) at h in absurd (ground arith)
      | inr (i, made, free_there) ↦
          let conn =
            started sha256 kex rand hsm profile policy suite psk_id client empty_connection in
          let pool_1 = put i empty_connection pool in
          let b : i < length pool_1 = omega (
            arith,
            get_elem?-bound pool i none free_there,
            length-set pool i (some empty_connection),
          ) in
          open_server-Linked i c s conn (put i conn pool_1) pool' w w' refl
            (slot-put pool_1 i conn b) (rw (made, open_client, slot-alloc pool i free_there) at h)
    ]
