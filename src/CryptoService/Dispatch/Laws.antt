-- ===== src/CryptoService/Dispatch/Laws.antt =====
-- `dispatch` (src/crypto_service.rs) answers every request.
use iso_light_k.Common.{
  ℕ, ◌≡◌, ◌≢◌, ◌≤◌, refl, sym, ◌∙◌, Bool, true, false, ltb, if◌then◌else◌, ◌+◌, ◌||◌, some, List,
  [], ◌∷◌, length, Result, ok, err, arith,
}
use iso_light_k.Capability.{ep_crypto}
use iso_light_k.Primitives.{Aead}
use iso_light_k.Hmac.{CryptoError, invalid_data_length, output_too_large, invalid_request}
use iso_light_k.Ipc.{
  MessageType, IpcError, encrypt_req, encrypt_resp, decrypt_req, decrypt_resp, hash_req, hash_resp,
  key_derive_req, key_derive_resp, sign_req, sign_resp, verify_req, verify_resp, dh_req, dh_resp,
  error,
}
use iso_light_k.Ipc.Message.{IpcMessage, payload_bytes}
use iso_light_k.Ipc.Payload.{CryptoPayload}
use iso_light_k.Ipc.Endpoint
use iso_light_k.Ipc.Endpoint.{IpcEndpoint, idle, pending_reply, reply_ready}
use iso_light_k.Ipc.Registry.{IpcRegistry, find, store}
use iso_light_k.Ipc.Registry.Laws.{find-store_self, find_id}
use iso_light_k.Ipc.Call.Laws.{ipc_recv_pending, ipc_reply_idle}
use iso_light_k.CryptoService.{
  Packages, error_code, parse_request, write_error_reply, write_ok_reply,
}
use iso_light_k.CryptoService.Handlers.{
  ◌>>=◌, handle_encrypt, handle_decrypt, handle_hash, handle_kdf, handle_sign, handle_verify,
  handle_dh,
}
use iso_light_k.CryptoService.Handlers.RoundTrip.{bind-inv, write_ok_reply-IsReply}
use iso_light_k.CryptoService.Dispatch.{final, handle, answer, received, dispatch}

-- A handler that succeeds gives a whole payload.
abbrev IsWhole : Result CryptoError (List ℕ) → Type 0
IsWhole r = (raw : List ℕ) → r ≡ ok raw → length raw ≡ 256

IsWhole-write : (algo : ℕ) (bytes : List ℕ) → IsWhole (write_ok_reply algo bytes)
IsWhole-write algo bytes raw h = (write_ok_reply-IsReply algo bytes raw h).size

IsWhole-bind {ℓ} :
    {A : Type ℓ} (m : Result CryptoError A) (f : A → Result CryptoError (List ℕ))
    → ((a : A) → IsWhole (f a))
    → IsWhole (m >>= f)
IsWhole-bind m f whole raw h = let (a, _, rest) = bind-inv m f raw h in whole a raw rest

IsWhole-unless :
    (b : Bool) (e : CryptoError) (r : Result CryptoError (List ℕ))
    → IsWhole r
    → IsWhole (if b then err e else r)
IsWhole-unless true e r whole raw h = absurd (ground arith)
IsWhole-unless false e r whole raw h = whole raw h

-- The answers that a caller can get: one byte, the code of an error, or a whole payload.
pub data IsAnswer : MessageType → List ℕ → Type 0 where
  refused : (e : CryptoError) → IsAnswer error (error_code e ∷ [])
  granted :
      {kind : MessageType} {bytes : List ℕ}
      → kind ≢ error
      → length bytes ≡ 256
      → IsAnswer kind bytes

final-IsAnswer :
    (kind : MessageType) (r : Result CryptoError (List ℕ))
    → kind ≢ error
    → IsWhole r
    → IsAnswer (final kind r).0 (final kind r).1
unfolding write_error_reply
final-IsAnswer kind (ok raw) ne whole = granted ne (whole raw refl)
final-IsAnswer kind (err e) ne whole = refused e

module _ (aead : Aead) (crates : Packages) where
  handle_encrypt-IsWhole : (req : CryptoPayload) → IsWhole (handle_encrypt aead req)
  unfolding handle_encrypt
  handle_encrypt-IsWhole req = IsWhole-bind _ _ λ algo.
      IsWhole-unless (ltb 168 req.data_len) invalid_data_length _ (
        IsWhole-bind _ _ λ sealed.
          IsWhole-unless (ltb 168 (req.data_len + 16)) output_too_large _
            (IsWhole-write req.algo _))

  handle_decrypt-IsWhole : (req : CryptoPayload) → IsWhole (handle_decrypt aead req)
  unfolding handle_decrypt
  handle_decrypt-IsWhole req = IsWhole-bind _ _ λ algo.
      IsWhole-unless (ltb req.data_len 16 || ltb 168 req.data_len) invalid_data_length _
        (IsWhole-bind _ _ λ plaintext. IsWhole-write req.algo plaintext)

  handle_hash-IsWhole : (req : CryptoPayload) → IsWhole (handle_hash crates req)
  unfolding handle_hash
  handle_hash-IsWhole req = IsWhole-bind _ _ λ algo.
      IsWhole-unless (ltb 168 req.data_len) invalid_data_length _
        (IsWhole-bind _ _ (IsWhole-write req.algo))

  handle_sign-IsWhole : (req : CryptoPayload) → IsWhole (handle_sign crates req)
  unfolding handle_sign
  handle_sign-IsWhole req = IsWhole-bind _ _ λ algo.
      IsWhole-unless (ltb 168 req.data_len) invalid_data_length _
        (IsWhole-bind _ _ (IsWhole-write req.algo))

  handle_kdf-IsWhole : (req : CryptoPayload) → IsWhole (handle_kdf crates req)
  unfolding handle_kdf
  handle_kdf-IsWhole req = IsWhole-bind _ _ λ algo. IsWhole-bind _ _ (IsWhole-write req.algo)

  handle_verify-IsWhole : (req : CryptoPayload) → IsWhole (handle_verify crates req)
  unfolding handle_verify
  handle_verify-IsWhole req = IsWhole-bind _ _ λ algo. IsWhole-bind _ _ (IsWhole-write req.algo)

  handle_dh-IsWhole : (req : CryptoPayload) → IsWhole (handle_dh crates req)
  unfolding handle_dh
  handle_dh-IsWhole req = IsWhole-bind _ _ λ algo. IsWhole-bind _ _ (IsWhole-write req.algo)

  handle-IsAnswer :
      (kind : MessageType) (req : CryptoPayload)
      → IsAnswer (handle aead crates kind req).0 (handle aead crates kind req).1
  unfolding handle write_error_reply
  handle-IsAnswer encrypt_req req =
      final-IsAnswer encrypt_resp _ (λ e. absurd (ground arith)) (handle_encrypt-IsWhole req)
  handle-IsAnswer decrypt_req req =
      final-IsAnswer decrypt_resp _ (λ e. absurd (ground arith)) (handle_decrypt-IsWhole req)
  handle-IsAnswer hash_req req =
      final-IsAnswer hash_resp _ (λ e. absurd (ground arith)) (handle_hash-IsWhole req)
  handle-IsAnswer key_derive_req req =
      final-IsAnswer key_derive_resp _ (λ e. absurd (ground arith)) (handle_kdf-IsWhole req)
  handle-IsAnswer sign_req req =
      final-IsAnswer sign_resp _ (λ e. absurd (ground arith)) (handle_sign-IsWhole req)
  handle-IsAnswer verify_req req =
      final-IsAnswer verify_resp _ (λ e. absurd (ground arith)) (handle_verify-IsWhole req)
  handle-IsAnswer dh_req req =
      final-IsAnswer dh_resp _ (λ e. absurd (ground arith)) (handle_dh-IsWhole req)
  handle-IsAnswer kind req = refused invalid_request

  answer-IsAnswer :
      (kind : MessageType) (r : Result CryptoError CryptoPayload)
      → IsAnswer (answer aead crates kind r).0 (answer aead crates kind r).1
  unfolding answer write_error_reply
  answer-IsAnswer kind (ok req) = handle-IsAnswer kind req
  answer-IsAnswer kind (err e) = refused e

  IsAnswer-fits : (kind : MessageType) (bytes : List ℕ) → IsAnswer kind bytes → length bytes ≤ 256
  IsAnswer-fits kind bytes (refused e) = omega arith
  IsAnswer-fits kind bytes (granted ne h) = omega (arith, h)

  -- What `received` leaves: the answer to the message is the reply that is ready at the endpoint.
  abbrev Replies : IpcEndpoint → IpcMessage → Result IpcError (Unit {0}) × IpcRegistry → Type 0
  Replies e m x =
      let a = answer aead crates m.header.msg_type (parse_request m) in
      (reply : IpcMessage) × (s : IpcRegistry) × (x ≡ (ok tt, s))
      × (find s ep_crypto ≡ some (record e { state = reply_ready reply }))
      × (payload_bytes reply ≡ a.1)
      × (reply.header.msg_type ≡ a.0)
      × (reply.header.sequence ≡ e.sequence)

  received-Replies :
      (m : IpcMessage) (r : IpcRegistry) (e : IpcEndpoint)
      → find r ep_crypto ≡ some e
      → e.state ≡ idle
      → Replies e m (received aead crates (ok m, r))
  unfolding received
  received-Replies m r e found free =
      let a = answer aead crates m.header.msg_type (parse_request m) in
      let fits = IsAnswer-fits a.0 a.1 (answer-IsAnswer m.header.msg_type (parse_request m)) in
      let (reply, posted, read, kind_is, seq) =
        ipc_reply_idle r ep_crypto e a.0 a.1 found free fits in
      let e' : IpcEndpoint = record e { state = reply_ready reply } in
      (
        reply,
        store r e',
        posted,
        find-store_self r e' e ep_crypto found (find_id r ep_crypto e found),
        read,
        kind_is,
        seq,
      )

  -- Whatever request waits at EP_CRYPTO, `dispatch` posts the service's answer to it under the
  -- endpoint's sequence number.
  pub crypto_dispatch-Replies :
      (r : IpcRegistry) (e : IpcEndpoint) (m : IpcMessage)
      → find r ep_crypto ≡ some e
      → e.state ≡ pending_reply m
      → Replies e m (dispatch aead crates r)
  unfolding dispatch
  crypto_dispatch-Replies r e m found pending =
      let e' : IpcEndpoint = record e { state = idle } in
      rw (ipc_recv_pending r ep_crypto e m found pending) (
        received-Replies m (store r e') e'
          (find-store_self r e' e ep_crypto found (find_id r ep_crypto e found)) refl)

  -- A reply to the message is posted at the endpoint, under the message's sequence number.
  abbrev IsAnswered : IpcEndpoint → IpcMessage → Result IpcError (Unit {0}) × IpcRegistry → Type 0
  IsAnswered e m x =
      (x.0 ≡ ok tt)
      × ((reply : IpcMessage) × (find x.1 ep_crypto ≡ some (record e { state = reply_ready reply }))
          × (reply.header.sequence ≡ m.header.sequence)
          × IsAnswer reply.header.msg_type (payload_bytes reply))

  -- Whatever request waits at EP_CRYPTO, where the endpoint is well-formed, `dispatch` succeeds and
  -- posts a reply under the sequence number in the header of that request: either of the type Error
  -- with one byte, the code of an error, or of another type with 256 bytes.
  pub crypto_dispatch-IsAnswered :
      (r : IpcRegistry) (e : IpcEndpoint) (m : IpcMessage)
      → Endpoint.Laws.IsValid e
      → find r ep_crypto ≡ some e
      → e.state ≡ pending_reply m
      → IsAnswered e m (dispatch aead crates r)
  crypto_dispatch-IsAnswered r e m valid found pending =
      let is = answer-IsAnswer m.header.msg_type (parse_request m) in
      let (reply, s, posted, ready, read, kind_is, seq) =
        crypto_dispatch-Replies r e m found pending in
      rw posted (refl, (reply, ready, seq ∙ sym (valid.stamped m pending), rw (kind_is, read) is))
