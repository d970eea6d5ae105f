-- ===== src/KernelServices/Laws.antt =====
-- A call to the crypto service (`ipc_call` of src/ipc.rs, with src/crypto_service.rs behind it).
use iso_light_k.Common.{
  ℕ, suc, ◌+◌, ◌%◌, ◌^◌, ◌≡◌, ◌≤◌, refl, ap, ◌∙◌, true, false, some, List, length, ok,
}
use iso_light_k.Capability.{Capability, is_valid_for, ep_crypto}
use iso_light_k.Primitives.{Aead, Random}
use iso_light_k.Ipc.{MessageType, ipc_max_payload}
use iso_light_k.Ipc.Message
use iso_light_k.Ipc.Message.{IpcMessage, set_payload, payload_bytes}
use iso_light_k.Ipc.Endpoint.{
  IpcEndpoint, idle, pending_reply, reply_ready, is_pending_reply, stamp,
}
use iso_light_k.Ipc.Registry.{IpcRegistry, find, store}
use iso_light_k.Ipc.Registry.Laws.{find-store_self, find_id}
use iso_light_k.Ipc.Call.{Services, dispatch, send, ipc_call}
use iso_light_k.Ipc.Call.Laws.{sent, call_sent}
use iso_light_k.CryptoService.{Packages, parse_request}
use iso_light_k.CryptoService.Dispatch
use iso_light_k.CryptoService.Dispatch.{answer}
use iso_light_k.CryptoService.Dispatch.Laws.{crypto_dispatch-Replies}
use iso_light_k.Sign.{Mldsa}
use iso_light_k.KernelServices.{World, kernel_services}

module _ (aead : Aead) (crates : Packages) (dsa : Mldsa) (rand : Random)
    (wait : IpcRegistry
      → World aead crates dsa rand
      → IpcRegistry × World aead crates dsa rand) where
  abbrev Kernel : Services
  Kernel = kernel_services aead crates dsa rand wait

  dispatch_crypto :
      (r s : IpcRegistry) (w : World aead crates dsa rand)
      → Dispatch.dispatch aead crates r ≡ (ok tt, s)
      → dispatch Kernel ep_crypto r w ≡ (ok tt, s, w)
  unfolding dispatch
  dispatch_crypto r s w served = rw served refl

  -- What a call returns that handed a message over to the crypto service.
  handed_over :
      (extra : ℕ) (c : Capability) (t : MessageType) (payload : List ℕ) (r : IpcRegistry)
      (w : World aead crates dsa rand) (e : IpcEndpoint) (m : IpcMessage)
      → c.endpoint_id ≡ ep_crypto
      → find r ep_crypto ≡ some e
      → m.header.msg_type ≡ t
      → let n = (e.sequence + 1) % 2 ^ 32 in
        send Kernel c t payload r w
          ≡ dispatch Kernel c.endpoint_id
              (store r (record e { state = pending_reply (stamp n m); sequence = n }))
              w
        → (reply : IpcMessage) × (r' : IpcRegistry) × (ipc_call Kernel (suc extra) c t payload r w
            ≡ some (ok reply, r', w))
          × (reply.header.msg_type ≡ (answer aead crates t (parse_request m)).0)
          × (payload_bytes reply ≡ (answer aead crates t (parse_request m)).1)
          × (reply.header.sequence ≡ (e.sequence + 1) % 2 ^ 32)
          × (find r' ep_crypto
              ≡ some (record e { state = idle; sequence = (e.sequence + 1) % 2 ^ 32 }))
  unfolding parse_request
  handed_over extra c t payload r w e m at found type_is sent_eq =
      let id = find_id r ep_crypto e found in
      let n = (e.sequence + 1) % 2 ^ 32 in
      let e₁ : IpcEndpoint = record e { state = pending_reply (stamp n m); sequence = n } in
      let r₁ = store r e₁ in
      let found₁ : find r₁ ep_crypto ≡ some e₁ = find-store_self r e₁ e ep_crypto found id in
      let (reply, s, served, ready, read, kind_is, seq) =
        crypto_dispatch-Replies aead crates r₁ e₁ (stamp n m) found₁ refl in
      let e₂ : IpcEndpoint = record e₁ { state = reply_ready reply } in
      let e₃ : IpcEndpoint = record e₁ { state = idle } in
      let dispatched : dispatch Kernel c.endpoint_id r₁ w ≡ (ok tt, s, w) =
        rw at (dispatch_crypto r₁ s w served) in
      let same = ap (λ k. answer aead crates k (parse_request m)) type_is in
      (
        reply,
        store s e₃,
        call_sent Kernel extra c t payload r s w e₂ reply (sent_eq ∙ dispatched) (rw at ready) refl,
        kind_is ∙ ap (λ x. x.0) same,
        read ∙ ap (λ x. x.1) same,
        seq,
        find-store_self s e₃ e₂ ep_crypto ready id,
      )

  -- A call to EP_CRYPTO with a valid capability and a payload that fits, at an endpoint where no
  -- request waits, returns at the first poll. The reply is the answer of the crypto service to the
  -- message with that type and payload, in type and bytes, under the next sequence number of the
  -- endpoint; the endpoint is idle afterwards, and the signing service is as before.
  pub ipc_call-answer :
      (extra : ℕ) (c : Capability) (t : MessageType) (payload : List ℕ) (r : IpcRegistry)
      (w : World aead crates dsa rand) (e : IpcEndpoint)
      → c.endpoint_id ≡ ep_crypto
      → length payload ≤ ipc_max_payload
      → find r ep_crypto ≡ some e
      → is_valid_for c ep_crypto e.required_rights ≡ true
      → is_pending_reply e.state ≡ false
      → let n = (e.sequence + 1) % 2 ^ 32 in
        (m : IpcMessage) × (reply : IpcMessage) × (r' : IpcRegistry) × (set_payload
            (Message.new t 0)
            payload
          ≡ ok m)
        × (ipc_call Kernel (suc extra) c t payload r w ≡ some (ok reply, r', w))
        × (reply.header.msg_type ≡ (answer aead crates t (parse_request m)).0)
        × (payload_bytes reply ≡ (answer aead crates t (parse_request m)).1)
        × (reply.header.sequence ≡ n)
        × (find r' ep_crypto ≡ some (record e { state = idle; sequence = n }))
  ipc_call-answer extra c t payload r w e at short found valid free =
      let id = find_id r ep_crypto e found in
      let (m, stored, type_is, sent_eq) =
        sent Kernel c t payload r w e short (rw at found) (rw id valid) free in
      let (reply, r', returned, kind_is, bytes_are, seq, idle_then) =
        handed_over extra c t payload r w e m at found type_is sent_eq in
      (m, reply, r', stored, returned, kind_is, bytes_are, seq, idle_then)
