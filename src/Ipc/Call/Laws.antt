-- ===== src/Ipc/Call/Laws.antt =====
-- The public calls (src/ipc.rs): capabilities guard them, and a reply reaches the caller.
use iso_light_k.Common.{
  ℕ, suc, ◌+◌, ◌%◌, ◌^◌, ◌≡◌, ◌≤◌, refl, ◌∙◌, true, false, inl, inr, none, some, List, length, ok,
  err, arith,
}
use iso_light_k.Common.Loop.{iterate_return, iterate_never}
use iso_light_k.Capability.{Capability, is_valid_for, ep_system}
use iso_light_k.Ipc.{MessageType, capability_denied, ipc_max_payload}
use iso_light_k.Ipc.Message
use iso_light_k.Ipc.Message.{IpcMessage, set_payload, payload_bytes}
use iso_light_k.Ipc.Message.Laws.{payload_bytes-set_payload, payload_len-set_payload}
use iso_light_k.Ipc.Endpoint.{
  IpcEndpoint, post, take, post_reply, take_reply, idle, reply_ready, pending_reply,
  is_pending_reply, stamp,
}
use iso_light_k.Ipc.Endpoint.Laws.{post_refused, post_accepts, posted}
use iso_light_k.Ipc.Registry.{IpcRegistry, find, store}
use iso_light_k.Ipc.Registry.Laws.{find-store_self, find_id}
use iso_light_k.Ipc.Call.{Services, ipc_recv, ipc_reply, dispatch, poll, send, ipc_call}

-- The service takes the message that waits.
pub ipc_recv_pending :
    (r : IpcRegistry) (id : ℕ) (e : IpcEndpoint) (m : IpcMessage)
    → find r id ≡ some e
    → e.state ≡ pending_reply m
    → ipc_recv r id ≡ (ok m, store r (record e { state = idle }))
unfolding ipc_recv take
ipc_recv_pending r id e m h p = ground arith

-- The reply of the service is posted with the sequence number of the request.
pub ipc_reply_idle :
    (r : IpcRegistry) (id : ℕ) (e : IpcEndpoint) (kind : MessageType) (bytes : List ℕ)
    → find r id ≡ some e
    → e.state ≡ idle
    → length bytes ≤ ipc_max_payload
    → (m : IpcMessage) × (ipc_reply r id kind bytes
        ≡ (ok tt, store r (record e { state = reply_ready m })))
      × (payload_bytes m ≡ bytes)
      × (m.header.msg_type ≡ kind)
      × (m.header.sequence ≡ e.sequence)
unfolding ipc_reply post_reply
ipc_reply_idle r id e kind bytes h p short =
    let (m, stored, read, _, t, s) =
      (payload_bytes-set_payload (Message.new kind e.sequence) bytes).0 short in
    (m, ground arith, read, unfold Message.new in t, unfold Message.new in s)

module _ (services : Services) where
  open services use {World, crypto_dispatch, sign_dispatch, wait_for_interrupt}

  -- A call whose payload fits, to a registered endpoint that does not accept the capability,
  -- returns `CapabilityDenied`, and neither the registry nor the rest of the world changes.
  pub ipc_call_denied :
      (fuel : ℕ) (cap : Capability) (t : MessageType) (payload : List ℕ) (r : IpcRegistry)
      (w : World) (e : IpcEndpoint)
      → length payload ≤ ipc_max_payload
      → find r cap.endpoint_id ≡ some e
      → is_valid_for cap e.id e.required_rights ≡ false
      → ipc_call services fuel cap t payload r w ≡ some (err capability_denied, r, w)
  unfolding ipc_call send
  ipc_call_denied fuel cap t payload r w e short found invalid =
      let (m, stored, _, _, _, _) = (payload_bytes-set_payload (Message.new t 0) payload).0 short in
      ground (arith, (post_refused e cap m).1 invalid)

  -- The poll hands over a reply that is ready, and the endpoint is idle afterwards.
  poll_ready :
      (r : IpcRegistry) (w : World) (id : ℕ) (e : IpcEndpoint) (m : IpcMessage)
      → find r id ≡ some e
      → e.state ≡ reply_ready m
      → poll services id (r, w) ≡ inr (ok m, store r (record e { state = idle }), w)
  unfolding poll take_reply
  poll_ready r w id e m h p = ground arith

  -- A call that the endpoint accepts hands the message over, under the next sequence number.
  pub sent :
      (c : Capability) (t : MessageType) (payload : List ℕ) (r : IpcRegistry) (w : World)
      (e : IpcEndpoint)
      → length payload ≤ ipc_max_payload
      → find r c.endpoint_id ≡ some e
      → is_valid_for c e.id e.required_rights ≡ true
      → is_pending_reply e.state ≡ false
      → let n = (e.sequence + 1) % 2 ^ 32 in
        (m : IpcMessage) × (set_payload (Message.new t 0) payload ≡ ok m)
        × (m.header.msg_type ≡ t)
        × (send services c t payload r w
            ≡ dispatch services c.endpoint_id
                (store r (record e { state = pending_reply (stamp n m); sequence = n }))
                w)
  unfolding send
  sent c t payload r w e short found valid free =
      let (m, stored, _, _, kind, _) =
        (payload_bytes-set_payload (Message.new t 0) payload).0 short in
      let len : m.header.payload_len ≤ ipc_max_payload =
        payload_len-set_payload (Message.new t 0) m payload stored in
      let accepted : (post e c m).0 ≡ ok tt = (post_accepts e c m).1 (valid, free, len) in
      let new = (posted e c m accepted).0 in (m, stored, unfold Message.new in kind, ground arith)

  poll_pending :
      (r : IpcRegistry) (w : World) (e : IpcEndpoint) (m : IpcMessage)
      → find r ep_system ≡ some e
      → e.state ≡ pending_reply m
      → poll services ep_system (r, w) ≡ inl (wait_for_interrupt r w)
  unfolding poll take_reply
  poll_pending r w e m h p = ground arith

  -- Where a reply is ready once the message was sent, the first poll returns it.
  pub call_sent :
      (extra : ℕ) (c : Capability) (t : MessageType) (payload : List ℕ) (r s : IpcRegistry)
      (w : World) (e : IpcEndpoint) (m : IpcMessage)
      → send services c t payload r w ≡ (ok tt, s, w)
      → find s c.endpoint_id ≡ some e
      → e.state ≡ reply_ready m
      → ipc_call services (suc extra) c t payload r w
        ≡ some (ok m, store s (record e { state = idle }), w)
  unfolding ipc_call
  call_sent extra c t payload r s w e m through found ready =
      rw (through, ipc_call)
        (iterate_return (poll services c.endpoint_id) extra (s, w) _
          (poll_ready s w c.endpoint_id e m found ready))

  -- A valid call to EP_SYSTEM, where no request waits, has not returned after any number of polls,
  -- if waiting for interrupts leaves the endpoint alone.
  pub ipc_call_system_waits :
      (fuel : ℕ) (c : Capability) (t : MessageType) (payload : List ℕ) (r : IpcRegistry) (w : World)
      (e : IpcEndpoint)
      → ((s : IpcRegistry) (v : World)
          → find (wait_for_interrupt s v).0 ep_system ≡ find s ep_system)
      → c.endpoint_id ≡ ep_system
      → length payload ≤ ipc_max_payload
      → find r ep_system ≡ some e
      → is_valid_for c ep_system e.required_rights ≡ true
      → is_pending_reply e.state ≡ false
      → ipc_call services fuel c t payload r w ≡ none
  unfolding ipc_call
  ipc_call_system_waits fuel c t payload r w e quiet at short found valid free =
      let id = find_id r ep_system e found in
      let n = (e.sequence + 1) % 2 ^ 32 in
      let (m, _, _, sent_eq) = sent c t payload r w e short (rw at found) (rw id valid) free in
      let e₁ : IpcEndpoint = record e { state = pending_reply (stamp n m); sequence = n } in
      let found₁ = find-store_self r e₁ e ep_system found id in
      let nothing : dispatch services c.endpoint_id (store r e₁) w ≡ (ok tt, store r e₁, w) =
        rw at (unfold dispatch in refl) in
      rw (sent_eq ∙ nothing, ipc_call)
        (iterate_never (λ s. find s.0 ep_system ≡ some e₁) (poll services c.endpoint_id)
          (λ s h. (
            wait_for_interrupt s.0 s.1,
            rw at (poll_pending s.0 s.1 e₁ (stamp n m) h refl),
            quiet s.0 s.1 ∙ h,
          ))
          fuel (store r e₁, w) found₁)
