-- ===== src/Ipc/Endpoint/Laws.antt =====
-- The rendezvous at an endpoint (src/ipc.rs).
use iso_light_k.Common.{◌+◌, ◌%◌, ◌^◌, ◌≡◌, ◌≤◌, ◌<◌, ◌↔◌, refl, ◌∙◌, true, false, ok, err, arith}
use iso_light_k.Capability.{Capability, is_valid_for}
use iso_light_k.Ipc.{IpcError, capability_denied, endpoint_busy, no_message, ipc_max_payload}
use iso_light_k.Ipc.Message.{IpcMessage}
use iso_light_k.Ipc.Endpoint.{
  idle, pending_reply, IpcEndpoint, is_pending_reply, is_reply_ready, stamp, post, take, post_reply,
  take_reply,
}

-- A message is accepted exactly when the capability is valid for the endpoint and its rights, no
-- message waits for a reply, and the length in its header is in range.
pub post_accepts :
    (e : IpcEndpoint) (cap : Capability) (m : IpcMessage)
    → ((post e cap m).0 ≡ ok tt) ↔ (
        (is_valid_for cap e.id e.required_rights ≡ true)
        × (is_pending_reply e.state ≡ false)
        × (m.header.payload_len ≤ ipc_max_payload))
unfolding post
post_accepts e cap m = ground arith

-- A refused message leaves the endpoint, its sequence number included, as it was; an invalid
-- capability is answered by `CapabilityDenied` whatever the state.
pub post_refused :
    (e : IpcEndpoint) (cap : Capability) (m : IpcMessage)
    → ((x : IpcError) → (post e cap m).0 ≡ err x → (post e cap m).1 ≡ e)
      × (is_valid_for cap e.id e.required_rights ≡ false → (post e cap m).0 ≡ err capability_denied)
unfolding post
post_refused e cap m = (λ x h. ground arith, λ h. ground arith)

pub posted :
    (e : IpcEndpoint) (cap : Capability) (m : IpcMessage)
    → (post e cap m).0 ≡ ok tt
    → let n = (e.sequence + 1) % 2 ^ 32 in
      ((post e cap m).1 ≡ record e { state = pending_reply (stamp n m); sequence = n })
      × (is_valid_for cap e.id e.required_rights ≡ true)
unfolding post
posted e cap m h = (ground arith, ground arith)

-- An accepted message is what the service takes, stamped with the next sequence number, and the
-- endpoint is then idle; before that no reply can be taken, and a second message is refused.
pub take-post :
    (e : IpcEndpoint) (cap : Capability) (m m' : IpcMessage)
    → (post e cap m).0 ≡ ok tt
    → let n = (e.sequence + 1) % 2 ^ 32 in
      let e' = (post e cap m).1 in
      (take e' ≡ (ok (stamp n m), record e { state = idle; sequence = n }))
      × (take_reply e' ≡ (err no_message, e'))
      × (post e' cap m' ≡ (err endpoint_busy, e'))
unfolding post take take_reply
take-post e cap m m' h = let (new, valid) = posted e cap m h in rw new (refl, refl, rw valid refl)

-- Where no reply is ready, a reply that is posted is what the caller takes, and the endpoint is
-- then idle. A second reply is refused while one is ready.
pub take_reply-post_reply :
    (e : IpcEndpoint) (reply other : IpcMessage)
    → is_reply_ready e.state ≡ false
    → ((post_reply e reply).0 ≡ ok tt)
      × (take_reply (post_reply e reply).1 ≡ (ok reply, record e { state = idle }))
      × (post_reply (post_reply e reply).1 other ≡ (err endpoint_busy, (post_reply e reply).1))
unfolding post_reply take_reply
take_reply-post_reply e reply other h = rw h (refl, refl, refl)

-- The states through which an endpoint goes: what a caller and a service may do with it.
pub data Step : IpcEndpoint → IpcEndpoint → Type 0 where
  call : (e : IpcEndpoint) (cap : Capability) (m : IpcMessage) → Step e (post e cap m).1
  serve : (e : IpcEndpoint) → Step e (take e).1
  answer : (e : IpcEndpoint) (reply : IpcMessage) → Step e (post_reply e reply).1
  collect : (e : IpcEndpoint) → Step e (take_reply e).1

pub data Reach (e : IpcEndpoint) : IpcEndpoint → Type 0 where
  here : Reach e e
  next : {d f : IpcEndpoint} → Reach e d → Step d f → Reach e f

-- A message that waits carries the endpoint's sequence number, which is below 2 ^ 32.
pub record IsValid (e : IpcEndpoint) : Type 0 where
  pub stamped : (m : IpcMessage) → e.state ≡ pending_reply m → m.header.sequence ≡ e.sequence
  pub bounded : e.sequence < 2 ^ 32

Step-IsValid : {d e : IpcEndpoint} → Step d e → IsValid d → IsValid e
Step-IsValid (call e cap m) v =
    unfold post in record { stamped = λ p h. ground (arith, v.stamped p); bounded = ground arith }
Step-IsValid (serve e) v =
    unfold take in record { stamped = λ p h. ground (arith, v.stamped p); bounded = ground arith }
Step-IsValid (answer e reply) v =
    unfold post_reply in
    record { stamped = λ p h. ground (arith, v.stamped p); bounded = ground arith }
Step-IsValid (collect e) v =
    unfold take_reply in
    record { stamped = λ p h. ground (arith, v.stamped p); bounded = ground arith }

Step-keeps :
    {d e : IpcEndpoint} → Step d e → (e.id ≡ d.id) × (e.required_rights ≡ d.required_rights)
unfolding take take_reply
Step-keeps (call e cap m) = unfold post in ground arith
Step-keeps (serve e) = (refl, refl)
Step-keeps (answer e reply) = unfold post_reply in ground arith
Step-keeps (collect e) = (refl, refl)

-- Whatever callers and services do with a well-formed endpoint, in any order, its identifier and
-- the rights it requires stay as they were, and it stays well-formed: a message that waits carries
-- the endpoint's sequence number, which fits 32 bits.
pub Reach-IsValid :
    {d e : IpcEndpoint}
    → IsValid d
    → Reach d e
    → IsValid e × (e.id ≡ d.id) × (e.required_rights ≡ d.required_rights)
Reach-IsValid v here = (v, refl, refl)
Reach-IsValid v (next r s) =
    let (w, i, q) = Reach-IsValid v r in
    let (j, p) = Step-keeps s in (Step-IsValid s w, j ∙ i, p ∙ q)
