-- ===== src/Sign/Service/Laws.antt =====
-- What `dispatch` (src/sign_service.rs) keeps, and that it answers every request.
use iso_light_k.Common.{
  ℕ, ◌-◌, ◌≡◌, refl, sym, ◌∙◌, min, ltb, Bool-cases, inl, inr, some, List, length, take, Result, ok,
  err, length-append, length-take, arith,
}
use iso_light_k.Common.Bytes.{to_le_bytes}
use iso_light_k.Capability.{CapError, ep_sign}
use iso_light_k.Primitives.{Random}
use iso_light_k.Ipc.{
  MessageType, IpcError, ipc_max_payload, sign_begin_req, sign_in_chunk_req, sign_exec_req,
  sign_end_req,
}
use iso_light_k.Ipc.Message.{IpcMessage, payload_bytes}
use iso_light_k.Ipc.Payload.{SignPayload, read_sign_payload, write_sign_payload}
use iso_light_k.Ipc.Endpoint
use iso_light_k.Ipc.Endpoint.{IpcEndpoint, idle, pending_reply, reply_ready}
use iso_light_k.Ipc.Registry.{IpcRegistry, find, store}
use iso_light_k.Ipc.Registry.Laws.{find-store_self, find_id}
use iso_light_k.Ipc.Call.{ipc_recv}
use iso_light_k.Ipc.Call.Laws.{ipc_recv_pending, ipc_reply_idle}
use iso_light_k.Sign.{SignError, invalid_request, Signer, Mldsa, zeros}
use iso_light_k.Sign.Session.{handle_begin, handle_in_chunk, handle_exec, handle_end}
use iso_light_k.Sign.Session.Laws.{
  IsValid, initial-IsValid, length-zeros, handle_begin-IsValid, handle_in_chunk-IsValid,
}
use iso_light_k.Sign.Session.Exec.{handle_exec-IsValid}
use iso_light_k.Sign.Service.{
  Answer, failed, write_sign_reply, begin_answer, in_chunk_answer, exec_answer, exec_with, handle,
  post_answer, serve, received, dispatch,
}

begin_answer-keeps :
    (x : Result SignError (Unit {0}) × Signer) → IsValid x.1 → IsValid (begin_answer x).1
begin_answer-keeps (ok _, s) v = v
begin_answer-keeps (err e, s) v = v

in_chunk_answer-keeps :
    (x : Result SignError (Unit {0}) × Signer) → IsValid x.1 → IsValid (in_chunk_answer x).1
in_chunk_answer-keeps (ok _, s) v = v
in_chunk_answer-keeps (err e, s) v = v

exec_answer-keeps : (x : Result SignError ℕ × Signer) → IsValid x.1 → IsValid (exec_answer x).1
exec_answer-keeps (ok n, s) v = v
exec_answer-keeps (err e, s) v = v

length-write_sign_reply : (phase : ℕ) (a : Answer) → length (write_sign_reply phase a) ≡ 256
unfolding write_sign_reply write_sign_payload to_le_bytes
length-write_sign_reply phase a =
    let n = min (length a.bytes) 240 in
    omega (
      arith,
      length-append (take n a.bytes) (zeros (240 - n)),
      length-take n a.bytes,
      length-zeros (240 - n),
    )

module _ (dsa : Mldsa) (rand : Random) where
  exec_with-IsValid :
      (rnd : Result CapError (List ℕ)) (s : Signer)
      → IsValid s
      → IsValid (exec_with dsa rand rnd s).1
  unfolding exec_with
  exec_with-IsValid (err e) s v = v
  exec_with-IsValid (ok rnd) s v =
      exec_answer-keeps (handle_exec dsa rnd s) (handle_exec-IsValid dsa rnd s v)

  handle-IsValid :
      (kind : MessageType) (req : SignPayload) (s : Signer) (w : rand.World)
      → IsValid s
      → IsValid (handle dsa rand kind req s w).1
  unfolding handle handle_end
  handle-IsValid sign_begin_req req s w v =
      begin_answer-keeps (handle_begin req s) (handle_begin-IsValid req s v)
  handle-IsValid sign_in_chunk_req req s w v =
      in_chunk_answer-keeps (handle_in_chunk req s) (handle_in_chunk-IsValid req s v)
  handle-IsValid sign_exec_req req s w v = exec_with-IsValid (rand.rand_bytes 32 w).0 s v
  handle-IsValid sign_end_req req s w v = initial-IsValid
  handle-IsValid kind req s w v = v

  serve-IsValid :
      (msg : IpcMessage) (r : IpcRegistry) (s : Signer) (w : rand.World)
      → IsValid s
      → IsValid (serve dsa rand msg r (s, w)).2.0
  unfolding serve post_answer
  serve-IsValid msg r s w v = elim (Bool-cases (ltb msg.header.payload_len ipc_max_payload)) [
    | inl y ↦ rw y v
    | inr n ↦ rw n (handle-IsValid msg.header.msg_type (read_sign_payload msg.payload) s w v)
  ]

  received-IsValid :
      (x : Result IpcError IpcMessage × IpcRegistry) (s : Signer) (w : rand.World)
      → IsValid s
      → IsValid (received dsa rand x (s, w)).2.0
  unfolding received
  received-IsValid (err e, r) s w v = v
  received-IsValid (ok msg, r) s w v = serve-IsValid msg r s w v

  -- Whatever request is dispatched, a valid session stays valid.
  pub dispatch-IsValid :
      (r : IpcRegistry) (s : Signer) (w : rand.World)
      → IsValid s
      → IsValid (dispatch dsa rand r (s, w)).2.0
  unfolding dispatch
  dispatch-IsValid r s w v = received-IsValid (ipc_recv r ep_sign) s w v

  -- A reply of 256 bytes to the message is posted at the endpoint, under the message's sequence
  -- number.
  abbrev IsAnswered :
      IpcEndpoint
      → IpcMessage
      → Result IpcError (Unit {0}) × IpcRegistry × (Signer × rand.World)
      → Type 0
  IsAnswered e m x =
      (x.0 ≡ ok tt)
      × ((reply : IpcMessage) × (find x.1 ep_sign ≡ some (record e { state = reply_ready reply }))
          × (reply.header.sequence ≡ m.header.sequence)
          × (length (payload_bytes reply) ≡ ipc_max_payload))

  post_answer-IsAnswered :
      (phase : ℕ) (x : Answer × Signer × rand.World) (r : IpcRegistry) (e : IpcEndpoint)
      (m : IpcMessage)
      → find r ep_sign ≡ some e
      → e.state ≡ idle
      → m.header.sequence ≡ e.sequence
      → IsAnswered e m (post_answer dsa rand phase x r)
  unfolding post_answer
  post_answer-IsAnswered phase (a, s, w) r e m found free same =
      let bytes = write_sign_reply phase a in
      let len : length bytes ≡ 256 = length-write_sign_reply phase a in
      let (reply, posted, read, kind_is, seq) =
        ipc_reply_idle r ep_sign e a.kind bytes found free (omega arith) in
      rw posted (
        refl,
        (
          reply,
          find-store_self r (record e { state = reply_ready reply }) e ep_sign found
              (find_id r ep_sign e found),
          seq ∙ sym same,
          rw read len,
        ),
      )

  serve-IsAnswered :
      (m : IpcMessage) (r : IpcRegistry) (s : Signer) (w : rand.World) (e : IpcEndpoint)
      → find r ep_sign ≡ some e
      → e.state ≡ idle
      → m.header.sequence ≡ e.sequence
      → IsAnswered e m (serve dsa rand m r (s, w))
  unfolding serve
  serve-IsAnswered m r s w e found free same =
      let req = read_sign_payload m.payload in
      elim (Bool-cases (ltb m.header.payload_len ipc_max_payload)) [
        | inl y ↦
            rw y (post_answer-IsAnswered 0 (failed invalid_request, s, w) r e m found free same)
        | inr n ↦ rw n (
            post_answer-IsAnswered req.phase (handle dsa rand m.header.msg_type req s w) r e m found
              free same)
      ]

  -- Whatever request waits at EP_SIGN, where the endpoint is well-formed, and whatever the session
  -- is, `dispatch` succeeds and posts a reply of 256 bytes under the sequence number in the header of
  -- that request.
  pub dispatch-IsAnswered :
      (r : IpcRegistry) (s : Signer) (w : rand.World) (e : IpcEndpoint) (m : IpcMessage)
      → Endpoint.Laws.IsValid e
      → find r ep_sign ≡ some e
      → e.state ≡ pending_reply m
      → IsAnswered e m (dispatch dsa rand r (s, w))
  unfolding dispatch
  dispatch-IsAnswered r s w e m valid found pending =
      let e' : IpcEndpoint = record e { state = idle } in
      rw (ipc_recv_pending r ep_sign e m found pending, received)
        (serve-IsAnswered m (store r e') s w e'
          (find-store_self r e' e ep_sign found (find_id r ep_sign e found)) refl
          (valid.stamped m pending))
