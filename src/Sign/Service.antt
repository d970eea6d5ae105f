-- ===== src/Sign/Service.antt =====
-- `dispatch` of src/sign_service.rs: a request at EP_SIGN is taken, handled and answered. The state
-- beside the registry is the session and the random generator.
pub mod Laws
mod Tests
use iso_light_k.Common.{
  ℕ, ◌+◌, ◌-◌, min, ltb, if◌then◌else◌, List, [], ◌∷◌, ◌++◌, length, take, Result, ok, err,
}
use iso_light_k.Common.Bytes.{to_le_bytes}
use iso_light_k.Capability.{CapError, ep_sign}
use iso_light_k.Primitives.{Random}
use iso_light_k.Ipc.{
  MessageType, IpcError, ipc_max_payload, sign_begin_req, sign_begin_resp, sign_in_chunk_req,
  sign_in_chunk_resp, sign_exec_req, sign_exec_resp, sign_out_chunk_req, sign_out_chunk_resp,
  sign_end_req, sign_end_resp, error,
}
use iso_light_k.Ipc.Message.{IpcMessage}
use iso_light_k.Ipc.Payload.{SignPayload, read_sign_payload, write_sign_payload, zeroed}
use iso_light_k.Ipc.Registry.{IpcRegistry}
use iso_light_k.Ipc.Call.{ipc_recv, ipc_reply}
use iso_light_k.Sign.{
  SignError, exec_failed, invalid_request, error_code, Signer, Mldsa, chunk_size, zeros,
}
use iso_light_k.Sign.Session.{
  handle_begin, handle_in_chunk, handle_exec, handle_out_chunk, handle_end,
}

-- What a handler answers: the type of the message and the fields of its payload.
pub record Answer : Type 0 where
  pub kind : MessageType
  pub result : ℕ
  pub offset : ℕ
  pub total : ℕ
  pub bytes : List ℕ

abbrev pub failed : SignError → Answer
failed e = record { kind = error; result = error_code e; offset = 0; total = 0; bytes = [] }

abbrev pub succeeded : MessageType → ℕ → ℕ → List ℕ → Answer
succeeded kind offset total bytes = record {
  kind = kind;
  result = 0;
  offset = offset;
  total = total;
  bytes = bytes;
}

unfoldable pub write_sign_reply : ℕ → Answer → List ℕ
unfolding write_sign_payload
write_sign_reply phase a =
    let n = min (length a.bytes) chunk_size in
    write_sign_payload (record zeroed {
      phase = phase;
      result = a.result;
      offset = a.offset;
      total = a.total;
      chunk_len = n;
      bytes = take n a.bytes ++ zeros (chunk_size - n);
    })

abbrev pub begin_answer : Result SignError (Unit {0}) × Signer → Answer × Signer
begin_answer (ok _, s) = (succeeded sign_begin_resp 0 0 (to_le_bytes 4 chunk_size), s)
begin_answer (err e, s) = (failed e, s)

-- The offset of the answer counts all bytes received.
abbrev pub in_chunk_answer : Result SignError (Unit {0}) × Signer → Answer × Signer
in_chunk_answer (ok _, s) = (
  succeeded sign_in_chunk_resp (s.session.key_recv + s.session.aux_recv + s.session.msg_recv) 0 [],
  s,
)
in_chunk_answer (err e, s) = (failed e, s)

abbrev pub exec_answer : Result SignError ℕ × Signer → Answer × Signer
exec_answer (ok out_total, s) = (succeeded sign_exec_resp 0 out_total [], s)
exec_answer (err e, s) = (failed e, s)

abbrev pub out_chunk_answer : ℕ → Signer → Result SignError (List ℕ) → Answer
out_chunk_answer offset s (ok bytes) =
    succeeded sign_out_chunk_resp offset s.session.out_total bytes
out_chunk_answer offset s (err e) = failed e

module _ (dsa : Mldsa) (rand : Random) where
  -- The operation needs 32 random bytes.
  unfoldable pub exec_with : Result CapError (List ℕ) → Signer → Answer × Signer
  unfolding handle_exec
  exec_with (err e) s = (failed exec_failed, s)
  exec_with (ok rnd) s = exec_answer (handle_exec dsa rnd s)

  unfoldable pub handle :
      MessageType → SignPayload → Signer → rand.World → Answer × Signer × rand.World
  unfolding handle_begin handle_in_chunk exec_with handle_out_chunk handle_end
  handle sign_begin_req req s w = let (a, s') = begin_answer (handle_begin req s) in (a, s', w)
  handle sign_in_chunk_req req s w =
      let (a, s') = in_chunk_answer (handle_in_chunk req s) in (a, s', w)
  handle sign_exec_req req s w =
      let (rnd, w') = rand.rand_bytes 32 w in let (a, s') = exec_with rnd s in (a, s', w')
  handle sign_out_chunk_req req s w = (out_chunk_answer req.offset s (handle_out_chunk req s), s, w)
  handle sign_end_req req s w = (succeeded sign_end_resp 0 0 [], handle_end s, w)
  handle kind req s w = (failed invalid_request, s, w)

  abbrev pub World : Type 0
  World = Signer × rand.World

  -- The answer is posted.
  unfoldable pub post_answer :
      ℕ
      → Answer × Signer × rand.World
      → IpcRegistry
      → Result IpcError (Unit {0}) × IpcRegistry × World
  unfolding write_sign_reply ipc_reply
  post_answer phase (a, s, w) r =
      let (posted, r') = ipc_reply r ep_sign a.kind (write_sign_reply phase a) in
      (posted, r', (s, w))

  unfoldable pub serve :
      IpcMessage → IpcRegistry → World → Result IpcError (Unit {0}) × IpcRegistry × World
  unfolding read_sign_payload handle post_answer
  serve msg r (s, w) =
      let req = read_sign_payload msg.payload in
      if ltb msg.header.payload_len ipc_max_payload
      then post_answer 0 (failed invalid_request, s, w) r
      else post_answer req.phase (handle msg.header.msg_type req s w) r

  unfoldable pub received :
      Result IpcError IpcMessage × IpcRegistry
      → World
      → Result IpcError (Unit {0}) × IpcRegistry × World
  unfolding serve
  received (err e, r) w = (err e, r, w)
  received (ok msg, r) w = serve msg r w

  unfoldable pub dispatch : IpcRegistry → World → Result IpcError (Unit {0}) × IpcRegistry × World
  unfolding ipc_recv received
  dispatch r w = received (ipc_recv r ep_sign) w
