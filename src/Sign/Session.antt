-- ===== src/Sign/Session.antt =====
-- The handlers of src/sign_service.rs on the session. A chunk's end is below 2 ^ 33, so that `usize`
-- does not overflow.
pub mod Laws
pub mod Exec
pub mod Stream
pub mod Signing
use iso_light_k.Common.{
  ℕ, ◌+◌, ◌-◌, min, Bool, true, false, not, ◌&&◌, ◌||◌, ltb, leb, ◌==◌, if◌then◌else◌, Option, none,
  some, List, [], ◌∷◌, ◌++◌, length, take, drop, replicate, Result, ok, err,
}
use iso_light_k.Common.Bytes.{field, overwrite, write_at}
use iso_light_k.Ipc.Payload.{SignPayload}
use iso_light_k.Sign.{
  Op, keygen, sign, verify, Phase, idle, collect_key, collect_aux, collect_msg, ready, output_ready,
  SignError, invalid_phase, invalid_op, invalid_variant, size_too_large, chunk_overflow,
  exec_failed, verify_failed, invalid_request, SignSession, Signer, Mldsa, pk_len, sk_len, sig_len,
  msg_buf_len, out_buf_len, chunk_size, zeros,
}

abbrev pub idle_session : SignSession
idle_session = record {
  phase = idle;
  op = keygen;
  key_total = 0;
  aux_total = 0;
  msg_total = 0;
  key_recv = 0;
  aux_recv = 0;
  msg_recv = 0;
  out_total = 0;
  verify_ok = false;
}

-- The statics at the start.
abbrev pub initial : Signer
initial = record {
  session = idle_session;
  key_buf = zeros sk_len;
  aux_buf = zeros sig_len;
  msg_buf = zeros msg_buf_len;
  out_buf = zeros out_buf_len;
}

abbrev pub is_idle : Phase → Bool
is_idle idle = true
is_idle collect_key = false
is_idle collect_aux = false
is_idle collect_msg = false
is_idle ready = false
is_idle output_ready = false

abbrev pub is_ready : Phase → Bool
is_ready idle = false
is_ready collect_key = false
is_ready collect_aux = false
is_ready collect_msg = false
is_ready ready = true
is_ready output_ready = false

abbrev pub is_output_ready : Phase → Bool
is_output_ready idle = false
is_output_ready collect_key = false
is_output_ready collect_aux = false
is_output_ready collect_msg = false
is_output_ready ready = false
is_output_ready output_ready = true

unfoldable pub decode_op : ℕ → Option Op
decode_op n =
    if n == 1
    then some keygen
    else if n == 2
    then some sign
    else if n == 3
    then some verify
    else none

-- Whether the declared sizes are too large for the operation.
unfoldable pub too_large : Op → ℕ → ℕ → ℕ → Bool
too_large keygen key aux msg = ltb 32 key || not (aux == 0) || not (msg == 0)
too_large sign key aux msg = ltb sk_len key || not (aux == 0) || ltb msg_buf_len msg
too_large verify key aux msg = ltb pk_len key || ltb sig_len aux || ltb msg_buf_len msg

abbrev pub after_aux : ℕ → Phase
after_aux msg = if ltb 0 msg then collect_msg else ready

abbrev pub after_key : ℕ → ℕ → Phase
after_key aux msg = if ltb 0 aux then collect_aux else after_aux msg

abbrev pub first_phase : ℕ → ℕ → ℕ → Phase
first_phase key aux msg = if ltb 0 key then collect_key else after_key aux msg

-- The session that a begin opens, over buffers of zeros.
abbrev pub begun : Op → ℕ → ℕ → ℕ → Signer
begun op key aux msg = record initial {
  session = record idle_session {
    phase = first_phase key aux msg;
    op = op;
    key_total = key;
    aux_total = aux;
    msg_total = msg;
  };
}

-- A begin once its operation is decoded.
unfoldable pub begin_op : Option Op → SignPayload → Signer → Result SignError (Unit {0}) × Signer
unfolding too_large
begin_op none req s = (err invalid_op, s)
begin_op (some op) req s =
    let key = field req.bytes 0 4 in
    let aux = field req.bytes 4 4 in
    let msg = field req.bytes 8 4 in
    if not (req.variant == 1)
    then (err invalid_variant, s)
    else if ltb req.chunk_len 12
    then (err invalid_request, s)
    else if too_large op key aux msg
    then (err size_too_large, s)
    else (ok tt, begun op key aux msg)

unfoldable pub handle_begin : SignPayload → Signer → Result SignError (Unit {0}) × Signer
unfolding decode_op begin_op
handle_begin req s =
    if not (is_idle s.session.phase)
    then (err invalid_phase, s)
    else begin_op (decode_op req.op) req s

-- The session after the bytes of the key up to `end` were stored.
abbrev pub key_stored : ℕ → SignSession → SignSession
key_stored end n = record n {
  key_recv = end;
  phase = if leb n.key_total end then after_key n.aux_total n.msg_total else n.phase;
}

abbrev pub aux_stored : ℕ → SignSession → SignSession
aux_stored end n = record n {
  aux_recv = end;
  phase = if leb n.aux_total end then after_aux n.msg_total else n.phase;
}

abbrev pub msg_stored : ℕ → SignSession → SignSession
msg_stored end n = record n {
  msg_recv = end;
  phase = if leb n.msg_total end then ready else n.phase;
}

-- The chunk goes to the buffer of the phase.
unfoldable pub in_chunk : Phase → ℕ → List ℕ → Signer → Result SignError (Unit {0}) × Signer
in_chunk collect_key offset chunk s =
    let end = offset + length chunk in
    if ltb sk_len end || ltb s.session.key_total end then (err chunk_overflow, s) else (
      ok tt,
      record s { key_buf = write_at offset chunk s.key_buf; session = key_stored end s.session },
    )
in_chunk collect_aux offset chunk s =
    let end = offset + length chunk in
    if ltb sig_len end || ltb s.session.aux_total end then (err chunk_overflow, s) else (
      ok tt,
      record s { aux_buf = write_at offset chunk s.aux_buf; session = aux_stored end s.session },
    )
in_chunk collect_msg offset chunk s =
    let end = offset + length chunk in
    if ltb msg_buf_len end || ltb s.session.msg_total end then (err chunk_overflow, s) else (
      ok tt,
      record s { msg_buf = write_at offset chunk s.msg_buf; session = msg_stored end s.session },
    )
in_chunk idle offset chunk s = (err invalid_phase, s)
in_chunk ready offset chunk s = (err invalid_phase, s)
in_chunk output_ready offset chunk s = (err invalid_phase, s)

unfoldable pub handle_in_chunk : SignPayload → Signer → Result SignError (Unit {0}) × Signer
unfolding in_chunk
handle_in_chunk req s =
    if ltb chunk_size req.chunk_len
    then (err chunk_overflow, s)
    else in_chunk s.session.phase req.offset (take req.chunk_len req.bytes) s

module _ (dsa : Mldsa) where
  -- The operation: the result, and what it leaves of the session and of the output buffer.
  unfoldable pub exec_keygen : List ℕ → Signer → Result SignError ℕ × Signer
  exec_keygen rnd s =
      let seed = if s.session.key_total == 32 then take 32 s.key_buf else rnd in
      elim (dsa.keygen seed) [
        | none ↦ (err exec_failed, s)
        | some (pk, sk) ↦
            (ok (pk_len + sk_len), record s { out_buf = overwrite (pk ++ sk) s.out_buf })
      ]

  unfoldable pub exec_sign : List ℕ → Signer → Result SignError ℕ × Signer
  exec_sign rnd s =
      if not (s.session.key_total == sk_len)
      then (err invalid_request, s)
      else elim (dsa.sign s.key_buf (take s.session.msg_total s.msg_buf) [] rnd) [
        | none ↦ (err exec_failed, s)
        | some sig ↦ (ok sig_len, record s { out_buf = overwrite sig s.out_buf })
      ]

  -- The verdict is kept in the session also where it is negative.
  abbrev pub judged : Bool → Signer → Result SignError ℕ × Signer
  judged valid s =
      let s' : Signer = record s { session = record (s.session) { verify_ok = valid } } in
      if not valid
      then (err verify_failed, s')
      else (ok 1, record s' { out_buf = overwrite (1 ∷ []) s.out_buf })

  unfoldable pub exec_verify : Signer → Result SignError ℕ × Signer
  exec_verify s =
      if not (s.session.key_total == pk_len) || not (s.session.aux_total == sig_len)
      then (err invalid_request, s)
      else elim (dsa.verify (take pk_len s.key_buf) (take s.session.msg_total s.msg_buf) s.aux_buf
          []) [ none ↦ (err exec_failed, s) | some valid ↦ judged valid s ]

  unfoldable pub exec_op : Op → List ℕ → Signer → Result SignError ℕ × Signer
  unfolding exec_keygen exec_sign exec_verify
  exec_op keygen rnd s = exec_keygen rnd s
  exec_op sign rnd s = exec_sign rnd s
  exec_op verify rnd s = exec_verify s

  -- After a success the inputs are erased and the output is ready.
  unfoldable pub finish_exec : Result SignError ℕ × Signer → Result SignError ℕ × Signer
  finish_exec (err e, s) = (err e, s)
  finish_exec (ok out_total, s) = (
    ok out_total,
    record s {
      key_buf = zeros sk_len;
      aux_buf = zeros sig_len;
      msg_buf = zeros msg_buf_len;
      session = record (s.session) { out_total = out_total; phase = output_ready };
    },
  )

  unfoldable pub handle_exec : List ℕ → Signer → Result SignError ℕ × Signer
  unfolding exec_op finish_exec
  handle_exec rnd s =
      if not (is_ready s.session.phase)
      then (err invalid_phase, s)
      else finish_exec (exec_op s.session.op rnd s)

-- The bytes of the output from the offset on, one chunk at most.
unfoldable pub handle_out_chunk : SignPayload → Signer → Result SignError (List ℕ)
handle_out_chunk req s =
    if not (is_output_ready s.session.phase)
    then err invalid_phase
    else if leb s.session.out_total req.offset
    then ok []
    else ok (take (min (s.session.out_total - req.offset) chunk_size) (drop req.offset s.out_buf))

unfoldable pub handle_end : Signer → Signer
handle_end s = initial
