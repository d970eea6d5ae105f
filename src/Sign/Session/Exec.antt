-- ===== src/Sign/Session/Exec.antt =====
-- `handle_exec` and `handle_end` (src/sign_service.rs), and every sequence of the handlers.
use iso_light_k.Common.{
  ℕ, ◌≡◌, ◌≤◌, refl, Bool, true, false, not, ◌||◌, ◌==◌, if◌then◌else◌, List, [], ◌∷◌, ◌++◌, length,
  take, Result, ok, err, Bool-cases, Option-cases, inl, inr, length-append, arith,
}
use iso_light_k.Common.Bytes.{overwrite}
use iso_light_k.Common.Slices.{length-overwrite}
use iso_light_k.Ipc.Payload.{SignPayload}
use iso_light_k.Sign
use iso_light_k.Sign.{
  Op, keygen, sign, verify, ready, SignError, SignSession, Signer, Mldsa, pk_len, sk_len, sig_len,
  msg_buf_len, out_buf_len, zeros,
}
use iso_light_k.Sign.Session.{
  is_ready, handle_begin, handle_in_chunk, exec_keygen, exec_sign, exec_verify, judged, exec_op,
  finish_exec, handle_exec, handle_end,
}
use iso_light_k.Sign.Session.Laws.{
  length-zeros, IsValid, initial-IsValid, handle_begin-IsValid, handle_in_chunk-IsValid,
}

-- The session of an operation that has written its output.
abbrev with_output : Bool → List ℕ → Signer → Signer
with_output valid out s = record s {
  session = record (s.session) { verify_ok = valid };
  out_buf = out;
}

with_output-IsValid :
    (valid : Bool) (out : List ℕ) (s : Signer)
    → s.session.phase ≡ ready
    → length out ≡ out_buf_len
    → IsValid s
    → IsValid (with_output valid out s)
with_output-IsValid valid out s at sized v = record {
  key_sized = v.key_sized;
  aux_sized = v.aux_sized;
  msg_sized = v.msg_sized;
  out_sized = sized;
  key_within = v.key_within;
  aux_within = v.aux_within;
  msg_within = v.msg_within;
  out_within = v.out_within;
  key_counted = v.key_counted;
  aux_counted = v.aux_counted;
  msg_counted = v.msg_counted;
  progress = v.progress;
  erased = rw at tt;
}

-- What an operation leaves: a valid session, and an output within its buffer.
abbrev IsExecuted : Result SignError ℕ × Signer → Type 0
IsExecuted (err e, s) = IsValid s
IsExecuted (ok n, s) = IsValid s × (n ≤ out_buf_len)

module _ (dsa : Mldsa) where
  exec_keygen-IsExecuted :
      (rnd : List ℕ) (s : Signer)
      → s.session.phase ≡ ready
      → IsValid s
      → IsExecuted (exec_keygen dsa rnd s)
  unfolding exec_keygen
  exec_keygen-IsExecuted rnd s at v =
      let seed = if s.session.key_total == 32 then take 32 s.key_buf else rnd in
      elim (Option-cases (dsa.keygen seed)) [
        | inl e ↦ rw (e, exec_keygen) v
        | inr ((pk, sk), e) ↦
            let (p, q) = dsa.length-keygen seed pk sk e in
            let short : length (pk ++ sk) ≤ length s.out_buf =
              omega (arith, length-append pk sk, v.out_sized) in
            rw (e, exec_keygen)
              (
                with_output-IsValid s.session.verify_ok (overwrite (pk ++ sk) s.out_buf) s at
                    (omega (arith, length-overwrite (pk ++ sk) s.out_buf short, v.out_sized)) v,
                omega arith,
              )
      ]

  exec_sign-IsExecuted :
      (rnd : List ℕ) (s : Signer)
      → s.session.phase ≡ ready
      → IsValid s
      → IsExecuted (exec_sign dsa rnd s)
  unfolding exec_sign
  exec_sign-IsExecuted rnd s at v = elim (Bool-cases (s.session.key_total == sk_len)) [
    | inr n ↦ rw n v
    | inl y ↦
        let msg = take s.session.msg_total s.msg_buf in
        elim (Option-cases (dsa.sign s.key_buf msg [] rnd)) [
          | inl e ↦ rw (y, e) v
          | inr (sig, e) ↦
              let l = dsa.length-sign s.key_buf msg [] rnd sig e in
              let short : length sig ≤ length s.out_buf = omega (arith, v.out_sized) in
              rw (y, e)
                (
                  with_output-IsValid s.session.verify_ok (overwrite sig s.out_buf) s at
                      (omega (arith, length-overwrite sig s.out_buf short, v.out_sized)) v,
                  omega arith,
                )
        ]
  ]

  judged-IsExecuted :
      (valid : Bool) (s : Signer)
      → s.session.phase ≡ ready
      → IsValid s
      → IsExecuted (judged dsa valid s)
  judged-IsExecuted false s at v = with_output-IsValid false s.out_buf s at v.out_sized v
  judged-IsExecuted true s at v =
      let mark : List ℕ = 1 ∷ [] in
      let short : length mark ≤ length s.out_buf = omega (arith, v.out_sized) in
      (
        with_output-IsValid true (overwrite mark s.out_buf) s at
            (omega (arith, length-overwrite mark s.out_buf short, v.out_sized)) v,
        omega arith,
      )

  exec_verify-IsExecuted :
      (s : Signer) → s.session.phase ≡ ready → IsValid s → IsExecuted (exec_verify dsa s)
  unfolding exec_verify
  exec_verify-IsExecuted s at v =
      elim (Bool-cases
        (not (s.session.key_total == pk_len) || not (s.session.aux_total == sig_len))) [
          | inl n ↦ rw n v
          | inr y ↦
              elim (Option-cases (
                dsa.verify (take pk_len s.key_buf) (take s.session.msg_total s.msg_buf) s.aux_buf
                  [])) [
                    | inl e ↦ rw (y, e) v
                    | inr (valid, e) ↦ rw (y, e) (judged-IsExecuted valid s at v)
                  ]
        ]

  exec_op-IsExecuted :
      (op : Op) (rnd : List ℕ) (s : Signer)
      → s.session.phase ≡ ready
      → IsValid s
      → IsExecuted (exec_op dsa op rnd s)
  unfolding exec_op
  exec_op-IsExecuted keygen rnd s at v = exec_keygen-IsExecuted rnd s at v
  exec_op-IsExecuted sign rnd s at v = exec_sign-IsExecuted rnd s at v
  exec_op-IsExecuted verify rnd s at v = exec_verify-IsExecuted s at v

  finish_exec-IsValid :
      (x : Result SignError ℕ × Signer) → IsExecuted x → IsValid (finish_exec dsa x).1
  unfolding finish_exec
  finish_exec-IsValid (err e, s) v = v
  finish_exec-IsValid (ok n, s) (v, fits) = record {
    key_sized = length-zeros sk_len;
    aux_sized = length-zeros sig_len;
    msg_sized = length-zeros msg_buf_len;
    out_sized = v.out_sized;
    key_within = v.key_within;
    aux_within = v.aux_within;
    msg_within = v.msg_within;
    out_within = fits;
    key_counted = v.key_counted;
    aux_counted = v.aux_counted;
    msg_counted = v.msg_counted;
    progress = tt;
    erased = (refl, refl, refl);
  }

  pub handle_exec-IsValid :
      (rnd : List ℕ) (s : Signer) → IsValid s → IsValid (handle_exec dsa rnd s).1
  unfolding handle_exec
  handle_exec-IsValid rnd s v = elim (Bool-cases (is_ready s.session.phase)) [
    | inr n ↦ rw n v
    | inl y ↦ rw y (
        finish_exec-IsValid (exec_op dsa s.session.op rnd s)
          (exec_op-IsExecuted s.session.op rnd s (is_ready-eq s.session.phase y) v))
  ]
    where
      is_ready-eq : (p : Sign.Phase) → is_ready p ≡ true → p ≡ ready
      is_ready-eq Sign.ready h = refl
      is_ready-eq Sign.idle h = cc
      is_ready-eq Sign.collect_key h = cc
      is_ready-eq Sign.collect_aux h = cc
      is_ready-eq Sign.collect_msg h = cc
      is_ready-eq Sign.output_ready h = cc

  -- A request changes the session by one of the handlers.
  pub data Step : Signer → Signer → Type 0 where
    begin : (req : SignPayload) (s : Signer) → Step s (handle_begin req s).1
    chunk : (req : SignPayload) (s : Signer) → Step s (handle_in_chunk req s).1
    exec : (rnd : List ℕ) (s : Signer) → Step s (handle_exec dsa rnd s).1
    end : (s : Signer) → Step s (handle_end s)

  pub data Signs (s : Signer) : Signer → Type 0 where
    here : Signs s s
    next : {t u : Signer} → Signs s t → Step t u → Signs s u

  pub Step-IsValid : {s t : Signer} → Step s t → IsValid s → IsValid t
  unfolding handle_end
  Step-IsValid (begin req s) v = handle_begin-IsValid req s v
  Step-IsValid (chunk req s) v = handle_in_chunk-IsValid req s v
  Step-IsValid (exec rnd s) v = handle_exec-IsValid rnd s v
  Step-IsValid (end s) v = initial-IsValid

  -- Every sequence of requests keeps a valid session valid: the sizes declared and received stay
  -- within the buffers, the buffers keep their sizes, the phase agrees with what is still missing,
  -- and the inputs are erased once the output is ready.
  pub Signs-IsValid : {s t : Signer} → IsValid s → Signs s t → IsValid t
  Signs-IsValid v here = v
  Signs-IsValid v (next r st) = Step-IsValid st (Signs-IsValid v r)
