-- ===== src/Sign/Session/Signing.antt =====
-- A session that signs (src/sign_service.rs): what was sent is signed, and what is read is the
-- signature.
use iso_light_k.Common.{
  ℕ, zero, suc, ◌+◌, ◌-◌, ◌*◌, ◌≡◌, ◌≤◌, ◌<◌, refl, sym, ap, ◌∙◌, true, false, ltb, leb,
  if◌then◌else◌, some, List, [], ◌∷◌, ◌++◌, length, take, drop, min, Result, ok, err, length-append,
  take-length-append, append_empty, Bool-cases, inl, inr, arith,
}
use mathlib.Core.List.{append_assoc}
use iso_light_k.Common.Bytes.{write_at, overwrite, to_le_bytes, little_endian-to_le_bytes_four}
use iso_light_k.Common.Slices.{length-write_at, take-min-drop, drop-drop, take_whole}
use iso_light_k.Ipc.Payload.{SignPayload, zeroed}
use iso_light_k.Sign.{
  sign, Signer, SignError, Mldsa, collect_msg, ready, output_ready, sk_len, sig_len, msg_buf_len,
  out_buf_len, chunk_size, zeros,
}
use iso_light_k.Sign.Session.{
  initial, begun, handle_begin, in_chunk, handle_in_chunk, msg_stored, handle_exec, exec_sign,
  handle_out_chunk,
}
use iso_light_k.Sign.Session.Laws.{length-zeros}
use iso_light_k.Sign.Session.Stream.{
  chunk_req, joined, send, AreChunks, take-write_at, key_sent, send-key,
}

abbrev msg_sent : List ℕ → Signer → Signer
msg_sent buf s = record s {
  msg_buf = buf;
  session = record (s.session) { msg_recv = s.session.msg_total; phase = ready };
}

msg_chunk_lem :
    (offset : ℕ) (c : List ℕ) (s : Signer)
    → s.session.phase ≡ collect_msg
    → length c ≤ chunk_size
    → offset + length c ≤ s.session.msg_total
    → s.session.msg_total ≤ msg_buf_len
    → (handle_in_chunk (chunk_req offset c) s).1 ≡ record s {
      msg_buf = write_at offset c s.msg_buf;
      session = msg_stored (offset + length c) s.session;
    }
unfolding handle_in_chunk in_chunk
msg_chunk_lem offset c s at short fits within =
    let low : ltb chunk_size (length c) ≡ false = ground arith in
    let a : ltb msg_buf_len (offset + length c) ≡ false = ground arith in
    let b : ltb s.session.msg_total (offset + length c) ≡ false = ground arith in
    rw (low, at, take-length-append c (zeros (chunk_size - length c)), a, b) refl

-- Likewise for the message.
pub send-msg :
    (c : List ℕ) (cs : List (List ℕ)) (pre : List ℕ) (s : Signer)
    → s.session.phase ≡ collect_msg
    → length s.msg_buf ≡ msg_buf_len
    → s.session.msg_total ≤ msg_buf_len
    → take (length pre) s.msg_buf ≡ pre
    → AreChunks (c ∷ cs)
    → length pre + length (joined (c ∷ cs)) ≡ s.session.msg_total
    → (buf : List ℕ) × (send (length pre) (c ∷ cs) s ≡ msg_sent buf s)
      × (length buf ≡ msg_buf_len)
      × (take s.session.msg_total buf ≡ pre ++ joined (c ∷ cs))
unfolding send
send-msg c [] pre s at sized within front (some_c, short, _) total =
    let end_is : length pre + length c ≡ s.session.msg_total =
      omega (arith, length-append c [], total) in
    let done : leb s.session.msg_total s.session.msg_total ≡ true = ground arith in
    let step = msg_chunk_lem (length pre) c s at short (omega arith) within in
    (
      write_at (length pre) c s.msg_buf,
      step ∙ rw (end_is, done) refl,
      length-write_at (length pre) c s.msg_buf (omega arith) ∙ sized,
      rw (append_empty c, ← end_is) (take-write_at pre c s.msg_buf (omega arith) front),
    )
send-msg c (d ∷ cs) pre s at sized within front (some_c, short, more) total =
    let all = length-append c (joined (d ∷ cs)) in
    let rest = length-append d (joined cs) in
    let some_d = more.0 in
    let not_yet : leb s.session.msg_total (length pre + length c) ≡ false = ground arith in
    let step = msg_chunk_lem (length pre) c s at short (omega arith) within in
    let s' : Signer = record s {
      msg_buf = write_at (length pre) c s.msg_buf;
      session = record (s.session) { msg_recv = length pre + length c };
    } in
    let stepped : (handle_in_chunk (chunk_req (length pre) c) s).1 ≡ s' = step ∙ rw not_yet refl in
    let long = length-append pre c in
    let (buf, sent, keeps, got) =
      send-msg d cs (pre ++ c) s' at
        (length-write_at (length pre) c s.msg_buf (omega arith) ∙ sized) within
        (rw long (take-write_at pre c s.msg_buf (omega arith) front)) more (omega arith) in
    (
      buf,
      ap (send (length pre + length c) (d ∷ cs)) stepped
          ∙ (ap (λ n. send n (d ∷ cs) s') (sym long) ∙ sent),
      keeps,
      got ∙ append_assoc pre c (joined (d ∷ cs)),
    )

-- The request that begins a session.
abbrev pub begin_req : ℕ → ℕ → ℕ → ℕ → SignPayload
begin_req op key aux msg = record zeroed {
  op = op;
  variant = 1;
  chunk_len = 12;
  bytes = to_le_bytes 4 key ++ to_le_bytes 4 aux ++ to_le_bytes 4 msg ++ zeros 228;
}

handle_begin_sign :
    (key msg : ℕ)
    → key ≤ sk_len
    → msg ≤ msg_buf_len
    → handle_begin (begin_req 2 key 0 msg) initial ≡ (ok tt, begun sign key 0 msg)
unfolding handle_begin to_le_bytes
handle_begin_sign key msg k m =
    rw
      (
        little_endian-to_le_bytes_four key (omega arith),
        little_endian-to_le_bytes_four msg (omega arith),
        little_endian-to_le_bytes_four 0 (omega arith),
      )
      (ground arith)

-- The request for a chunk of the output.
abbrev pub out_req : ℕ → SignPayload
out_req offset = record zeroed { offset = offset }

abbrev chunk_of : Result SignError (List ℕ) → List ℕ
chunk_of (ok bytes) = bytes
chunk_of (err e) = []

-- The output as a client reads it, in so many requests.
unfoldable pub read_out : ℕ → ℕ → Signer → List ℕ
read_out zero offset s = []
read_out (suc n) offset s =
    chunk_of (handle_out_chunk (out_req offset) s) ++ read_out n (offset + chunk_size) s

out_past :
    (offset : ℕ) (s : Signer)
    → s.session.phase ≡ output_ready
    → s.session.out_total ≤ offset
    → handle_out_chunk (out_req offset) s ≡ ok []
unfolding handle_out_chunk
out_past offset s at past = ground arith

out_there :
    (offset : ℕ) (s : Signer)
    → s.session.phase ≡ output_ready
    → offset < s.session.out_total
    → handle_out_chunk (out_req offset) s
      ≡ ok (take (min (s.session.out_total - offset) chunk_size) (drop offset s.out_buf))
unfolding handle_out_chunk
out_there offset s at there = ground arith

-- Enough requests for chunks of the output, from an offset on, give the rest of the output.
pub read_out_lem :
    (n offset : ℕ) (s : Signer)
    → s.session.phase ≡ output_ready
    → s.session.out_total ≤ offset + n * chunk_size
    → read_out n offset s ≡ take (s.session.out_total - offset) (drop offset s.out_buf)
unfolding read_out
read_out_lem zero offset s at enough =
    let over : s.session.out_total - offset ≡ 0 = omega arith in rw over refl
read_out_lem (suc n) offset s at enough =
    let rest = read_out_lem n (offset + chunk_size) s at (omega arith) in
    elim (Bool-cases (leb s.session.out_total offset)) [
      | inl y ↦
          let over : s.session.out_total - offset ≡ 0 = ground arith in
          let over' : s.session.out_total - (offset + chunk_size) ≡ 0 = ground arith in
          rw (out_past offset s at (ground arith), over, rest, over') refl
      | inr more ↦
          let left : s.session.out_total - (offset + chunk_size)
              ≡ s.session.out_total - offset - chunk_size =
            omega arith in
          rw
            (
              out_there offset s at (ground arith),
              rest,
              left,
              ← (drop-drop chunk_size offset s.out_buf),
            )
            (take-min-drop (s.session.out_total - offset) chunk_size (drop offset s.out_buf))
    ]

-- The session once the key and the message are there.
abbrev collected : List ℕ → List ℕ → ℕ → Signer
collected kb mb mt = msg_sent mb (key_sent kb (begun sign sk_len 0 mt))

inputs_sent :
    (k : List ℕ) (ks : List (List ℕ)) (m : List ℕ) (ms : List (List ℕ)) (mt : ℕ)
    → AreChunks (k ∷ ks)
    → AreChunks (m ∷ ms)
    → length (joined (k ∷ ks)) ≡ sk_len
    → length (joined (m ∷ ms)) ≡ mt
    → mt ≤ msg_buf_len
    → (mb : List ℕ) × (send 0 (m ∷ ms) (send 0 (k ∷ ks) (begun sign sk_len 0 mt))
        ≡ collected (joined (k ∷ ks)) mb mt)
      × (take mt mb ≡ joined (m ∷ ms))
inputs_sent k ks m ms mt key_chunks msg_chunks key_len msg_len within =
    let s₀ : Signer = begun sign sk_len 0 mt in
    let (kb, sent_key, ksized, got_key) =
      send-key k ks [] s₀ refl (length-zeros sk_len) (omega arith) refl key_chunks (omega arith) in
    let some_m : 0 < mt = omega (arith, msg_chunks.0, length-append m (joined ms)) in
    let to_msg : (if ltb 0 mt then collect_msg else ready) ≡ collect_msg = some_left mt some_m in
    let whole : kb ≡ joined (k ∷ ks) = sym (take_whole sk_len kb (omega arith)) ∙ got_key in
    let (mb, sent_msg, msized, got_msg) =
      send-msg m ms [] (key_sent kb s₀) to_msg (length-zeros msg_buf_len) within refl msg_chunks
        (omega arith) in
    (
      mb,
      ap (send 0 (m ∷ ms)) sent_key ∙ (sent_msg ∙ ap (λ (b : List ℕ). collected b mb mt) whole),
      got_msg,
    )
  where
    some_left : (n : ℕ) → 0 < n → (if ltb 0 n then collect_msg else ready) ≡ collect_msg
    some_left n h = ground arith

-- The session once the signature is there.
abbrev signed_state : List ℕ → ℕ → Signer
signed_state sig mt = record initial {
  session = record (collected [] [] mt).session { out_total = sig_len; phase = output_ready };
  out_buf = overwrite sig (zeros out_buf_len);
}

module _ (dsa : Mldsa) where
  exec_signed :
      (kb mb rnd sig : List ℕ) (mt : ℕ)
      → dsa.sign kb (take mt mb) [] rnd ≡ some sig
      → handle_exec dsa rnd (collected kb mb mt) ≡ (ok sig_len, signed_state sig mt)
  unfolding handle_exec
  exec_signed kb mb rnd sig mt signed = rw (signed, exec_sign) refl

  -- Where the package signs, a session that begins for signing, gets a key of 2560 bytes and a
  -- message of 1 to 1020 bytes in chunks that are not empty and fit into a request, and is
  -- executed, succeeds, and what 11 requests for the output give, put together, is the signature
  -- of that message under that key.
  pub sign_session :
      (k : List ℕ) (ks : List (List ℕ)) (m : List ℕ) (ms : List (List ℕ)) (rnd sig : List ℕ)
      → AreChunks (k ∷ ks)
      → AreChunks (m ∷ ms)
      → length (joined (k ∷ ks)) ≡ sk_len
      → length (joined (m ∷ ms)) ≤ msg_buf_len
      → dsa.sign (joined (k ∷ ks)) (joined (m ∷ ms)) [] rnd ≡ some sig
      → (s : Signer) × (handle_exec dsa rnd (
            send 0 (m ∷ ms) (
              send 0
                (k ∷ ks)
                (handle_begin (begin_req 2 sk_len 0 (length (joined (m ∷ ms)))) initial).1))
          ≡ (ok sig_len, s))
        × (read_out 11 0 s ≡ sig)
  sign_session k ks m ms rnd sig key_chunks msg_chunks key_len msg_len signed =
      let mt = length (joined (m ∷ ms)) in
      let (mb, sent, got) = inputs_sent k ks m ms mt key_chunks msg_chunks key_len refl msg_len in
      let l : length sig ≡ sig_len =
        dsa.length-sign (joined (k ∷ ks)) (joined (m ∷ ms)) [] rnd sig signed in
      (
        signed_state sig mt,
        ap (λ x. handle_exec dsa rnd (send 0 (m ∷ ms) (send 0 (k ∷ ks) x.1)))
              (handle_begin_sign sk_len mt (omega arith) msg_len)
            ∙ (ap (handle_exec dsa rnd) sent
                ∙ exec_signed (joined (k ∷ ks)) mb rnd sig mt (rw got signed)),
        read_out_lem 11 0 (signed_state sig mt) refl (omega arith)
            ∙ whole sig l (drop (length sig) (zeros out_buf_len)),
      )
    where
      whole : (xs : List ℕ) → length xs ≡ sig_len → (ys : List ℕ) → take sig_len (xs ++ ys) ≡ xs
      whole xs l ys = rw (← l) (take-length-append xs ys)
