-- ===== src/Sign/Session/Stream.antt =====
-- A whole session (src/sign_service.rs): the key and the message in chunks, the operation, and the
-- output in chunks.
use iso_light_k.Common.{
  ℕ, ◌+◌, ◌-◌, ◌≡◌, ◌≤◌, ◌<◌, refl, sym, ap, ◌∙◌, true, false, ltb, leb, List, [], ◌∷◌, ◌++◌,
  length, take, drop, ok, length-append, take-length-append, append_empty, arith,
}
use mathlib.Core.List.{append_assoc}
use iso_light_k.Common.Bytes.{write_at}
use iso_light_k.Common.Slices.{take-write, length-write_at, append-take-drop}
use iso_light_k.Ipc.Payload.{SignPayload, zeroed}
use iso_light_k.Sign.{Signer, collect_key, sk_len, chunk_size, zeros}
use iso_light_k.Sign.Session.{in_chunk, handle_in_chunk, after_key, key_stored}

-- The request that carries a chunk.
abbrev pub chunk_req : ℕ → List ℕ → SignPayload
chunk_req offset chunk = record zeroed {
  offset = offset;
  chunk_len = length chunk;
  bytes = chunk ++ zeros (chunk_size - length chunk);
}

abbrev pub joined : List (List ℕ) → List ℕ
joined [] = []
joined (c ∷ cs) = c ++ joined cs

-- The chunks sent one after the other from an offset on.
unfoldable pub send : ℕ → List (List ℕ) → Signer → Signer
send offset [] s = s
send offset (c ∷ cs) s = send (offset + length c) cs (handle_in_chunk (chunk_req offset c) s).1

-- No chunk is empty, and none is too long for a request.
abbrev pub AreChunks : List (List ℕ) → Type 0
AreChunks [] = Unit
AreChunks (c ∷ cs) = (0 < length c) × (length c ≤ chunk_size) × AreChunks cs

abbrev pub key_sent : List ℕ → Signer → Signer
key_sent buf s = record s {
  key_buf = buf;
  session = record (s.session) {
    key_recv = s.session.key_total;
    phase = after_key s.session.aux_total s.session.msg_total;
  };
}

key_chunk_lem :
    (offset : ℕ) (c : List ℕ) (s : Signer)
    → s.session.phase ≡ collect_key
    → length c ≤ chunk_size
    → offset + length c ≤ s.session.key_total
    → s.session.key_total ≤ sk_len
    → (handle_in_chunk (chunk_req offset c) s).1 ≡ record s {
      key_buf = write_at offset c s.key_buf;
      session = key_stored (offset + length c) s.session;
    }
unfolding handle_in_chunk in_chunk
key_chunk_lem offset c s at short fits within =
    let low : ltb chunk_size (length c) ≡ false = ground arith in
    let a : ltb sk_len (offset + length c) ≡ false = ground arith in
    let b : ltb s.session.key_total (offset + length c) ≡ false = ground arith in
    rw (low, at, take-length-append c (zeros (chunk_size - length c)), a, b) refl

pub take-write_at :
    (pre c buf : List ℕ)
    → length pre ≤ length buf
    → take (length pre) buf ≡ pre
    → take (length pre + length c) (write_at (length pre) c buf) ≡ pre ++ c
take-write_at pre c buf fits front =
    take-write (length pre) c buf (drop (length pre + length c) buf) fits
    ∙ ap (λ (t : List ℕ). t ++ c) front

-- The bytes of a key that is sent in order are at the front of the buffer.
pub send-key :
    (c : List ℕ) (cs : List (List ℕ)) (pre : List ℕ) (s : Signer)
    → s.session.phase ≡ collect_key
    → length s.key_buf ≡ sk_len
    → s.session.key_total ≤ sk_len
    → take (length pre) s.key_buf ≡ pre
    → AreChunks (c ∷ cs)
    → length pre + length (joined (c ∷ cs)) ≡ s.session.key_total
    → (buf : List ℕ) × (send (length pre) (c ∷ cs) s ≡ key_sent buf s)
      × (length buf ≡ sk_len)
      × (take s.session.key_total buf ≡ pre ++ joined (c ∷ cs))
unfolding send
send-key c [] pre s at sized within front (some_c, short, _) total =
    let end_is : length pre + length c ≡ s.session.key_total =
      omega (arith, length-append c [], total) in
    let done : leb s.session.key_total s.session.key_total ≡ true = ground arith in
    let step = key_chunk_lem (length pre) c s at short (omega arith) within in
    (
      write_at (length pre) c s.key_buf,
      step ∙ rw (end_is, done) refl,
      length-write_at (length pre) c s.key_buf (omega arith) ∙ sized,
      rw (append_empty c, ← end_is) (take-write_at pre c s.key_buf (omega arith) front),
    )
send-key c (d ∷ cs) pre s at sized within front (some_c, short, more) total =
    let all = length-append c (joined (d ∷ cs)) in
    let rest = length-append d (joined cs) in
    let some_d = more.0 in
    let not_yet : leb s.session.key_total (length pre + length c) ≡ false = ground arith in
    let step = key_chunk_lem (length pre) c s at short (omega arith) within in
    let s' : Signer = record s {
      key_buf = write_at (length pre) c s.key_buf;
      session = record (s.session) { key_recv = length pre + length c };
    } in
    let stepped : (handle_in_chunk (chunk_req (length pre) c) s).1 ≡ s' = step ∙ rw not_yet refl in
    let long = length-append pre c in
    let (buf, sent, keeps, got) =
      send-key d cs (pre ++ c) s' at
        (length-write_at (length pre) c s.key_buf (omega arith) ∙ sized) within
        (rw long (take-write_at pre c s.key_buf (omega arith) front)) more (omega arith) in
    (
      buf,
      ap (send (length pre + length c) (d ∷ cs)) stepped
          ∙ (ap (λ n. send n (d ∷ cs) s') (sym long) ∙ sent),
      keeps,
      got ∙ append_assoc pre c (joined (d ∷ cs)),
    )

-- While a key that fits its buffer is collected, a chunk without bytes at the declared end of the
-- key is accepted and completes the key, whatever was sent before: the buffer stays as it is.
pub empty_chunk_completes :
    (s : Signer)
    → s.session.phase ≡ collect_key
    → s.session.key_total ≤ sk_len
    → ((handle_in_chunk (chunk_req s.session.key_total []) s).0 ≡ ok tt)
      × ((handle_in_chunk (chunk_req s.session.key_total []) s).1 ≡ key_sent s.key_buf s)
unfolding handle_in_chunk in_chunk
empty_chunk_completes s at within =
    let end_is : s.session.key_total + 0 ≡ s.session.key_total = omega arith in
    let a : ltb sk_len s.session.key_total ≡ false = ground arith in
    let b : ltb s.session.key_total s.session.key_total ≡ false = ground arith in
    let done : leb s.session.key_total s.session.key_total ≡ true = ground arith in
    let same = append-take-drop s.session.key_total s.key_buf in
    (
      rw (at, end_is, a, b) refl,
      rw (at, end_is, a, b, done, append_empty (take s.session.key_total s.key_buf), same) refl,
    )
