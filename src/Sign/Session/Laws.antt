-- ===== src/Sign/Session/Laws.antt =====
-- What the handlers of src/sign_service.rs keep of the session and its buffers.
use iso_light_k.Common.{
  ℕ, ◌+◌, ◌≡◌, ◌≤◌, ◌<◌, refl, Bool, true, false, ◌||◌, ltb, leb, if◌then◌else◌, none, some, List,
  length, take, Bool-cases, inl, inr, length-replicate, arith, Option,
}
use iso_light_k.Common.Bytes.{field}
use iso_light_k.Common.Slices.{length-write_at}
use iso_light_k.Ipc.Payload.{SignPayload}
use iso_light_k.Sign.{
  Op, keygen, sign, verify, Phase, idle, collect_key, collect_aux, collect_msg, ready, output_ready,
  Signer, chunk_size, sk_len, sig_len, msg_buf_len, out_buf_len, zeros,
}
use iso_light_k.Sign.Session.{
  initial, is_idle, begun, decode_op, begin_op, handle_begin, in_chunk, handle_in_chunk, too_large,
  after_key, after_aux, first_phase,
}

pub length-zeros : (n : ℕ) → length (zeros n) ≡ n
unfolding zeros
length-zeros n = length-replicate n 0

-- The bytes counted in each phase: of the key, of the aux and of the message, each below its total.
abbrev pub Counted : Phase → ℕ → ℕ → ℕ → ℕ → ℕ → ℕ → Type 0
Counted idle kr kt ar aux_total mr mt = Unit
Counted collect_key kr kt ar aux_total mr mt = (kr < kt) × (ar ≡ 0) × (mr ≡ 0)
Counted collect_aux kr kt ar aux_total mr mt = (kr ≡ kt) × (ar < aux_total) × (mr ≡ 0)
Counted collect_msg kr kt ar aux_total mr mt = (kr ≡ kt) × (ar ≡ aux_total) × (mr < mt)
Counted ready kr kt ar aux_total mr mt = (kr ≡ kt) × (ar ≡ aux_total) × (mr ≡ mt)
Counted output_ready kr kt ar aux_total mr mt = Unit

-- What is erased in a phase.
abbrev pub Erased : Phase → Signer → Type 0
Erased idle s = s ≡ initial
Erased collect_key s = Unit
Erased collect_aux s = Unit
Erased collect_msg s = Unit
Erased ready s = Unit
Erased output_ready s =
    (s.key_buf ≡ zeros sk_len) × (s.aux_buf ≡ zeros sig_len) × (s.msg_buf ≡ zeros msg_buf_len)

-- The buffers have their sizes, nothing beyond the declared sizes is counted, an idle session is the
-- initial one with its zeroed buffers, and the inputs are erased when the output is ready.
pub record IsValid (s : Signer) : Type 0 where
  pub key_sized : length s.key_buf ≡ sk_len
  pub aux_sized : length s.aux_buf ≡ sig_len
  pub msg_sized : length s.msg_buf ≡ msg_buf_len
  pub out_sized : length s.out_buf ≡ out_buf_len
  pub key_within : s.session.key_total ≤ sk_len
  pub aux_within : s.session.aux_total ≤ sig_len
  pub msg_within : s.session.msg_total ≤ msg_buf_len
  pub out_within : s.session.out_total ≤ out_buf_len
  pub key_counted : s.session.key_recv ≤ s.session.key_total
  pub aux_counted : s.session.aux_recv ≤ s.session.aux_total
  pub msg_counted : s.session.msg_recv ≤ s.session.msg_total
  pub progress :
      Counted s.session.phase s.session.key_recv s.session.key_total s.session.aux_recv
        s.session.aux_total s.session.msg_recv s.session.msg_total
  pub erased : Erased s.session.phase s

pub initial-IsValid : IsValid initial
initial-IsValid = record {
  key_sized = length-zeros sk_len;
  aux_sized = length-zeros sig_len;
  msg_sized = length-zeros msg_buf_len;
  out_sized = length-zeros out_buf_len;
  key_within = omega arith;
  aux_within = omega arith;
  msg_within = omega arith;
  out_within = omega arith;
  key_counted = omega arith;
  aux_counted = omega arith;
  msg_counted = omega arith;
  progress = tt;
  erased = refl;
}

after_aux-Counted :
    (kr kt ar aux_total mt : ℕ)
    → kr ≡ kt
    → ar ≡ aux_total
    → Counted (after_aux mt) kr kt ar aux_total 0 mt
after_aux-Counted kr kt ar aux_total mt k a = elim (Bool-cases (ltb 0 mt)) [
  | inl y ↦ rw y (k, a, ground arith)
  | inr n ↦ rw n (k, a, ground arith)
]

after_key-Counted :
    (kr kt aux_total mt : ℕ) → kr ≡ kt → Counted (after_key aux_total mt) kr kt 0 aux_total 0 mt
after_key-Counted kr kt aux_total mt k = elim (Bool-cases (ltb 0 aux_total)) [
  | inl y ↦ rw y (k, ground arith, refl)
  | inr n ↦ rw n (after_aux-Counted kr kt 0 aux_total mt k (ground arith))
]

first_phase-Counted : (key aux msg : ℕ) → Counted (first_phase key aux msg) 0 key 0 aux 0 msg
first_phase-Counted key aux msg = elim (Bool-cases (ltb 0 key)) [
  | inl y ↦ rw y (ground arith, refl, refl)
  | inr n ↦ rw n (after_key-Counted 0 key aux msg (ground arith))
]

after_aux-Erased : (mt : ℕ) (s : Signer) → Erased (after_aux mt) s
after_aux-Erased mt s = elim (Bool-cases (ltb 0 mt)) [ inl y ↦ rw y tt | inr n ↦ rw n tt ]

after_key-Erased : (aux_total mt : ℕ) (s : Signer) → Erased (after_key aux_total mt) s
after_key-Erased aux_total mt s = elim (Bool-cases (ltb 0 aux_total)) [
  | inl y ↦ rw y tt
  | inr n ↦ rw n (after_aux-Erased mt s)
]

first_phase-Erased : (key aux msg : ℕ) (s : Signer) → Erased (first_phase key aux msg) s
first_phase-Erased key aux msg s = elim (Bool-cases (ltb 0 key)) [
  | inl y ↦ rw y tt
  | inr n ↦ rw n (after_key-Erased aux msg s)
]

too_large-within :
    (op : Op) (key aux msg : ℕ)
    → too_large op key aux msg ≡ false
    → (key ≤ sk_len) × (aux ≤ sig_len) × (msg ≤ msg_buf_len)
unfolding too_large
too_large-within keygen key aux msg h = ground arith
too_large-within sign key aux msg h = ground arith
too_large-within verify key aux msg h = ground arith

begun-IsValid :
    (op : Op) (key aux msg : ℕ) → too_large op key aux msg ≡ false → IsValid (begun op key aux msg)
begun-IsValid op key aux msg h =
    let (k, a, m) = too_large-within op key aux msg h in
    record {
      key_sized = length-zeros sk_len;
      aux_sized = length-zeros sig_len;
      msg_sized = length-zeros msg_buf_len;
      out_sized = length-zeros out_buf_len;
      key_within = k;
      aux_within = a;
      msg_within = m;
      out_within = omega arith;
      key_counted = omega arith;
      aux_counted = omega arith;
      msg_counted = omega arith;
      progress = first_phase-Counted key aux msg;
      erased = first_phase-Erased key aux msg (begun op key aux msg);
    }

begin_op-IsValid :
    (op : Option Op) (req : SignPayload) (s : Signer) → IsValid s → IsValid (begin_op op req s).1
unfolding begin_op
begin_op-IsValid none req s v = v
begin_op-IsValid (some op) req s v =
    ground
      (arith, begun-IsValid op (field req.bytes 0 4) (field req.bytes 4 4) (field req.bytes 8 4))

pub handle_begin-IsValid :
    (req : SignPayload) (s : Signer) → IsValid s → IsValid (handle_begin req s).1
unfolding handle_begin
handle_begin-IsValid req s v = elim (Bool-cases (is_idle s.session.phase)) [
  | inl y ↦ rw y (begin_op-IsValid (decode_op req.op) req s v)
  | inr n ↦ rw n v
]

-- The phase after a chunk.
key_stored-Counted :
    (kt ar aux_total mr mt end : ℕ)
    → end ≤ kt
    → ar ≡ 0
    → mr ≡ 0
    → Counted (if leb kt end then after_key aux_total mt else collect_key) end kt ar aux_total mr mt
key_stored-Counted kt ar aux_total mr mt end fits a m = elim (Bool-cases (leb kt end)) [
  | inl y ↦ rw (y, a, m) (after_key-Counted end kt aux_total mt (ground arith))
  | inr n ↦ rw n (ground arith, a, m)
]

aux_stored-Counted :
    (kr kt aux_total mr mt end : ℕ)
    → end ≤ aux_total
    → kr ≡ kt
    → mr ≡ 0
    → Counted (if leb aux_total end then after_aux mt else collect_aux) kr kt end aux_total mr mt
aux_stored-Counted kr kt aux_total mr mt end fits k m = elim (Bool-cases (leb aux_total end)) [
  | inl y ↦ rw (y, m) (after_aux-Counted kr kt end aux_total mt k (ground arith))
  | inr n ↦ rw n (k, ground arith, m)
]

msg_stored-Counted :
    (kr kt ar aux_total mt end : ℕ)
    → end ≤ mt
    → kr ≡ kt
    → ar ≡ aux_total
    → Counted (if leb mt end then ready else collect_msg) kr kt ar aux_total end mt
msg_stored-Counted kr kt ar aux_total mt end fits k a = elim (Bool-cases (leb mt end)) [
  | inl y ↦ rw y (k, a, ground arith)
  | inr n ↦ rw n (k, a, ground arith)
]

if-Erased :
    (b : Bool) (p q : Phase) (s : Signer) → Erased p s → Erased q s → Erased (if b then p else q) s
if-Erased true p q s e f = e
if-Erased false p q s e f = f

in_chunk-IsValid :
    (phase : Phase) (offset : ℕ) (chunk : List ℕ) (s : Signer)
    → s.session.phase ≡ phase
    → IsValid s
    → IsValid (in_chunk phase offset chunk s).1
unfolding in_chunk
in_chunk-IsValid idle offset chunk s at v = v
in_chunk-IsValid ready offset chunk s at v = v
in_chunk-IsValid output_ready offset chunk s at v = v
in_chunk-IsValid collect_key offset chunk s at v =
    elim (Bool-cases
      (ltb sk_len (offset + length chunk) || ltb s.session.key_total (offset + length chunk))) [
        | inl over ↦ rw over v
        | inr fits ↦ rw fits (record {
          key_sized = ground (arith, length-write_at offset chunk s.key_buf, v.key_sized);
          aux_sized = v.aux_sized;
          msg_sized = v.msg_sized;
          out_sized = v.out_sized;
          key_within = v.key_within;
          aux_within = v.aux_within;
          msg_within = v.msg_within;
          out_within = v.out_within;
          key_counted = ground arith;
          aux_counted = v.aux_counted;
          msg_counted = v.msg_counted;
          progress = rw at (
              key_stored-Counted s.session.key_total s.session.aux_recv s.session.aux_total
                s.session.msg_recv s.session.msg_total (offset + length chunk) (ground arith)
                (rw at at v.progress).1 (rw at at v.progress).2);
          erased = rw at (
              if-Erased (leb s.session.key_total (offset + length chunk))
                (after_key s.session.aux_total s.session.msg_total) collect_key _
                (after_key-Erased s.session.aux_total s.session.msg_total _) tt);
        })
      ]
in_chunk-IsValid collect_aux offset chunk s at v =
    elim (Bool-cases
      (ltb sig_len (offset + length chunk) || ltb s.session.aux_total (offset + length chunk))) [
        | inl over ↦ rw over v
        | inr fits ↦ rw fits (record {
          key_sized = v.key_sized;
          aux_sized = ground (arith, length-write_at offset chunk s.aux_buf, v.aux_sized);
          msg_sized = v.msg_sized;
          out_sized = v.out_sized;
          key_within = v.key_within;
          aux_within = v.aux_within;
          msg_within = v.msg_within;
          out_within = v.out_within;
          key_counted = v.key_counted;
          aux_counted = ground arith;
          msg_counted = v.msg_counted;
          progress = rw at (
              aux_stored-Counted s.session.key_recv s.session.key_total s.session.aux_total
                s.session.msg_recv s.session.msg_total (offset + length chunk) (ground arith)
                (rw at at v.progress).0 (rw at at v.progress).2);
          erased = rw at (
              if-Erased (leb s.session.aux_total (offset + length chunk))
                (after_aux s.session.msg_total) collect_aux _
                (after_aux-Erased s.session.msg_total _) tt);
        })
      ]
in_chunk-IsValid collect_msg offset chunk s at v =
    elim (Bool-cases (
      ltb msg_buf_len (offset + length chunk) || ltb s.session.msg_total (offset + length chunk))) [
        | inl over ↦ rw over v
        | inr fits ↦ rw fits (record {
          key_sized = v.key_sized;
          aux_sized = v.aux_sized;
          msg_sized = ground (arith, length-write_at offset chunk s.msg_buf, v.msg_sized);
          out_sized = v.out_sized;
          key_within = v.key_within;
          aux_within = v.aux_within;
          msg_within = v.msg_within;
          out_within = v.out_within;
          key_counted = v.key_counted;
          aux_counted = v.aux_counted;
          msg_counted = ground arith;
          progress = rw at (
              msg_stored-Counted s.session.key_recv s.session.key_total s.session.aux_recv
                s.session.aux_total s.session.msg_total (offset + length chunk) (ground arith)
                (rw at at v.progress).0 (rw at at v.progress).1);
          erased = rw at (
              if-Erased (leb s.session.msg_total (offset + length chunk)) (ready) collect_msg _ tt
                tt);
        })
      ]

pub handle_in_chunk-IsValid :
    (req : SignPayload) (s : Signer) → IsValid s → IsValid (handle_in_chunk req s).1
unfolding handle_in_chunk
handle_in_chunk-IsValid req s v = elim (Bool-cases (ltb chunk_size req.chunk_len)) [
  | inl y ↦ rw y v
  | inr n ↦
      rw n (in_chunk-IsValid s.session.phase req.offset (take req.chunk_len req.bytes) s refl v)
]
