-- ===== src/Wire/Laws.antt =====
-- The headers of src/bus.rs against the bytes that stand for them.
use iso_light_k.Common.{
  ℕ, ◌+◌, ◌<◌, ◌^◌, ◌≡◌, refl, sym, ap, ◌∙◌, ◌⊎◌, inl, inr, List, [], ◌∷◌, ◌++◌, length, take, drop,
  length-append, take-length-append, append_empty, bit_or, arith,
}
use iso_light_k.Common.Bytes.{
  little_endian, to_le_bytes, little_endian-to_le_bytes_two, little_endian-to_le_bytes_four,
  length-to_le_bytes,
}
use iso_light_k.Wire.{
  WireFrameHeader, WireCmd, ping, blake3_hash, attest_submit, status_request, error, WireStatus,
  success, bad_frame, unknown_cmd, denied, internal, wire_magic, wire_cmd_response_bit,
  wire_version, cmd_code, status_code, parse_header, write_header, response_header, error_header,
  build_response_frame, build_error_frame_inplace,
}

-- The values that the fields of the struct can hold.
pub record IsHeader (h : WireFrameHeader) : Type 0 where
  pub magic_four : length h.magic ≡ 4
  pub version_u16 : h.version < 2 ^ 16
  pub cmd_u16 : h.cmd < 2 ^ 16
  pub req_id_u32 : h.req_id < 2 ^ 32
  pub payload_len_u16 : h.payload_len < 2 ^ 16
  pub status_u16 : h.status < 2 ^ 16

parse-write_header_append :
    (m : List ℕ) (h : WireFrameHeader) (rest : List ℕ)
    → IsHeader (record h { magic = m })
    → parse_header (write_header (record h { magic = m }) ++ rest) ≡ record h { magic = m }
unfolding parse_header write_header little_endian to_le_bytes
parse-write_header_append (a ∷ b ∷ c ∷ d ∷ []) h rest v = λ i. record {
  magic = a ∷ b ∷ c ∷ d ∷ [];
  version = little_endian-to_le_bytes_two h.version v.version_u16 i;
  cmd = little_endian-to_le_bytes_two h.cmd v.cmd_u16 i;
  req_id = little_endian-to_le_bytes_four h.req_id v.req_id_u32 i;
  payload_len = little_endian-to_le_bytes_two h.payload_len v.payload_len_u16 i;
  status = little_endian-to_le_bytes_two h.status v.status_u16 i;
}
parse-write_header_append [] h rest v = absurd (omega (arith, v.magic_four))
parse-write_header_append (a ∷ []) h rest v = absurd (omega (arith, v.magic_four))
parse-write_header_append (a ∷ b ∷ []) h rest v = absurd (omega (arith, v.magic_four))
parse-write_header_append (a ∷ b ∷ c ∷ []) h rest v = absurd (omega (arith, v.magic_four))
parse-write_header_append (a ∷ b ∷ c ∷ d ∷ e ∷ m) h rest v = absurd (omega (arith, v.magic_four))

-- A header whose fields are in range is written as 16 bytes, from which it is read back.
pub parse_header-write_header :
    (h : WireFrameHeader)
    → IsHeader h
    → (length (write_header h) ≡ 16) × (parse_header (write_header h) ≡ h)
unfolding write_header
parse_header-write_header h v = (
  grind (arith, v.magic_four, length-append, length-to_le_bytes),
  rw (append_empty (write_header h)) at (parse-write_header_append h.magic h [] v),
)

status_u16 : (s : WireStatus) → status_code s < 2 ^ 16
status_u16 success = omega arith
status_u16 bad_frame = omega arith
status_u16 unknown_cmd = omega arith
status_u16 denied = omega arith
status_u16 internal = omega arith

response_header-IsHeader :
    (req_id : ℕ) (cmd : WireCmd) (s : WireStatus) (payload : List ℕ)
    → req_id < 2 ^ 32
    → IsHeader (response_header req_id cmd s payload)
response_header-IsHeader req_id cmd s payload h = record {
  magic_four = refl;
  version_u16 = omega arith;
  cmd_u16 = small cmd;
  req_id_u32 = h;
  payload_len_u16 = omega arith;
  status_u16 = status_u16 s;
}
  where
    small : (c : WireCmd) → bit_or (cmd_code c) wire_cmd_response_bit < 2 ^ 16
    small ping = omega arith
    small blake3_hash = omega arith
    small attest_submit = omega arith
    small status_request = omega arith
    small error = omega arith

-- A response, read from the front of the buffer.
pub build_response_frame_lem :
    (req_id : ℕ) (cmd : WireCmd) (s : WireStatus) (payload out : List ℕ)
    → req_id < 2 ^ 32
    → let frame = build_response_frame req_id cmd s payload out in
      (parse_header (frame.1) ≡ response_header req_id cmd s payload)
      × (frame.0 ≡ 16 + length payload)
      × (take (length payload) (drop 16 frame.1) ≡ payload)
unfolding build_response_frame parse_header to_le_bytes write_header
build_response_frame_lem req_id cmd s payload out h = (
  parse-write_header_append wire_magic (response_header req_id cmd s payload)
      (payload ++ drop (16 + length payload) out) (response_header-IsHeader req_id cmd s payload h),
  refl,
  take-length-append payload _,
)

error_header-IsHeader :
    (req_id : ℕ) (s : WireStatus) → req_id < 2 ^ 32 → IsHeader (error_header req_id s)
error_header-IsHeader req_id s h = record {
  magic_four = refl;
  version_u16 = omega arith;
  cmd_u16 = omega arith;
  req_id_u32 = h;
  payload_len_u16 = omega arith;
  status_u16 = status_u16 s;
}

-- An error, read from the front of the buffer.
pub build_error_frame_lem :
    (req_id : ℕ) (s : WireStatus) (out : List ℕ)
    → req_id < 2 ^ 32
    → parse_header (build_error_frame_inplace req_id s out).1 ≡ error_header req_id s
unfolding build_error_frame_inplace parse_header to_le_bytes write_header
build_error_frame_lem req_id s out h =
    parse-write_header_append wire_magic (error_header req_id s) (drop 16 out)
      (error_header-IsHeader req_id s h)

-- A frame whose header answers a request, with its length, which is not 0 and fits a u16.
pub record IsReply (request : WireFrameHeader) (frame : ℕ × List ℕ) : Type 0 where
  pub magic_is : (parse_header frame.1).magic ≡ wire_magic
  pub version_is : (parse_header frame.1).version ≡ wire_version
  pub req_id_is : (parse_header frame.1).req_id ≡ request.req_id
  pub cmd_is :
      ((parse_header frame.1).cmd ≡ bit_or request.cmd wire_cmd_response_bit)
      ⊎ ((parse_header frame.1).cmd ≡ cmd_code error)
  pub size_is : frame.0 ≡ 16 + (parse_header frame.1).payload_len
  pub size_u16 : frame.0 < 2 ^ 16

pub build_response_frame-IsReply :
    (request : WireFrameHeader) (cmd : WireCmd) (s : WireStatus) (payload out : List ℕ)
    → request.req_id < 2 ^ 32
    → 16 + length payload < 2 ^ 16
    → request.cmd ≡ cmd_code cmd
    → IsReply request (build_response_frame request.req_id cmd s payload out)
build_response_frame-IsReply request cmd s payload out h fits e =
    let (read, size, _) = build_response_frame_lem request.req_id cmd s payload out h in
    record {
      magic_is = ap WireFrameHeader.magic read;
      version_is = ap WireFrameHeader.version read;
      req_id_is = ap WireFrameHeader.req_id read;
      cmd_is =
          inl
            (ap WireFrameHeader.cmd read ∙ sym (ap (λ (t : ℕ). bit_or t wire_cmd_response_bit) e));
      size_is = omega (arith, size, fits, ap WireFrameHeader.payload_len read);
      size_u16 = omega (arith, size, fits);
    }

pub build_error_frame-IsReply :
    (request : WireFrameHeader) (s : WireStatus) (out : List ℕ)
    → request.req_id < 2 ^ 32
    → IsReply request (build_error_frame_inplace request.req_id s out)
build_error_frame-IsReply request s out h =
    let read = build_error_frame_lem request.req_id s out h in
    let size : (build_error_frame_inplace request.req_id s out).0 ≡ 16 =
      unfold build_error_frame_inplace in refl in
    record {
      magic_is = ap WireFrameHeader.magic read;
      version_is = ap WireFrameHeader.version read;
      req_id_is = ap WireFrameHeader.req_id read;
      cmd_is = inr (ap WireFrameHeader.cmd read);
      size_is = omega (arith, size, ap WireFrameHeader.payload_len read);
      size_u16 = omega (arith, size);
    }
