-- ===== src/Wire.antt =====
-- The frames of src/bus.rs: their header and the two kinds of response. A `[u8; 4096]` buffer is a
-- list of bytes that a builder returns with its front replaced.
pub mod Laws
use iso_light_k.Common.{ℕ, ◌+◌, ◌-◌, ◌%◌, ◌^◌, bit_or, List, [], ◌∷◌, ◌++◌, length, take, replicate}
use iso_light_k.Common.Bytes.{to_le_bytes, field, overwrite}

abbrev pub wire_frame_max : ℕ
wire_frame_max = 4096

abbrev pub wire_payload_max : ℕ
wire_payload_max = wire_frame_max - 16

abbrev pub wire_magic : List ℕ
wire_magic = 76 ∷ 87 ∷ 75 ∷ 48 ∷ []

abbrev pub wire_version : ℕ
wire_version = 1

abbrev pub wire_cmd_response_bit : ℕ
wire_cmd_response_bit = 32768

pub record WireFrameHeader : Type 0 where
  pub magic : List ℕ
  pub version : ℕ
  pub cmd : ℕ
  pub req_id : ℕ
  pub payload_len : ℕ
  pub status : ℕ

pub data WireCmd : Type 0 where
  ping blake3_hash attest_submit status_request error : WireCmd

pub data WireStatus : Type 0 where
  success bad_frame unknown_cmd denied internal : WireStatus

-- `cmd as u16`
abbrev pub cmd_code : WireCmd → ℕ
cmd_code ping = 1
cmd_code blake3_hash = 16
cmd_code attest_submit = 64
cmd_code status_request = 128
cmd_code error = 65535

-- `status as u16`
abbrev pub status_code : WireStatus → ℕ
status_code success = 0
status_code bad_frame = 1
status_code unknown_cmd = 2
status_code denied = 3
status_code internal = 4

unfoldable pub parse_header : List ℕ → WireFrameHeader
parse_header bytes = record {
  magic = take 4 bytes;
  version = field bytes 4 2;
  cmd = field bytes 6 2;
  req_id = field bytes 8 4;
  payload_len = field bytes 12 2;
  status = field bytes 14 2;
}

unfoldable pub write_header : WireFrameHeader → List ℕ
write_header h =
    h.magic
    ++ to_le_bytes 2 h.version
    ++ to_le_bytes 2 h.cmd
    ++ to_le_bytes 4 h.req_id
    ++ to_le_bytes 2 h.payload_len
    ++ to_le_bytes 2 h.status

abbrev pub response_header : ℕ → WireCmd → WireStatus → List ℕ → WireFrameHeader
response_header req_id cmd status payload = record {
  magic = wire_magic;
  version = wire_version;
  cmd = bit_or (cmd_code cmd) wire_cmd_response_bit;
  req_id = req_id;
  payload_len = length payload % 2 ^ 16;
  status = status_code status;
}

abbrev pub error_header : ℕ → WireStatus → WireFrameHeader
error_header req_id status = record {
  magic = wire_magic;
  version = wire_version;
  cmd = cmd_code error;
  req_id = req_id;
  payload_len = 0;
  status = status_code status;
}

-- The length of the frame and the buffer with the frame at its front.
unfoldable pub build_response_frame : ℕ → WireCmd → WireStatus → List ℕ → List ℕ → ℕ × List ℕ
unfolding write_header
build_response_frame req_id cmd status payload out = (
  16 + length payload,
  overwrite (write_header (response_header req_id cmd status payload) ++ payload) out,
)

unfoldable pub build_error_frame_inplace : ℕ → WireStatus → List ℕ → ℕ × List ℕ
unfolding write_header
build_error_frame_inplace req_id status out =
    (16, overwrite (write_header (error_header req_id status)) out)

unfoldable pub handle_ping : ℕ → List ℕ → ℕ × List ℕ
unfolding build_response_frame
handle_ping req_id out = build_response_frame req_id ping success [] out
