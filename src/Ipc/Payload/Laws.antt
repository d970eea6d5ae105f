-- ===== src/Ipc/Payload/Laws.antt =====
-- The typed payloads of src/ipc.rs against the bytes that stand for them.
use iso_light_k.Common.{ℕ, ◌<◌, ◌^◌, ◌≡◌, length, arith}
use iso_light_k.Common.Bytes.{
  little_endian, to_le_bytes, little_endian-to_le_bytes_two, little_endian-to_le_bytes_four,
}
use iso_light_k.Common.Slices.{take_whole}
use iso_light_k.Ipc.Payload.{SignPayload, read_sign_payload, write_sign_payload}

-- The values that the fields of the struct can hold.
pub record IsPayload (p : SignPayload) : Type 0 where
  pub phase_u8 : p.phase < 256
  pub op_u8 : p.op < 256
  pub variant_u8 : p.variant < 256
  pub result_u8 : p.result < 256
  pub offset_u32 : p.offset < 2 ^ 32
  pub total_u32 : p.total < 2 ^ 32
  pub chunk_len_u16 : p.chunk_len < 2 ^ 16
  pub sized : length p.bytes ≡ 240

byte : (n : ℕ) → n < 256 → little_endian (to_le_bytes 1 n) ≡ n
unfolding little_endian to_le_bytes
byte n h = omega arith

pub read-write_sign_payload :
    (p : SignPayload) → IsPayload p → read_sign_payload (write_sign_payload p) ≡ p
unfolding read_sign_payload write_sign_payload little_endian to_le_bytes
read-write_sign_payload p h = λ i. record {
  phase = byte p.phase h.phase_u8 i;
  op = byte p.op h.op_u8 i;
  variant = byte p.variant h.variant_u8 i;
  result = byte p.result h.result_u8 i;
  offset = little_endian-to_le_bytes_four p.offset h.offset_u32 i;
  total = little_endian-to_le_bytes_four p.total h.total_u32 i;
  chunk_len = little_endian-to_le_bytes_two p.chunk_len h.chunk_len_u16 i;
  bytes = take_whole 240 p.bytes (omega (arith, h.sized)) i;
}
