-- ===== src/Ipc/Payload.antt =====
-- src/ipc.rs: the typed views of a payload of 256 bytes, which are `repr(C)` structs that the
-- services read from it and write to it.
pub mod Laws
use iso_light_k.Common.{ℕ, ◌-◌, List, [], ◌∷◌, ◌++◌, take, drop, length, replicate}
use iso_light_k.Common.Bytes.{field, to_le_bytes}

abbrev pub crypto_data_offset : ℕ
crypto_data_offset = 88

abbrev pub crypto_data_len : ℕ
crypto_data_len = 168

pub data CryptoAlgo : Type 0 where
  aes128_gcm aes256_gcm chacha20_poly hmac_sha256 blake3 sha3_256 sha3_512 hkdf_sha256 : CryptoAlgo
  ed25519_sign ed25519_verify ed448_sign ed448_verify x448_dh : CryptoAlgo

-- The reserved fields, which no code reads, are left out.
pub record CryptoPayload : Type 0 where
  pub algo : ℕ
  pub key_len : ℕ
  pub nonce_len : ℕ
  pub flags : ℕ
  pub data_len : ℕ
  pub key : List ℕ
  pub nonce : List ℕ
  pub bytes : List ℕ

unfoldable pub read_crypto_payload : List ℕ → CryptoPayload
read_crypto_payload raw = record {
  algo = field raw 0 1;
  key_len = field raw 1 1;
  nonce_len = field raw 2 1;
  flags = field raw 3 1;
  data_len = field raw 4 2;
  key = take 64 (drop 8 raw);
  nonce = take 12 (drop 72 raw);
  bytes = take 168 (drop 88 raw);
}

pub record SignPayload : Type 0 where
  pub phase : ℕ
  pub op : ℕ
  pub variant : ℕ
  pub result : ℕ
  pub offset : ℕ
  pub total : ℕ
  pub chunk_len : ℕ
  pub bytes : List ℕ

unfoldable pub read_sign_payload : List ℕ → SignPayload
read_sign_payload raw = record {
  phase = field raw 0 1;
  op = field raw 1 1;
  variant = field raw 2 1;
  result = field raw 3 1;
  offset = field raw 4 4;
  total = field raw 8 4;
  chunk_len = field raw 12 2;
  bytes = take 240 (drop 16 raw);
}

abbrev pub zeroed : SignPayload
zeroed = record {
  phase = 0;
  op = 0;
  variant = 0;
  result = 0;
  offset = 0;
  total = 0;
  chunk_len = 0;
  bytes = replicate 240 0;
}

unfoldable pub write_sign_payload : SignPayload → List ℕ
write_sign_payload p =
    to_le_bytes 1 p.phase
    ++ to_le_bytes 1 p.op
    ++ to_le_bytes 1 p.variant
    ++ to_le_bytes 1 p.result
    ++ to_le_bytes 4 p.offset
    ++ to_le_bytes 4 p.total
    ++ to_le_bytes 2 p.chunk_len
    ++ 0 ∷ 0 ∷ p.bytes
