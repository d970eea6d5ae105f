-- ===== src/Bus/Software.antt =====
-- src/bus.rs: `SoftwareBus`, a loop of 64 bytes, a hasher or a cipher, by its role.

pub mod Echo
pub mod Nonces
use iso_light_k.Common.{
  ℕ, zero, suc, ◌+◌, ◌-◌, ◌^◌, min, Bool, true, false, not, ltb, ◌==◌, if◌then◌else◌, Option, none,
  some, List, [], ◌∷◌, ◌++◌, length, take, drop, replicate, Result, ok, err,
}
use iso_light_k.Common.Bytes.{to_le_bytes, overwrite, write_at}
use iso_light_k.Primitives.{Crypto, Random}
use iso_light_k.Bus.{
  BusError, not_open, already_open, bad_init, buffer_too_small, internal, BusReady, all_zero,
}

abbrev pub sw_bus_buf : ℕ
sw_bus_buf = 64

abbrev pub gcm_nonce_size : ℕ
gcm_nonce_size = 12

abbrev pub gcm_tag_size : ℕ
gcm_tag_size = 16

abbrev pub blake3_out_len : ℕ
blake3_out_len = 32

pub data SoftHsmRole : Type 0 where
  echo blake3 aes_gcm : SoftHsmRole

pub record SoftHsmAesGcmState : Type 0 where
  pub key : List ℕ
  pub nonce_counter : ℕ

pub record SoftwareBus : Type 0 where
  pub ring : List ℕ
  pub write_len : ℕ
  pub read_pos : ℕ
  pub open_state : Bool
  pub role : SoftHsmRole
  pub aes_state : Option SoftHsmAesGcmState

abbrev pub new : SoftwareBus
new = record {
  ring = replicate sw_bus_buf 0;
  write_len = 0;
  read_pos = 0;
  open_state = false;
  role = echo;
  aes_state = none;
}

-- The role that an init blob asks for.
unfoldable pub role_of : List ℕ → Option SoftHsmRole
role_of [] = some echo
role_of (zero ∷ rest) = some echo
role_of (suc zero ∷ rest) = some blake3
role_of (suc (suc zero) ∷ rest) = some aes_gcm
role_of (suc (suc (suc n)) ∷ rest) = none

-- The bus after a successful `open`.
abbrev pub opened : SoftHsmRole → Option SoftHsmAesGcmState → SoftwareBus
opened role aes_state = record new { open_state = true; role = role; aes_state = aes_state }

unfoldable pub open_as :
    (rand : Random)
    → SoftHsmRole
    → SoftwareBus
    → rand.World
    → Result BusError (Unit {0}) × SoftwareBus × rand.World
open_as rand aes_gcm b w =
    let (key, w') = rand.rand_bytes 32 w in
    elim key [
      | err e ↦ (err internal, b, w')
      | ok bytes ↦ (ok tt, opened aes_gcm (some (record { key = bytes; nonce_counter = 0 })), w')
    ]
open_as rand echo b w = (ok tt, opened echo none, w)
open_as rand blake3 b w = (ok tt, opened blake3 none, w)

unfoldable pub open_bus :
    (rand : Random)
    → List ℕ
    → SoftwareBus
    → rand.World
    → Result BusError (Unit {0}) × SoftwareBus × rand.World
unfolding role_of open_as
open_bus rand init b w = if b.open_state then (err already_open, b, w) else elim (role_of init) [
  | none ↦ (err bad_init, b, w)
  | some role ↦ if all_zero (drop 1 init) then open_as rand role b w else (err bad_init, b, w)
]

-- The role and the cipher's state stay.
unfoldable pub close : SoftwareBus → Result BusError (Unit {0}) × SoftwareBus
close b =
    if b.open_state
    then (
      ok tt,
      record b { ring = replicate sw_bus_buf 0; write_len = 0; read_pos = 0; open_state = false },
    )
    else (err not_open, b)

-- Into a buffer of `room` bytes.
unfoldable pub read : ℕ → SoftwareBus → Result BusError (List ℕ) × SoftwareBus
read room b =
    if b.open_state
    then (let n = min (b.write_len - b.read_pos) room in
        (ok (take n (drop b.read_pos b.ring)), record b { read_pos = b.read_pos + n }))
    else (err not_open, b)

unfoldable pub write_echo : List ℕ → SoftwareBus → Result BusError ℕ × SoftwareBus
write_echo bytes b =
    if ltb (sw_bus_buf - b.write_len) (length bytes) then (err buffer_too_small, b) else (
      ok (length bytes),
      record b { ring = write_at b.write_len bytes b.ring; write_len = b.write_len + length bytes },
    )

unfoldable pub write_digest : Crypto → List ℕ → SoftwareBus → Result BusError ℕ × SoftwareBus
write_digest c bytes b = elim (c.blake3 bytes) [
  | none ↦ (err internal, b)
  | some digest ↦ (
    ok blake3_out_len,
    record b {
      ring = overwrite (take blake3_out_len digest) b.ring;
      write_len = blake3_out_len;
      read_pos = 0;
    },
  )
]

abbrev pub nonce_of : ℕ → List ℕ
nonce_of counter = to_le_bytes 8 counter ++ replicate 4 0

-- The cipher text goes to the ring before the nonce and the tag are put around it.
abbrev pub sealed_ring : Crypto → SoftHsmAesGcmState → List ℕ → List ℕ → List ℕ
sealed_ring c state bytes ring =
    let nonce = nonce_of state.nonce_counter in
    let (cipher, tag) = c.aes_gcm state.key nonce bytes in
    write_at (gcm_nonce_size + length bytes) tag
      (overwrite nonce (write_at gcm_nonce_size cipher ring))

unfoldable pub write_sealed : Crypto → List ℕ → SoftwareBus → Result BusError ℕ × SoftwareBus
write_sealed c bytes b = elim b.aes_state [
  | none ↦ (err internal, b)
  | some state ↦
      let total = length bytes + gcm_nonce_size + gcm_tag_size in
      if state.nonce_counter == 2 ^ 64 - 1
      then (err internal, b)
      else if ltb sw_bus_buf total
      then (err buffer_too_small, b)
      else let state' : SoftHsmAesGcmState = record state {
        nonce_counter = state.nonce_counter + 1;
      } in
        (
          ok total,
          record b {
            ring = sealed_ring c state' bytes b.ring;
            write_len = total;
            read_pos = 0;
            aes_state = some state';
          },
        )
]

unfoldable pub write_as :
    Crypto → SoftHsmRole → List ℕ → SoftwareBus → Result BusError ℕ × SoftwareBus
unfolding write_echo write_digest write_sealed
write_as c echo bytes b = write_echo bytes b
write_as c blake3 bytes b = write_digest c bytes b
write_as c aes_gcm bytes b = write_sealed c bytes b

unfoldable pub write : Crypto → List ℕ → SoftwareBus → Result BusError ℕ × SoftwareBus
unfolding write_as
write c bytes b = if b.open_state then write_as c b.role bytes b else (err not_open, b)

unfoldable pub poll : SoftwareBus → Result BusError BusReady
poll b =
    if b.open_state
    then ok (record {
      readable = ltb b.read_pos b.write_len;
      writable = ltb b.write_len sw_bus_buf;
      closed = false;
    })
    else err not_open

-- `zeroize` leaves what `new` gives.
unfoldable pub zeroize : SoftwareBus → SoftwareBus
zeroize b = record b {
  aes_state = none;
  role = echo;
  ring = replicate sw_bus_buf 0;
  write_len = 0;
  read_pos = 0;
  open_state = false;
}
