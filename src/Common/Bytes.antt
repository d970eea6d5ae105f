-- ===== src/Common/Bytes.antt =====
-- Unsigned numbers as little-endian bytes, and reads and writes inside a buffer.
use Prim.Native.Nat.{ℕ, zero, suc, ◌+◌, ◌*◌, ◌/◌, ◌%◌, ◌^◌, ◌<◌}
use mathlib.Core.Path.{◌≡◌, refl, ap}
use mathlib.Core.List.{List, [], ◌∷◌, ◌++◌}
use native.Mathlib.Omega.{arith}
use iso_light_k.Common.Lists.{length, take, drop}

unfoldable pub little_endian : List ℕ → ℕ
little_endian [] = 0
little_endian (b ∷ bs) = b + 256 * little_endian bs

-- The lowest `size` bytes.
unfoldable pub to_le_bytes : ℕ → ℕ → List ℕ
to_le_bytes zero n = []
to_le_bytes (suc size) n = n % 256 ∷ to_le_bytes size (n / 256)

abbrev pub field : List ℕ → ℕ → ℕ → ℕ
field bytes offset size = little_endian (take size (drop offset bytes))

-- The buffer with its front replaced.
abbrev pub overwrite : List ℕ → List ℕ → List ℕ
overwrite front buffer = front ++ drop (length front) buffer

-- The buffer with the bytes from `offset` on replaced.
abbrev pub write_at : ℕ → List ℕ → List ℕ → List ℕ
write_at offset bytes buffer = take offset buffer ++ bytes ++ drop (offset + length bytes) buffer

pub length-to_le_bytes : (size n : ℕ) → length (to_le_bytes size n) ≡ size
unfolding to_le_bytes
length-to_le_bytes zero n = refl
length-to_le_bytes (suc size) n = ap suc (length-to_le_bytes size (n / 256))

pub little_endian-to_le_bytes_two : (n : ℕ) → n < 2 ^ 16 → little_endian (to_le_bytes 2 n) ≡ n
unfolding little_endian to_le_bytes
little_endian-to_le_bytes_two n h = omega arith

pub little_endian-to_le_bytes_four : (n : ℕ) → n < 2 ^ 32 → little_endian (to_le_bytes 4 n) ≡ n
unfolding little_endian to_le_bytes
little_endian-to_le_bytes_four n h = omega arith

pub little_endian-to_le_bytes :
    (size n : ℕ) → n < 256 ^ size → little_endian (to_le_bytes size n) ≡ n
unfolding little_endian to_le_bytes
little_endian-to_le_bytes zero n h = omega arith
little_endian-to_le_bytes (suc size) n h =
    omega (arith, little_endian-to_le_bytes size (n / 256) (omega arith))
