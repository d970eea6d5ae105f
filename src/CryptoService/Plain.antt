-- ===== src/CryptoService/Plain.antt =====
-- Packages for the crypto service that can be computed with, for runs: they always give the same.
use iso_light_k.Common.{ℕ, ◌≡◌, refl, true, Option, none, some, List, length, replicate, arith}
use iso_light_k.CryptoService.{Packages}

pub no_secret : (ss : List ℕ) → Path (Option (List ℕ)) none (some ss) → length ss ≡ 56
no_secret ss h = absurd (ground arith)

abbrev pub packages : Packages
packages = record {
  sha256 = λ bytes. replicate 32 7;
  blake3_hash = λ bytes. some (replicate 32 7);
  sha3_256_hash = λ bytes. replicate 32 7;
  sha3_512_hash = λ bytes. replicate 64 7;
  ed25519_signature = λ sk msg. replicate 64 1;
  ed448_signature = λ sk msg. replicate 114 1;
  ed25519_is_signed = λ msg sig pk. true;
  ed448_is_signed = λ msg sig pk. true;
  x448_shared = λ sk pk. none;
  length-ed25519_signature = λ sk msg. refl;
  length-ed448_signature = λ sk msg. refl;
  length-x448_shared = λ sk pk ss h. no_secret ss h;
}
