-- ===== src/Hsm/Setup.antt =====
-- A machine of two attached modules, and stand-ins for the packages, that the tests run on.
use iso_light_k.Common.{
  ℕ, suc, ◌≡◌, refl, true, some, none, List, [], ◌∷◌, length, replicate, Result, ok, ◌≢◌, arith,
}
use iso_light_k.Primitives.{Crypto, Random}
use iso_light_k.Common.Bytes.{little_endian}
use iso_light_k.Capability.{CapError}
use iso_light_k.Audit.{initial}
use iso_light_k.Ipc.Registry
use iso_light_k.Bus.{software, ring3_process}
use iso_light_k.Hsm.{Machine, HsmCapability, new_slot, hsm_max_slots}
use iso_light_k.Hsm.Rights.{of_attach}
use iso_light_k.Hsm.Registry.{attach}

abbrev pub toy_digest : List ℕ → List ℕ
toy_digest bytes = replicate 32 (length bytes)

pub length-toy_digest :
    (bytes digest : List ℕ) → some (toy_digest bytes) ≡ some digest → length digest ≡ 32
length-toy_digest bytes digest e = let same : toy_digest bytes ≡ digest = cc in rw (← same) refl

pub toy_token-ne-zero : (w t : ℕ) → ◌≡◌ {A = Result CapError ℕ} (ok (suc w)) (ok t) → t ≢ 0
toy_token-ne-zero w t e z = ground arith

abbrev pub crypto : Crypto
crypto = record {
  blake3 = λ bytes. some (toy_digest bytes);
  aes_gcm = λ key nonce plain. (plain, replicate 16 9);
  mldsa_verify = λ pk msg sig ctx. some true;
  length-blake3 = length-toy_digest;
  length-cipher = λ key nonce plain. refl;
  length-tag = λ key nonce plain. refl;
}

abbrev pub random : Random
random = record {
  World = ℕ;
  rand_bytes = λ n w. (ok (replicate n w), suc w);
  gen_token_u64 = λ w. (ok (suc w), suc w);
  token-ne-zero = toy_token-ne-zero;
}

abbrev pub booted : Machine ℕ
booted = record {
  slots = replicate hsm_max_slots new_slot;
  audit = initial;
  trust_root = [];
  boot_challenge = replicate 32 7;
  ipc = Registry.init Registry.empty;
  world = 4;
}

-- A hasher is attached to slot 0, and a process at endpoint 3 to slot 1.
abbrev pub hasher : HsmCapability
hasher = record { token = 5; slot = 0; rights = 31 }

abbrev pub one_attached : Machine ℕ
one_attached = (attach crypto random software (1 ∷ []) none of_attach booted).1

pub one_attached_lem :
    attach crypto random software (1 ∷ []) none of_attach booted ≡ (ok hasher, one_attached)
unfolding attach
one_attached_lem = refl

abbrev pub process : HsmCapability
process = record { token = 6; slot = 1; rights = 31 }

abbrev pub two_attached : Machine ℕ
two_attached = (attach crypto random ring3_process (3 ∷ 0 ∷ []) none of_attach one_attached).1

pub two_attached_lem :
    attach crypto random ring3_process (3 ∷ 0 ∷ []) none of_attach one_attached
    ≡ (ok process, two_attached)
unfolding attach little_endian Registry.init
two_attached_lem = refl
