-- ===== src/Primitives/Plain.antt =====
-- Packages that can be computed with, for runs: a cipher that leaves its text as it is, and a generator
-- that always draws the same. They have the behaviour that the interfaces ask for.
use iso_light_k.Common.{
  ℕ, ◌≡◌, ◌≢◌, refl, sym, ap, Option, some, Result, List, length, replicate, ok, arith,
}
use iso_light_k.Capability.{CapError}
use iso_light_k.Primitives.{Aead, Random}

abbrev pub plain_tag : List ℕ
plain_tag = replicate 16 9

pub plain_sizes :
    (text cipher tag : List ℕ)
    → Path (Option (List ℕ × List ℕ)) (some (text, plain_tag)) (some (cipher, tag))
    → (length cipher ≡ length text) × (length tag ≡ 16)
plain_sizes text cipher tag h =
    let e : text ≡ cipher = cc in
    let t : plain_tag ≡ tag = cc in (ap length (sym e), ap length (sym t))

pub plain_opens :
    (text cipher tag : List ℕ)
    → Path (Option (List ℕ × List ℕ)) (some (text, plain_tag)) (some (cipher, tag))
    → some cipher ≡ some text
plain_opens text cipher tag h = let e : text ≡ cipher = cc in ap some (sym e)

abbrev pub plain_cipher : Aead
plain_cipher = record {
  aes_seal = λ key nonce aad text. (text, plain_tag);
  aes_open = λ key nonce aad text tag. some text;
  chacha_seal = λ key nonce aad text. some (text, plain_tag);
  chacha_open = λ key nonce aad text tag. some text;
  aes_sizes = λ key nonce aad text. (refl, refl);
  chacha_sizes = λ key nonce aad text cipher tag h. plain_sizes text cipher tag h;
  aes_opens = λ key nonce aad text. refl;
  chacha_opens = λ key nonce aad text cipher tag h. plain_opens text cipher tag h;
}

pub one_ne_zero : (t : ℕ) → Path (Result CapError ℕ) (ok 1) (ok t) → t ≢ 0
one_ne_zero t h z = absurd (ground arith)

abbrev pub constant_random : Random
constant_random = record {
  World = Unit;
  rand_bytes = λ n w. (ok (replicate n 1), w);
  gen_token_u64 = λ w. (ok 1, w);
  token-ne-zero = λ w t h. one_ne_zero t h;
}
