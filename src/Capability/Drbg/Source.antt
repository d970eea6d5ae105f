-- ===== src/Capability/Drbg/Source.antt =====
-- The generator of src/capability.rs as the source of random numbers that the other components call.
use iso_light_k.Common.{ℕ, ◌≡◌, ◌≢◌, ap, ◌∙◌, List, replicate, some, Result, ok, err}
use iso_light_k.Common.Partial.{Returns, Returns-result}
use iso_light_k.Capability.{CapError}
use iso_light_k.Capability.Drbg.{DrbgApi, Kernel, rand_bytes, gen_token_u64}
use iso_light_k.Capability.Drbg.Laws.{gen_token_u64-ne-zero}
use iso_light_k.Primitives.{Random}

-- The bytes of the buffer where the call succeeded.
abbrev filled :
    {K : Type 0} → Result CapError (Unit {0}) × List ℕ × K → Result CapError (List ℕ) × K
filled (ok _, buf, k) = (ok buf, k)
filled (err e, buf, k) = (err e, k)

-- Where both loops return within the fuel, from every state.
module _ (api : DrbgApi) (tag : List ℕ) (fuel : ℕ)
    (bytes_return : (n : ℕ) (k : Kernel api tag)
      → Returns (rand_bytes api tag fuel (replicate n 0) k))
    (token_returns : (k : Kernel api tag) → Returns (gen_token_u64 api tag fuel k)) where
  abbrev bytes_of : ℕ → Kernel api tag → Result CapError (List ℕ) × Kernel api tag
  bytes_of n k =
      filled (Returns-result (rand_bytes api tag fuel (replicate n 0) k) (bytes_return n k)).0

  abbrev token_of : Kernel api tag → Result CapError ℕ × Kernel api tag
  token_of k = (Returns-result (gen_token_u64 api tag fuel k) (token_returns k)).0

  token_of-ne-zero : (k : Kernel api tag) (t : ℕ) → (token_of k).0 ≡ ok t → t ≢ 0
  token_of-ne-zero k t h =
      let at = (Returns-result (gen_token_u64 api tag fuel k) (token_returns k)).1 in
      gen_token_u64-ne-zero api tag fuel k (token_of k).1 t
        (at ∙ ap (λ r. some (r, (token_of k).1)) h)

  pub drbg_random : Random
  drbg_random = record {
    World = Kernel api tag;
    rand_bytes = bytes_of;
    gen_token_u64 = token_of;
    token-ne-zero = token_of-ne-zero;
  }
