-- ===== src/Capability/Drbg/Laws.antt =====
-- Tokens are never 0, and the loops of the generator (src/capability.rs) return.
use iso_light_k.Common.{
  ℕ, suc, ◌≡◌, ◌≢◌, inl, inr, refl, ◌∙◌, true, Option-cases, Option, none, some, List, replicate,
  Result, ok, err, arith,
}
use iso_light_k.Common.Loop.{iterate, iterate_inv, step_cases, iterate_again, iterate_return}
use iso_light_k.Capability.{Capability, CapError, prng_not_initialized, is_valid_for}
use iso_light_k.Capability.Rights.{contains}
use iso_light_k.Capability.Laws.{is_valid_for_iff}
use iso_light_k.Capability.Drbg.{
  DrbgApi, reseed_required, Kernel, Round, after_reseed, rand_step, token_step, rand_bytes,
  gen_token_u64, generate_capability,
}

module _ (api : DrbgApi) (tag : List ℕ) where
  open api use {Drbg, Env, generate, reseed, fill_hw_entropy}

  -- A token that a loop returns is not 0.
  abbrev NonzeroToken : Result CapError ℕ → Type 0
  NonzeroToken (ok t) = t ≢ 0
  NonzeroToken (err e) = Unit {0}

  token_step-Nonzero :
      (s : Round api tag) (r : Result CapError ℕ × Round api tag)
      → token_step api tag s ≡ inr r
      → NonzeroToken r.0
  unfolding token_step after_reseed
  token_step-Nonzero s (err e, t) h = tt
  token_step-Nonzero s (ok token, t) h = ground arith

  -- Every token that `gen_token_u64` returns differs from 0, the value of an invalid token.
  pub gen_token_u64-ne-zero :
      (fuel : ℕ) (k k' : Kernel api tag) (t : ℕ)
      → gen_token_u64 api tag fuel k ≡ some (ok t, k')
      → t ≢ 0
  unfolding gen_token_u64
  gen_token_u64-ne-zero fuel k k' t h = go k.drbg refl
    where
      start : Drbg → Round api tag
      start d = record { buf = replicate 8 0; gen = d; env = k.env }

      loop :
          (d : Drbg) (r : Result CapError ℕ × Round api tag)
          → iterate (token_step api tag) fuel (start d) ≡ some r
          → NonzeroToken r.0
      loop d r e =
          iterate_inv (λ s. Unit {0}) (λ r. NonzeroToken r.0) (token_step api tag) (λ s u p q. tt)
            (λ s u p q. token_step-Nonzero s u q) fuel (start d) r tt e

      go : (o : Option Drbg) → k.drbg ≡ o → t ≢ 0
      go none e = absurd (no_token e h)
        where
          no_token : k.drbg ≡ none → gen_token_u64 api tag fuel k ≡ some (ok t, k') → ⊥
          no_token p q = ground arith
      go (some d) e = elim (Option-cases (iterate (token_step api tag) fuel (start d))) [
        | inl stuck ↦ absurd (ground arith)
        | inr (r, found) ↦
            let nz = loop d r found in let same : r.0 ≡ ok t = ground arith in rw same at nz
      ]

  -- A capability that `generate_capability` issues is accepted for the endpoint it was asked for,
  -- with any rights among those it was asked for.
  pub generate_capability_valid :
      (fuel ep rights req : ℕ) (k k' : Kernel api tag) (c : Capability)
      → contains rights req ≡ true
      → generate_capability api tag fuel ep rights k ≡ some (ok c, k')
      → is_valid_for c ep req ≡ true
  unfolding generate_capability
  generate_capability_valid fuel ep rights req k k' c sub h =
      ground (arith, gen_token_u64-ne-zero fuel k k' c.token, is_valid_for_iff c ep req)

  -- Before `init_prng` every request is refused, and the state is unchanged.
  pub prng_required :
      (fuel ep rights : ℕ) (buf : List ℕ) (k : Kernel api tag)
      → k.drbg ≡ none
      → (gen_token_u64 api tag fuel k ≡ some (err prng_not_initialized, k))
        × (rand_bytes api tag fuel buf k ≡ some (err prng_not_initialized, buf, k))
        × (generate_capability api tag fuel ep rights k ≡ some (err prng_not_initialized, k))
  unfolding gen_token_u64 rand_bytes generate_capability
  prng_required fuel ep rights buf k h = (ground arith, ground arith, ground arith)

  again_asked :
      (s t : Round api tag)
      → rand_step api tag s ≡ inl t
      → (generate s.buf s.gen).0 ≡ reseed_required
  unfolding rand_step after_reseed
  again_asked s t p = ground arith

  again_reseeded :
      (s t : Round api tag)
      → rand_step api tag s ≡ inl t
      → (seed : List ℕ) × (d : Drbg) × ((reseed seed d).0 ≡ true) × (t.gen ≡ (reseed seed d).1)
  unfolding rand_step after_reseed
  again_reseeded s t p = go (fill_hw_entropy 32 s.env).0 refl
    where
      d : Drbg
      d = (generate s.buf s.gen).2

      go :
          (r : Result CapError (List ℕ))
          → (fill_hw_entropy 32 s.env).0 ≡ r
          → (seed : List ℕ) × (d : Drbg) × ((reseed seed d).0 ≡ true) × (t.gen ≡ (reseed seed d).1)
      go (err e) q = absurd (ground arith)
      go (ok seed) q = (seed, d, ground arith, ground arith)

  two_rounds :
      ((seed out : List ℕ) (d : Drbg)
        → (reseed seed d).0 ≡ true
        → (generate out (reseed seed d).1).0 ≢ reseed_required)
      → (s t u : Round api tag) → rand_step api tag s ≡ inl t
      → rand_step api tag t ≡ inl u
      → ⊥
  two_rounds fresh s t u p q =
      let (seed, d, good, gen) = again_reseeded s t p in
      let asked = again_asked t u q in fresh seed t.buf d good (rw gen at asked)

  -- Where a generator that was just reseeded does not ask for another reseed, `rand_bytes` returns
  -- within any number of rounds from two on.
  pub rand_bytes_total :
      ((seed out : List ℕ) (d : Drbg)
        → (reseed seed d).0 ≡ true
        → (generate out (reseed seed d).1).0 ≢ reseed_required)
      → (extra : ℕ) (buf : List ℕ) (k : Kernel api tag)
      → (r : Result CapError (Unit {0}) × List ℕ × Kernel api tag) × (rand_bytes api tag
            (suc (suc extra))
            buf
            k
          ≡ some r)
  unfolding rand_bytes
  rand_bytes_total fresh extra buf k = go k.drbg refl
    where
      start : Drbg → Round api tag
      start d = record { buf = buf; gen = d; env = k.env }

      returns :
          (s : Round api tag)
          → (r : Result CapError (Unit {0}) × Round api tag) × (iterate
                (rand_step api tag)
                (suc (suc extra))
                s
              ≡ some r)
      returns s = elim (step_cases (rand_step api tag) s) [
        | inr (r, e) ↦ (r, iterate_return (rand_step api tag) (suc extra) s r e)
        | inl (t, e) ↦ elim (step_cases (rand_step api tag) t) [
          | inl (u, e') ↦ absurd (two_rounds fresh s t u e e')
          | inr (r, e') ↦ (
            r,
            iterate_again (rand_step api tag) (suc extra) s t e
                ∙ iterate_return (rand_step api tag) extra t r e',
          )
        ]
      ]

      go :
          (o : Option Drbg)
          → k.drbg ≡ o
          → (r : Result CapError (Unit {0}) × List ℕ × Kernel api tag) × (rand_bytes api tag
                (suc (suc extra))
                buf
                k
              ≡ some r)
      go none e = ((err prng_not_initialized, buf, k), ground arith)
      go (some d) e =
          let ((r, s), found) = returns (start d) in
          ((r, s.buf, record { drbg = some s.gen; env = s.env }), ground arith)
