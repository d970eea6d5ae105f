-- ===== src/Capability/Drbg.antt =====
-- src/capability.rs: the random generator behind the tokens, `rand_bytes` and `gen_token_u64`.
-- HashDRBGSHA256 is a package and the entropy comes from hardware: both are parameters. The static
-- CAP_DRBG is the field `drbg`.
pub mod Laws
pub mod Source
use iso_light_k.Common.{
  ℕ, zero, suc, ◌+◌, ◌*◌, ◌==◌, ◌≡◌, ◌≢◌, ◌⊎◌, inl, inr, refl, Bool, true, false, if◌then◌else◌,
  Option, none, some, List, [], ◌∷◌, length, replicate, Result, ok, err, arith,
}
use iso_light_k.Common.Loop.{iterate}
use iso_light_k.Capability.{
  Capability, CapError, prng_not_initialized, no_entropy, drbg_init, is_valid_for,
}

-- The result of one `generate` call.
pub data Generated : Type 0 where
  done reseed_required failed : Generated

-- What the generator is built on. `generate` fills a buffer of the given bytes; `fill_hw_entropy`
-- is the entropy source, which may fail.
pub record DrbgApi : Type 1 where
  pub Drbg : Type 0
  pub Env : Type 0
  pub new_from_entropy : List ℕ → List ℕ → List ℕ → Option Drbg
  pub generate : List ℕ → Drbg → Generated × List ℕ × Drbg
  pub reseed : List ℕ → Drbg → Bool × Drbg
  pub fill_hw_entropy : ℕ → Env → Result CapError (List ℕ) × Env

abbrev pub entropy_len : ℕ
entropy_len = 32

abbrev pub nonce_len : ℕ
nonce_len = 16

-- `u64::from_be_bytes`
abbrev pub from_be_bytes : ℕ → List ℕ → ℕ
from_be_bytes acc [] = acc
from_be_bytes acc (b ∷ bs) = from_be_bytes (acc * 256 + b) bs

module _ (api : DrbgApi) (personalization_tag : List ℕ) where
  open api use {Drbg, Env, new_from_entropy, generate, reseed, fill_hw_entropy}

  pub record Kernel : Type 0 where
    pub drbg : Option Drbg
    pub env : Env

  -- `init_prng`: two separate collections, and the generator is stored only if all succeed.
  unfoldable pub init_prng : Kernel → Result CapError (Unit {0}) × Kernel
  init_prng k =
      let (entropy, env₁) = fill_hw_entropy entropy_len k.env in
      elim entropy [
        | err e ↦ (err e, record k { env = env₁ })
        | ok seed ↦
            let (nonce, env₂) = fill_hw_entropy nonce_len env₁ in
            elim nonce [
              | err e ↦ (err e, record k { env = env₂ })
              | ok n ↦ elim (new_from_entropy seed n personalization_tag) [
                | none ↦ (err drbg_init, record k { env = env₂ })
                | some d ↦ (ok tt, record { drbg = some d; env = env₂ })
              ]
            ]
      ]

  -- `reseed_drbg`
  unfoldable pub reseed_drbg : Drbg → Env → Result CapError (Unit {0}) × Drbg × Env
  reseed_drbg d env =
      let (entropy, env') = fill_hw_entropy entropy_len env in
      elim entropy [
        | err e ↦ (err e, d, env')
        | ok seed ↦
            let (good, d') = reseed seed d in (if good then ok tt else err drbg_init, d', env')
      ]

  -- The variables of the two loops: the output buffer, the generator, the entropy source.
  pub record Round : Type 0 where
    pub buf : List ℕ
    pub gen : Drbg
    pub env : Env

  -- A round that asked for a reseed goes on after it, or returns its error.
  unfoldable pub after_reseed {ℓ} : {A : Type ℓ} → Round → Round ⊎ (Result CapError A × Round)
  unfolding reseed_drbg
  after_reseed s =
      let (r, d, env') = reseed_drbg s.gen s.env in
      elim r [
        | ok _ ↦ inl (record { buf = s.buf; gen = d; env = env' })
        | err e ↦ inr (err e, record { buf = s.buf; gen = d; env = env' })
      ]

  -- The body of the loop of `rand_bytes`; a failure zeroes the buffer.
  unfoldable pub rand_step : Round → Round ⊎ (Result CapError (Unit {0}) × Round)
  rand_step s =
      let (outcome, out, d) = generate s.buf s.gen in
      let s' : Round = record s { buf = out; gen = d } in
      elim outcome [
        | done ↦ inr (ok tt, s')
        | reseed_required ↦ after_reseed s'
        | failed ↦ inr (err drbg_init, record s' { buf = replicate (length out) 0 })
      ]

  -- The body of the loop of `gen_token_u64`; a token of 0 is drawn again.
  unfoldable pub token_step : Round → Round ⊎ (Result CapError ℕ × Round)
  token_step s =
      let (outcome, out, d) = generate s.buf s.gen in
      let s' : Round = record s { buf = out; gen = d } in
      let wiped : Round = record s' { buf = replicate (length out) 0 } in
      elim outcome [
        | done ↦
            let token = from_be_bytes 0 out in
            if token == 0 then inl wiped else inr (ok token, wiped)
        | reseed_required ↦ after_reseed s'
        | failed ↦ inr (err drbg_init, wiped)
      ]

  -- The generator and the entropy source after a loop.
  abbrev store : Round → Kernel
  store s = record { drbg = some s.gen; env = s.env }

  -- `none` is a loop that has not returned within the fuel.
  unfoldable pub rand_bytes :
      ℕ → List ℕ → Kernel → Option (Result CapError (Unit {0}) × List ℕ × Kernel)
  rand_bytes fuel buf k = elim k.drbg [
    | none ↦ some (err prng_not_initialized, buf, k)
    | some d ↦ elim (iterate rand_step fuel (record { buf = buf; gen = d; env = k.env })) [
      | none ↦ none
      | some (r, s) ↦ some (r, s.buf, store s)
    ]
  ]

  unfoldable pub gen_token_u64 : ℕ → Kernel → Option (Result CapError ℕ × Kernel)
  gen_token_u64 fuel k = elim k.drbg [
    | none ↦ some (err prng_not_initialized, k)
    | some d ↦
        elim (iterate token_step fuel (record { buf = replicate 8 0; gen = d; env = k.env })) [
          | none ↦ none
          | some (r, s) ↦ some (r, store s)
        ]
  ]

  unfoldable pub generate_capability :
      ℕ → ℕ → ℕ → Kernel → Option (Result CapError Capability × Kernel)
  generate_capability fuel endpoint_id rights k = elim (gen_token_u64 fuel k) [
    | none ↦ none
    | some (err e, k') ↦ some (err e, k')
    | some (ok token, k') ↦
        some (ok (record { token = token; endpoint_id = endpoint_id; rights = rights }), k')
  ]
