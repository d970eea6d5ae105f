-- ===== src/Entropy/Quorum.antt =====
-- src/arch/common/entropy/quorum.rs: three sources, each under its health tests, mixed by BLAKE3 if
-- enough of them are live. The sources, the hash and the clock are parameters. The statics of the
-- file are the fields of `Sources`. The minimum is 2, as in a build without `entropy-degraded-ok`.
pub mod Live
pub mod Laws
use iso_light_k.Common.{
  ℕ, zero, suc, ◌+◌, ◌-◌, ◌*◌, ◌%◌, ◌^◌, min, Bool, true, false, ◌&&◌, ◌||◌, not, ltb, leb, ◌==◌,
  if◌then◌else◌, ◌⊎◌, inl, inr, Option, none, some, List, [], ◌∷◌, ◌++◌, replicate, Result, ok, err,
}
use iso_light_k.Common.Loop.{iterate}
use iso_light_k.Audit.{AuditRing, audit_enqueue}
use iso_light_k.Entropy.Health
use iso_light_k.Entropy.Health.{StreamHealth, HealthVerdict, pass, fail, need_more_data, check}

pub data EntropyError : Type 0 where
  quorum_failed source_unavailable health_test_failed : EntropyError

abbrev pub result_reseed_attempt : ℕ
result_reseed_attempt = 9

abbrev pub result_reseed_polling : ℕ
result_reseed_polling = 10

abbrev pub result_reseed_recovered : ℕ
result_reseed_recovered = 11

abbrev pub result_reseed_failed_panic : ℕ
result_reseed_failed_panic = 12

abbrev pub sub_quorum_min : ℕ
sub_quorum_min = 0

abbrev pub sub_rct_fail : ℕ
sub_rct_fail = 1

abbrev pub sub_source_missing : ℕ
sub_source_missing = 3

abbrev pub quorum_min : ℕ
quorum_min = 2

abbrev pub sample_bytes : ℕ
sample_bytes = 32

abbrev pub retry_spin_ceiling : ℕ
retry_spin_ceiling = 10_000_000

-- What the quorum is built on: the collection of a source into its 32-byte buffer (which may fail,
-- and may have written some bytes then), the extendable output of BLAKE3, and the time since boot.
pub record Hardware : Type 1 where
  pub Env : Type 0
  pub fill : ℕ → Env → Option EntropyError × List ℕ × Env
  pub finalize_xof : List ℕ → ℕ → Option (List ℕ)
  pub elapsed_ms : Env → ℕ × Env

module _ (hw : Hardware) where
  open hw use {Env, fill, finalize_xof, elapsed_ms}

  pub record Sources : Type 0 where
    pub health : ℕ → StreamHealth
    pub audit : AuditRing
    pub latched : Option ℕ
    pub env : Env

  abbrev pub enqueue : Sources → ℕ → ℕ → ℕ → Sources
  enqueue s slot_idx result bus_kind = record s {
    audit = audit_enqueue s.audit slot_idx result bus_kind (replicate 4 0);
  }

  abbrev put_health : Sources → ℕ → StreamHealth → Sources
  put_health s idx h = record s { health = λ i. if i == idx then h else s.health i }

  -- The samples through the tests, up to the first that fails.
  pub check_all : StreamHealth → List ℕ → Bool × StreamHealth
  check_all h [] = (true, h)
  check_all h (b ∷ bs) =
      let (verdict, h') = check h b in
      let rest = check_all h' bs in
      elim verdict [ fail ↦ (false, h') | pass ↦ rest | need_more_data ↦ rest ]

  -- `blake::ct_eq_slice` with a buffer of zeros.
  abbrev pub all_zero : List ℕ → Bool
  all_zero [] = true
  all_zero (b ∷ bs) = b == 0 && all_zero bs

  abbrev source_failed : Sources → ℕ → ℕ → Sources
  source_failed s idx sub = enqueue s (0xF0 + idx) result_reseed_failed_panic sub

  -- The estimate of the bits, or the error; the buffer as it is left; the new state.
  unfoldable pub collect_from_source : ℕ → Sources → Result EntropyError ℕ × List ℕ × Sources
  unfolding check_all
  collect_from_source idx s =
      let (failure, buf, env') = fill idx s.env in
      let s₁ : Sources = record s { env = env' } in
      elim failure [
        | some e ↦ (err e, buf, source_failed s₁ idx sub_source_missing)
        | none ↦
            if all_zero buf
            then (err source_unavailable, buf, source_failed s₁ idx sub_source_missing)
            else let (healthy, h) = check_all (s₁.health idx) buf in
              let s₂ = put_health s₁ idx h in
              if healthy
              then (ok (if idx == 2 then 16 else 32), buf, s₂)
              else (err health_test_failed, buf, source_failed s₂ idx sub_rct_fail)
      ]

  abbrev pub count_live : Result EntropyError ℕ → ℕ
  count_live (ok bits) = 1
  count_live (err e) = 0

  -- The loop over the three sources: the number of live ones, and their buffers in order.
  unfoldable pub collect_sources : Sources → ℕ × List ℕ × Sources
  unfolding collect_from_source
  collect_sources s =
      let (r₀, b₀, s₀) = collect_from_source 0 s in
      let (r₁, b₁, s₁) = collect_from_source 1 s₀ in
      let (r₂, b₂, s₂) = collect_from_source 2 s₁ in
      (count_live r₀ + count_live r₁ + count_live r₂, b₀ ++ (b₁ ++ b₂), s₂)

  -- The number of live sources at the first collection is kept.
  abbrev latch : Sources → ℕ → Sources
  latch s live = record s { latched = elim (s.latched) [ none ↦ some live | some n ↦ some n ] }

  -- The output for a buffer of `len` bytes.
  unfoldable pub collect : ℕ → Sources → Result EntropyError (List ℕ) × Sources
  collect len s =
      let (live, scratches, s₁) = collect_sources s in
      let s₂ = latch s₁ live in
      if ltb live quorum_min
      then (err quorum_failed, enqueue s₂ 0xFE result_reseed_failed_panic sub_quorum_min)
      else elim (finalize_xof scratches len) [
        | none ↦ (err source_unavailable, s₂)
        | some mix ↦ (ok mix, s₂)
      ]

  -- How the retry loop ends: with a result, or with the kernel's panic.
  pub data Ended : Type 0 where
    returned : Result EntropyError (List ℕ) → Ended
    panicked : Ended

  pub record Retry : Type 0 where
    pub sources : Sources
    pub spins : ℕ

  -- One round of `collect_with_retry`; the `u64` difference of times wraps.
  unfoldable pub retry_step : ℕ → ℕ → ℕ → Retry → Retry ⊎ (Ended × Sources)
  retry_step len max_wait_ms start r =
      let (result, s) = collect len r.sources in
      elim result [
        | ok mix ↦ inr (returned (ok mix), enqueue s 0xFE result_reseed_recovered 0)
        | err quorum_failed ↦
            let s' = enqueue s 0xFE result_reseed_polling 0 in
            let (now, env') = elapsed_ms s'.env in
            let s'' : Sources = record s' { env = env' } in
            let spins = min (r.spins + 1) (2 ^ 64 - 1) in
            if ltb max_wait_ms ((now + 2 ^ 64 - start) % 2 ^ 64) || ltb retry_spin_ceiling spins
            then inr (panicked, enqueue s'' 0xFE result_reseed_failed_panic sub_quorum_min)
            else inl (record { sources = s''; spins = spins })
        | err source_unavailable ↦ inr (returned (err source_unavailable), s)
        | err health_test_failed ↦ inr (returned (err health_test_failed), s)
      ]

  -- `none` is a loop that has not ended within the fuel.
  unfoldable pub collect_with_retry : ℕ → ℕ → ℕ → Sources → Option (Ended × Sources)
  collect_with_retry fuel len max_wait_ms s =
      let s₁ = enqueue s 0xFE result_reseed_attempt 0 in
      let (start, env') = elapsed_ms s₁.env in
      iterate (retry_step len max_wait_ms start) fuel
        (record { sources = record s₁ { env = env' }; spins = 0 })
