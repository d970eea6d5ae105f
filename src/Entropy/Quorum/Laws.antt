-- ===== src/Entropy/Quorum/Laws.antt =====
-- The quorum of the entropy sources (src/arch/common/entropy/quorum.rs).
use iso_light_k.Common.{◌⊎◌, ℕ, ◌-◌, ◌≤◌, ◌<◌, ◌≡◌, ◌≢◌, ◌↔◌, inl, inr, some, ok, err, arith}
use iso_light_k.Common.Loop.{iterate, iterate_inv, iterate_total}
use iso_light_k.Entropy.Quorum.{
  Hardware, quorum_failed, source_unavailable, health_test_failed, Sources, quorum_min,
  retry_spin_ceiling, collect_sources, collect, Ended, returned, panicked, Retry, retry_step,
  collect_with_retry,
}

-- At least two of three.
abbrev pub TwoOf {ℓ} : Type ℓ → Type ℓ → Type ℓ → Type ℓ
TwoOf A B C = (A × B) ⊎ (A × C) ⊎ (B × C)

-- A number that is 1 if something holds, and else 0.
abbrev Counts {ℓ} : Type ℓ → ℕ → Type ℓ
Counts A n = (A × (n ≡ 1)) ⊎ (¬ A × (n ≡ 0))

module _ (hw : Hardware) where
  open hw use {fill, finalize_xof, elapsed_ms}

  -- With fewer than two live sources a collection fails with `QuorumFailed`, and gives no output.
  pub collect_without_quorum :
      (len : ℕ) (s : Sources hw)
      → ((collect hw len s).0 ≡ err quorum_failed) ↔ ((collect_sources hw s).0 < quorum_min)
  unfolding collect
  collect_without_quorum len s = (λ h. ground arith, λ h. ground arith)

  abbrev SpinsBounded : Retry hw → Type 0
  SpinsBounded r = r.spins ≤ retry_spin_ceiling

  retry_again :
      (len wait start : ℕ) (r t : Retry hw)
      → SpinsBounded r
      → retry_step hw len wait start r ≡ inl t
      → SpinsBounded t × (retry_spin_ceiling - t.spins < retry_spin_ceiling - r.spins)
  unfolding retry_step
  retry_again len wait start r t p e = ground arith

  abbrev pub Settled : Ended hw → Type 0
  Settled (returned (ok mix)) = Unit {0}
  Settled (returned (err quorum_failed)) = ⊥
  Settled (returned (err source_unavailable)) = Unit {0}
  Settled (returned (err health_test_failed)) = ⊥
  Settled panicked = Unit {0}

  collect-health_test : (len : ℕ) (s : Sources hw) → (collect hw len s).0 ≢ err health_test_failed
  unfolding collect
  collect-health_test len s e = ground arith

  retry_done :
      (len wait start : ℕ) (r : Retry hw) (x : Ended hw × Sources hw)
      → retry_step hw len wait start r ≡ inr x
      → Settled x.0
  unfolding retry_step
  retry_done len wait start r (returned (ok mix), s) e = tt
  retry_done len wait start r (returned (err quorum_failed), s) e = ground arith
  retry_done len wait start r (returned (err source_unavailable), s) e = tt
  retry_done len wait start r (returned (err health_test_failed), s) e =
      ground (arith, collect-health_test len r.sources)
  retry_done len wait start r (panicked, s) e = tt

  retry_total :
      (fuel len wait start : ℕ) (r : Retry hw)
      → SpinsBounded r
      → retry_spin_ceiling < fuel
      → (x : Ended hw × Sources hw) × (iterate (retry_step hw len wait start) fuel r ≡ some x)
        × Settled x.0
  retry_total fuel len wait start r p enough =
      let (x, e) =
        iterate_total SpinsBounded (λ t. retry_spin_ceiling - t.spins)
          (retry_step hw len wait start) (λ t u q a. retry_again len wait start t u q a) fuel r p
          (omega arith) in
      (
        x,
        e,
        iterate_inv (λ t. Unit {0}) (λ y. Settled y.0) (retry_step hw len wait start)
            (λ t u q a. tt) (λ t y q a. retry_done len wait start t y a) fuel r x tt e,
      )

  -- With fuel for more than ten million rounds the retry loop ends whatever the clock does: with
  -- an output, with `SourceUnavailable`, or with a panic, never with `QuorumFailed`.
  pub collect_with_retry_total :
      (fuel len wait : ℕ) (s : Sources hw)
      → retry_spin_ceiling < fuel
      → (x : Ended hw × Sources hw) × (collect_with_retry hw fuel len wait s ≡ some x) × Settled x.0
  unfolding collect_with_retry
  collect_with_retry_total fuel len wait s enough =
      retry_total fuel len wait _ _ (omega arith) enough
