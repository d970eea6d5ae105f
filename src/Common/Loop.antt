-- ===== src/Common/Loop.antt =====
-- Loops that run until their body returns: `loop { .. return r .. }` as iteration of a step on
-- fuel, where `none` means that the fuel ran out.
use Prim.Native.Nat.{ℕ, zero, suc, ◌+◌, ◌<◌}
use mathlib.Core.Path.{◌≡◌, refl}
use mathlib.Core.Logic.{◌⊎◌, inl, inr}
use mathlib.Core.Option.{Option, none, some}
use native.Mathlib.Omega.{arith}

module _ {ℓ κ} {S : Type ℓ} {R : Type κ} where
  -- `inl` goes round again, `inr` returns.
  unfoldable pub iterate : (S → S ⊎ R) → ℕ → S → Option R
  iterate step zero s = none
  iterate step (suc fuel) s = elim (step s) [ inl t ↦ iterate step fuel t | inr r ↦ some r ]

  pub iterate_again :
      (step : S → S ⊎ R) (fuel : ℕ) (s t : S)
      → step s ≡ inl t
      → iterate step (suc fuel) s ≡ iterate step fuel t
  unfolding iterate
  iterate_again step fuel s t e = rw (e, iterate)

  pub iterate_return :
      (step : S → S ⊎ R) (fuel : ℕ) (s : S) (r : R)
      → step s ≡ inr r
      → iterate step (suc fuel) s ≡ some r
  unfolding iterate
  iterate_return step fuel s r e = rw (e, iterate)

  pub step_cases :
      (step : S → S ⊎ R) (s : S) → ((t : S) × (step s ≡ inl t)) ⊎ ((r : R) × (step s ≡ inr r))
  step_cases step s = go (step s) refl
    where
      go : (x : S ⊎ R) → step s ≡ x → ((t : S) × (step s ≡ inl t)) ⊎ ((r : R) × (step s ≡ inr r))
      go (inl t) e = inl (t, e)
      go (inr r) e = inr (r, e)

  -- What an invariant says of each return holds of the loop's result.
  pub iterate_inv {μ ν} :
      (P : S → Type μ) (Q : R → Type ν) (step : S → S ⊎ R)
      → ((s t : S) → P s → step s ≡ inl t → P t)
      → ((s : S) (r : R) → P s → step s ≡ inr r → Q r)
      → (fuel : ℕ) (s : S) (r : R) → P s
      → iterate step fuel s ≡ some r
      → Q r
  iterate_inv P Q step keep post zero s r p e = absurd (unfold iterate in cc)
  iterate_inv P Q step keep post (suc fuel) s r p e = elim (step_cases step s) [
    | inl (t, again) ↦
        iterate_inv P Q step keep post fuel t r (keep s t p again)
          (rw (iterate_again step fuel s t again) at e)
    | inr (r', done) ↦
        let same : some r' ≡ some r = rw (iterate_return step fuel s r' done) at e in
        let eq : r' ≡ r = cc in rw (← eq) (post s r' p done)
  ]

  -- With a measure below the fuel the loop returns.
  pub iterate_total {μ} :
      (P : S → Type μ) (measure : S → ℕ) (step : S → S ⊎ R)
      → ((s t : S) → P s → step s ≡ inl t → P t × (measure t < measure s))
      → (fuel : ℕ) (s : S) → P s
      → measure s < fuel
      → (r : R) × (iterate step fuel s ≡ some r)
  iterate_total P measure step keep zero s p m = absurd (omega arith)
  iterate_total P measure step keep (suc fuel) s p m = elim (step_cases step s) [
    | inl (t, again) ↦
        let (q, less) = keep s t p again in
        rw (iterate_again step fuel s t again)
          (iterate_total P measure step keep fuel t q (omega arith))
    | inr (r, done) ↦ (r, iterate_return step fuel s r done)
  ]

  -- More fuel does not change a result.
  pub iterate_more :
      (step : S → S ⊎ R) (fuel extra : ℕ) (s : S) (r : R)
      → iterate step fuel s ≡ some r
      → iterate step (fuel + extra) s ≡ some r
  iterate_more step zero extra s r e = absurd (unfold iterate in cc)
  iterate_more step (suc fuel) extra s r e =
      let more : suc fuel + extra ≡ suc (fuel + extra) = omega arith in
      rw more (elim (step_cases step s) [
        | inl (t, again) ↦
            rw (iterate_again step (fuel + extra) s t again)
              (iterate_more step fuel extra t r (rw (iterate_again step fuel s t again) at e))
        | inr (r', done) ↦
            rw (iterate_return step (fuel + extra) s r' done)
              (rw (iterate_return step fuel s r' done) at e)
      ])

  -- Where every state that the invariant allows goes round again, the loop never returns.
  pub iterate_never {μ} :
      (P : S → Type μ) (step : S → S ⊎ R)
      → ((s : S) → P s → (t : S) × (step s ≡ inl t) × P t)
      → (fuel : ℕ) (s : S) → P s
      → iterate step fuel s ≡ none
  iterate_never P step keep zero s p = unfold iterate in refl
  iterate_never P step keep (suc fuel) s p =
      let (t, again, q) = keep s p in
      rw (iterate_again step fuel s t again) (iterate_never P step keep fuel t q)
