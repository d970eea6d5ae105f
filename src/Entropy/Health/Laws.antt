-- ===== src/Entropy/Health/Laws.antt =====
-- What the health tests (src/arch/common/entropy/health.rs) detect.
use iso_light_k.Common.{
  ℕ, suc, ◌+◌, ◌-◌, ◌^◌, ◌≤◌, ◌<◌, ◌≡◌, ◌≢◌, ◌⊎◌, inl, inr, refl, sym, ◌∙◌, true, false, ◌==◌,
  if◌then◌else◌, List, [], ◌∷◌, length, arith,
}
use native.Mathlib.Decide.{ℕ_discrete}
use iso_light_k.Entropy.Health.{
  fail, StreamHealth, new, check, apt_window, rct_cutoff, apt_cutoff, reentry_threshold,
}

-- The evaluator after some samples, the last one first.
abbrev pub after : List ℕ → StreamHealth
after [] = new
after (s ∷ ss) = (check (after ss) s).1

-- The length of the run of equal samples at the front of a list.
abbrev pub run : ℕ → List ℕ → ℕ
run s [] = 0
run s (t ∷ ts) = if t == s then suc (run s ts) else 0

-- A run that began with the value 0 of a new evaluator counts the same way.
abbrev pub last_run : List ℕ → ℕ
last_run [] = 0
last_run (s ∷ ss) = suc (run s ss)

abbrev pub last_sample : List ℕ → ℕ
last_sample [] = 0
last_sample (s ∷ ss) = s

check_counts :
    (h : StreamHealth) (s : ℕ)
    → h.rct_count < 2 ^ 32 - 1
    → ((check h s).1.rct_last ≡ s)
      × ((check h s).1.rct_count ≡ (if s == h.rct_last then suc h.rct_count else 1))
unfolding check
check_counts h s l = ground arith

run-le : (s : ℕ) (ss : List ℕ) → run s ss ≤ length ss
run-le s [] = omega arith
run-le s (t ∷ ts) = ground (arith, run-le s ts)

after_counts :
    (ss : List ℕ)
    → length ss < 2 ^ 32 - 1
    → ((after ss).rct_last ≡ last_sample ss) × ((after ss).rct_count ≡ last_run ss)
after_counts [] h = (refl, refl)
after_counts (s ∷ []) h = ground (arith, check_counts new s)
after_counts (s ∷ t ∷ ss) h =
    ground (arith, check_counts (after (t ∷ ss)) s, after_counts (t ∷ ss), run-le t ss)

check_repeated :
    (h : StreamHealth) (s : ℕ)
    → s ≡ h.rct_last
    → rct_cutoff ≤ suc h.rct_count
    → ((check h s).0 ≡ fail) × ((check h s).1.disabled ≡ true)
unfolding check
check_repeated h s e l = ground arith

check_failed :
    (h : StreamHealth) (s : ℕ)
    → (check h s).0 ≡ fail
    → ((s ≡ h.rct_last) × (rct_cutoff ≤ suc h.rct_count))
      ⊎ ((h.apt_filled + 1 ≡ apt_window) × (apt_cutoff ≤ h.apt_observed_count + 1))
unfolding check
check_failed h s f = ground arith

run_grows : (s t : ℕ) (ts : List ℕ) → t ≡ s → last_run (s ∷ t ∷ ts) ≡ suc (last_run (t ∷ ts))
run_grows s t ts e = ground arith

-- Among fewer than 2 ^ 32 - 1 samples, a sample that ends a run of at least 41 equal ones is
-- refused, and the source is disabled.
pub repetition_detected :
    (s : ℕ) (ss : List ℕ)
    → length (s ∷ ss) < 2 ^ 32 - 1
    → rct_cutoff ≤ last_run (s ∷ ss)
    → ((check (after ss) s).0 ≡ fail) × ((check (after ss) s).1.disabled ≡ true)
repetition_detected s [] h r = absurd (omega arith)
repetition_detected s (t ∷ ts) h r =
    let (last, count) = after_counts (t ∷ ts) (omega arith) in
    elim (ℕ_discrete t s) [
      | yes e ↦
          check_repeated (after (t ∷ ts)) s (sym (last ∙ e))
            (rw count (omega (arith, run_grows s t ts e)))
      | no ne ↦ absurd (short ne r)
    ]
  where
    short : t ≢ s → rct_cutoff ≤ last_run (s ∷ t ∷ ts) → ⊥
    short ne l = ground arith

-- Among fewer than 2 ^ 32 - 1 samples, a refused sample ends a run of at least 41 equal samples,
-- or closes a window of 1024 samples in which the first one of the window had been counted at
-- least 792 times before.
pub check-fail :
    (s : ℕ) (ss : List ℕ)
    → length (s ∷ ss) < 2 ^ 32 - 1
    → (check (after ss) s).0 ≡ fail
    → (rct_cutoff ≤ last_run (s ∷ ss))
      ⊎ (((after ss).apt_filled + 1 ≡ apt_window)
          × (apt_cutoff ≤ (after ss).apt_observed_count + 1))
check-fail s [] h f = elim (check_failed new s f) [
  | inl p ↦ absurd (omega (arith, p.1))
  | inr q ↦ inr q
]
check-fail s (t ∷ ts) h f = elim (check_failed (after (t ∷ ts)) s f) [
  | inl p ↦
      let (last, count) = after_counts (t ∷ ts) (omega arith) in
      inl (omega (arith, run_grows s t ts (sym (p.0 ∙ last)), p.1))
  | inr q ↦ inr q
]

-- What holds of an evaluator between samples: the window is not full, its count is at most the
-- samples in it, and a disabled source has passed fewer than 16 samples since its last failure.
pub record IsValid (h : StreamHealth) : Type 0 where
  pub window_open : h.apt_filled < apt_window
  pub observed : h.apt_observed_count ≤ h.apt_filled
  pub waiting : h.disabled ≡ true → h.consecutive_pass < reentry_threshold

pub new-IsValid : IsValid new
new-IsValid = ground arith

-- Every sample keeps the state of the health tests well-formed: the window stays open, and a
-- disabled source waits with fewer than 16 passes. A failure disables the source and resets the
-- count of passes, and a disabled source is enabled again only by its 16th pass in a row.
pub check-IsValid :
    (h : StreamHealth) (s : ℕ)
    → IsValid h
    → IsValid (check h s).1
      × ((check h s).0 ≡ fail
          → ((check h s).1.disabled ≡ true) × ((check h s).1.consecutive_pass ≡ 0))
      × (h.disabled ≡ true
          → (check h s).1.disabled ≡ false
          → h.consecutive_pass + 1 ≡ reentry_threshold)
unfolding check
check-IsValid h s v = ground arith
