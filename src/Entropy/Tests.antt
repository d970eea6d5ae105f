-- ===== src/Entropy/Tests.antt =====
-- The theorems on src/arch/common/entropy at concrete inputs.
use iso_light_k.Common.{
  ℕ, zero, suc, ◌≡◌, refl, true, Option, none, some, List, [], ◌∷◌, take, replicate, arith,
}
use iso_light_k.Audit.{initial}
use iso_light_k.Entropy.Health.{check, fail, new}
use iso_light_k.Entropy.Health.Laws.{after, last_run, repetition_detected}
use iso_light_k.Entropy.Quorum.{Hardware, EntropyError, source_unavailable, Sources}

-- 41 equal samples in a row.
abbrev stuck_samples : List ℕ
stuck_samples = replicate 40 5

stuck_run : last_run (5 ∷ stuck_samples) ≡ 41
stuck_run = refl

repetition_detected_example :
    ((check (after stuck_samples) 5).0 ≡ fail) × ((check (after stuck_samples) 5).1.disabled ≡ true)
repetition_detected_example =
    repetition_detected 5 stuck_samples (omega arith) (omega (arith, stuck_run))

-- Of three sources the middle one is missing; mixed by keeping the first bytes.
abbrev deliver : ℕ → Unit {0} → Option EntropyError × List ℕ × Unit {0}
deliver zero env = (none, 1 ∷ 2 ∷ 3 ∷ 4 ∷ [], env)
deliver (suc zero) env = (some source_unavailable, 0 ∷ 0 ∷ 0 ∷ 0 ∷ [], env)
deliver (suc (suc n)) env = (none, 5 ∷ 6 ∷ 7 ∷ 8 ∷ [], env)

abbrev two_of_three : Hardware
two_of_three = record {
  Env = Unit;
  fill = deliver;
  finalize_xof = λ bytes len. some (take len bytes);
  elapsed_ms = λ env. (0, env);
}

abbrev at_boot : Sources two_of_three
at_boot = record { health = λ idx. new; audit = initial; latched = none; env = tt }
