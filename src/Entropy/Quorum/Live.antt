-- ===== src/Entropy/Quorum/Live.antt =====
-- When one of the three sources of src/arch/common/entropy/quorum.rs counts as live, said without the
-- code of the collection, and that the collection counts by it.
use iso_light_k.Common.{
  ℕ, ◌≡◌, ◌≢◌, ◌⊎◌, inl, inr, refl, true, false, Bool-cases, ◌==◌, Option, none, Option-cases, List,
  [], ◌∷◌, length, replicate, arith,
}
use iso_light_k.Entropy.Health.{StreamHealth, fail, check}
use iso_light_k.Entropy.Quorum.{
  Hardware, EntropyError, Sources, all_zero, check_all, collect_from_source, count_live,
}

-- No byte fails the health tests, each of which is made with the state that the one before left.
abbrev pub Passes : StreamHealth → List ℕ → Type 0
Passes h [] = Unit
Passes h (b ∷ bs) = ((check h b).0 ≢ fail) × Passes (check h b).1 bs

module _ (hw : Hardware) where
  open hw use {Env, fill}

  -- What a source delivered counts if there was no error, some byte is not 0, and no byte fails.
  abbrev pub IsLive : StreamHealth → Option EntropyError × List ℕ × Env → Type 0
  IsLive h x = (x.0 ≡ none) × (x.1 ≢ replicate (length x.1) 0) × Passes h x.1

  all_zero-replicate : (bs : List ℕ) → all_zero hw bs ≡ true → bs ≡ replicate (length bs) 0
  all_zero-replicate [] h = refl
  all_zero-replicate (b ∷ bs) h = ground (arith, all_zero-replicate bs)

  replicate-all_zero : (bs : List ℕ) → bs ≡ replicate (length bs) 0 → all_zero hw bs ≡ true
  replicate-all_zero [] h = refl
  replicate-all_zero (b ∷ bs) h = ground (arith, replicate-all_zero bs)

  check_all-Passes : (h : StreamHealth) (bs : List ℕ) → (check_all hw h bs).0 ≡ true → Passes h bs
  unfolding check_all
  check_all-Passes h [] e = tt
  check_all-Passes h (b ∷ bs) e =
      (λ f. ground arith, check_all-Passes (check h b).1 bs (ground arith))

  Passes-check_all : (h : StreamHealth) (bs : List ℕ) → Passes h bs → (check_all hw h bs).0 ≡ true
  unfolding check_all
  Passes-check_all h [] p = refl
  Passes-check_all h (b ∷ bs) (p, ps) = ground (arith, Passes-check_all (check h b).1 bs ps)

  -- A collection counts one exactly for a source that is live.
  pub collect_from_source-count :
      (idx : ℕ) (s : Sources hw)
      → let live = IsLive (s.health idx) (fill idx s.env) in
        let n = count_live hw (collect_from_source hw idx s).0 in
        (live × (n ≡ 1)) ⊎ (¬ live × (n ≡ 0))
  unfolding collect_from_source
  collect_from_source-count idx s = elim (Option-cases (fill idx s.env).0) [
    | inr (e, failed) ↦ inr (λ l. cc (l.0), ground arith)
    | inl filled ↦ elim (Bool-cases (all_zero hw (fill idx s.env).1)) [
      | inl z ↦ inr (λ l. l.1 (all_zero-replicate (fill idx s.env).1 z), ground arith)
      | inr nz ↦ elim (Bool-cases (check_all hw (s.health idx) (fill idx s.env).1).0) [
        | inl p ↦ inl (
          (
            filled,
            λ r. absurd (let z = replicate-all_zero (fill idx s.env).1 r in cc),
            check_all-Passes (s.health idx) (fill idx s.env).1 p,
          ),
          ground arith,
        )
        | inr f ↦ inr (
          λ l. absurd (let p = Passes-check_all (s.health idx) (fill idx s.env).1 l.2 in cc),
          ground arith,
        )
      ]
    ]
  ]

  -- The buffer is what the source wrote, the hardware is as the source left it, and the tests of the
  -- other sources keep their state.
  pub collect_from_source_frame :
      (idx j : ℕ) (s : Sources hw)
      → (j == idx) ≡ false
      → ((collect_from_source hw idx s).1 ≡ (fill idx s.env).1)
        × ((collect_from_source hw idx s).2.env ≡ (fill idx s.env).2)
        × ((collect_from_source hw idx s).2.health j ≡ s.health j)
  unfolding collect_from_source
  collect_from_source_frame idx j s other = (ground arith, ground arith, ground arith)
