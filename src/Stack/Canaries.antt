-- ===== src/Stack/Canaries.antt =====
-- `install_canaries` and `validate_canaries` (src/stack.rs) over all guards.
use iso_light_k.Common.{
  ℕ, zero, suc, ◌+◌, ◌-◌, ◌*◌, ◌≤◌, ◌<◌, ◌≡◌, ◌≢◌, refl, true, false, ltb, ◌==◌, some, List, [],
  ◌∷◌, get_elem?, Result, ok, err, inl, inr, Bool-cases, arith,
}
use iso_light_k.Stack.{
  Range, Words, write_word, canary_qword, fill_from, fill_canary, check_from, check_canary,
  fill_all, install_canaries, check_all, validate_canaries,
}

-- Every word of the guard is the canary.
abbrev pub IsIntact : Words → Range → Type 0
IsIntact memory g = (k : ℕ) → g.0 + 8 * k < g.1 → memory (g.0 + 8 * k) ≡ canary_qword

-- Some word of the guard is not the canary.
abbrev pub IsDamaged : Words → Range → Type 0
IsDamaged memory g = (k : ℕ) × (g.0 + 8 * k < g.1) × (memory (g.0 + 8 * k) ≢ canary_qword)

check_from-true :
    (fuel p end : ℕ) (memory : Words)
    → end ≤ p + fuel
    → check_from fuel p end memory ≡ true
    → IsIntact memory (p, end)
unfolding check_from
check_from-true zero p end memory enough h k below = absurd (omega arith)
check_from-true (suc fuel) p end memory enough h zero below = ground arith
check_from-true (suc fuel) p end memory enough h (suc k) below =
    let along : p + 8 * suc k ≡ p + 8 + 8 * k = omega arith in
    rw along (check_from-true fuel (p + 8) end memory (omega arith) (ground arith) k (omega arith))

check_from-false :
    (fuel p end : ℕ) (memory : Words)
    → check_from fuel p end memory ≡ false
    → IsDamaged memory (p, end)
unfolding check_from
check_from-false zero p end memory h = absurd (ground arith)
check_from-false (suc fuel) p end memory h = elim (Bool-cases (memory p == canary_qword)) [
  | inr odd ↦ (0, ground arith, ground arith)
  | inl same ↦
      let (k, below, damaged) = check_from-false fuel (p + 8) end memory (ground arith) in
      let along : p + 8 * suc k ≡ p + 8 + 8 * k = omega arith in
      (suc k, omega arith, rw along damaged)
]

check_canary-true : (g : Range) (memory : Words) → check_canary g memory ≡ true → IsIntact memory g
unfolding check_canary
check_canary-true g memory h = check_from-true (g.1 - g.0) g.0 g.1 memory (omega arith) h

check_canary-false :
    (g : Range) (memory : Words) → check_canary g memory ≡ false → IsDamaged memory g
unfolding check_canary
check_canary-false g memory h = check_from-false (g.1 - g.0) g.0 g.1 memory h

IsIntact-check_canary :
    (g : Range) (memory : Words) → IsIntact memory g → check_canary g memory ≡ true
IsIntact-check_canary g memory intact = elim (Bool-cases (check_canary g memory)) [
  | inl y ↦ y
  | inr n ↦
      let (k, below, damaged) = check_canary-false g memory n in absurd (damaged (intact k below))
]

-- The verdict on guards: all are intact, or it names a damaged one.
abbrev pub IsVerdict : Words → List Range → Result ℕ (Unit {0}) → Type 0
IsVerdict memory gs (ok _) = (i : ℕ) (g : Range) → get_elem? gs i ≡ some g → IsIntact memory g
IsVerdict memory gs (err s) =
    (i : ℕ) × (g : Range) × (get_elem? gs i ≡ some g)
    × (g.0 ≡ s)
    × IsDamaged memory g
    × ((j : ℕ) (g' : Range) → j < i → get_elem? gs j ≡ some g' → IsIntact memory g')

IsVerdict-cons :
    (memory : Words) (g : Range) (gs : List Range) (r : Result ℕ (Unit {0}))
    → IsIntact memory g
    → IsVerdict memory gs r
    → IsVerdict memory (g ∷ gs) r
IsVerdict-cons memory g gs (ok _) intact all = each
  where
    each : (i : ℕ) (g' : Range) → get_elem? (g ∷ gs) i ≡ some g' → IsIntact memory g'
    each zero g' at = let same : g ≡ g' = cc in rw (← same) intact
    each (suc i) g' at = all i g' at
IsVerdict-cons memory g gs (err s) intact (i, bad, at, start, damaged, before) =
    (suc i, bad, at, start, damaged, earlier)
  where
    earlier : (j : ℕ) (g' : Range) → j < suc i → get_elem? (g ∷ gs) j ≡ some g' → IsIntact memory g'
    earlier zero g' below at = let same : g ≡ g' = cc in rw (← same) intact
    earlier (suc j) g' below at = before j g' (omega arith) at

check_all-IsVerdict : (gs : List Range) (memory : Words) → IsVerdict memory gs (check_all gs memory)
unfolding check_all
check_all-IsVerdict [] memory = λ i g at. absurd (ground arith)
check_all-IsVerdict (g ∷ gs) memory = elim (Bool-cases (check_canary g memory)) [
  | inl y ↦ rw y (
      IsVerdict-cons memory g gs (check_all gs memory) (check_canary-true g memory y)
        (check_all-IsVerdict gs memory))
  | inr n ↦
      rw n (0, g, refl, refl, check_canary-false g memory n, λ j g' below at. absurd (omega arith))
]

-- For any contents of memory: where `validate_canaries` succeeds, every word of every guard is the
-- canary; where it fails, its error is the start of a guard with a word that is not, and all
-- guards before that one are intact.
pub validate_canaries_lem :
    (boot : Range) (ist : List Range) (memory : Words)
    → IsVerdict memory (boot ∷ ist) (validate_canaries boot ist memory)
unfolding validate_canaries check_all
validate_canaries_lem boot ist memory = check_all-IsVerdict (boot ∷ ist) memory

-- What a fill leaves at an address: the canary or what was there.
fill_from_keeps :
    (fuel p end a : ℕ) (memory : Words)
    → memory a ≡ canary_qword
    → fill_from fuel p end memory a ≡ canary_qword
unfolding fill_from
fill_from_keeps zero p end a memory h = h
fill_from_keeps (suc fuel) p end a memory h = elim (Bool-cases (ltb p end)) [
  | inr past ↦ rw past h
  | inl more ↦
      rw more (fill_from_keeps fuel (p + 8) end a (write_word p canary_qword memory) (ground arith))
]

fill_from-IsIntact :
    (fuel p end : ℕ) (memory : Words)
    → end ≤ p + fuel
    → IsIntact (fill_from fuel p end memory) (p, end)
unfolding fill_from
fill_from-IsIntact zero p end memory enough k below = absurd (omega arith)
fill_from-IsIntact (suc fuel) p end memory enough zero below =
    let more : ltb p end ≡ true = ground arith in
    rw more (
      fill_from_keeps fuel (p + 8) end (p + 8 * 0) (write_word p canary_qword memory)
        (ground arith))
fill_from-IsIntact (suc fuel) p end memory enough (suc k) below =
    let more : ltb p end ≡ true = ground arith in
    let along : p + 8 * suc k ≡ p + 8 + 8 * k = omega arith in
    rw (more, along)
      (fill_from-IsIntact fuel (p + 8) end (write_word p canary_qword memory) (omega arith) k
        (omega arith))

fill_canary-IsIntact : (g : Range) (memory : Words) → IsIntact (fill_canary g memory) g
unfolding fill_canary
fill_canary-IsIntact g memory = fill_from-IsIntact (g.1 - g.0) g.0 g.1 memory (omega arith)

fill_canary_keeps :
    (g g' : Range) (memory : Words) → IsIntact memory g' → IsIntact (fill_canary g memory) g'
unfolding fill_canary
fill_canary_keeps g g' memory intact k below =
    fill_from_keeps (g.1 - g.0) g.0 g.1 (g'.0 + 8 * k) memory (intact k below)

fill_all_keeps :
    (gs : List Range) (g' : Range) (memory : Words)
    → IsIntact memory g'
    → IsIntact (fill_all gs memory) g'
unfolding fill_all
fill_all_keeps [] g' memory intact = intact
fill_all_keeps (g ∷ gs) g' memory intact =
    fill_all_keeps gs g' (fill_canary g memory) (fill_canary_keeps g g' memory intact)

check_all-fill_all : (gs : List Range) (memory : Words) → check_all gs (fill_all gs memory) ≡ ok tt
unfolding check_all fill_all
check_all-fill_all [] memory = refl
check_all-fill_all (g ∷ gs) memory =
    let filled = fill_canary g memory in
    let good : check_canary g (fill_all gs filled) ≡ true =
      IsIntact-check_canary g (fill_all gs filled)
        (fill_all_keeps gs g filled (fill_canary-IsIntact g memory)) in
    rw (good, check_all-fill_all gs filled) refl

-- Whatever the guards and the memory, `validate_canaries` succeeds after `install_canaries`.
pub validate_canaries-install_canaries :
    (boot : Range) (ist : List Range) (memory : Words)
    → validate_canaries boot ist (install_canaries boot ist memory) ≡ ok tt
unfolding validate_canaries install_canaries check_all fill_all
validate_canaries-install_canaries boot ist memory = check_all-fill_all (boot ∷ ist) memory
