-- ===== src/Alloc/Word.antt =====
-- Words of the bitmap (src/allocator.rs): counting free frames, and the first free bit.
use iso_light_k.Common.{
  ℕ, zero, suc, ◌+◌, ◌≤◌, ◌<◌, ◌≡◌, refl, ap, true, false, List, [], ◌∷◌, length, get_or, set,
  arith,
}
use iso_light_k.Alloc.{Word, all_ones, trailing_ones}

-- The number of clear bits of a word, and of a bitmap.
abbrev pub count_free : Word → ℕ
count_free [] = 0
count_free (true ∷ w) = count_free w
count_free (false ∷ w) = suc (count_free w)

abbrev pub total_free : List Word → ℕ
total_free [] = 0
total_free (w ∷ ws) = count_free w + total_free ws

pub all_ones-count : (w : Word) → all_ones w ≡ true → count_free w ≡ 0
unfolding all_ones
all_ones-count [] h = refl
all_ones-count (true ∷ w) h = all_ones-count w h
all_ones-count (false ∷ w) h = cc

pub all_ones-get : (w : Word) (i : ℕ) → all_ones w ≡ true → get_or w i true ≡ true
unfolding all_ones
all_ones-get [] i h = refl
all_ones-get (true ∷ w) zero h = refl
all_ones-get (false ∷ w) zero h = cc
all_ones-get (true ∷ w) (suc i) h = all_ones-get w i h
all_ones-get (false ∷ w) (suc i) h = cc

-- The first clear bit of a word that has one: it is in range and clear, and those below it are set.
pub trailing_ones_lem :
    (w : Word)
    → all_ones w ≡ false
    → (trailing_ones w < length w)
      × (get_or w (trailing_ones w) true ≡ false)
      × ((i : ℕ) → i < trailing_ones w → get_or w i true ≡ true)
unfolding all_ones trailing_ones
trailing_ones_lem [] h = cc
trailing_ones_lem (false ∷ w) h = (omega arith, refl, λ i l. absurd (omega arith))
trailing_ones_lem (true ∷ w) h =
    let (inside, clear, below) = trailing_ones_lem w h in
    (omega arith, clear, λ i l. step i l below)
  where
    step :
        (i : ℕ)
        → i < suc (trailing_ones w)
        → ((j : ℕ) → j < trailing_ones w → get_or w j true ≡ true)
        → get_or (true ∷ w) i true ≡ true
    step zero l below = refl
    step (suc i) l below = below i (omega arith)

pub count_free-set-true :
    (w : Word) (i : ℕ) → get_or w i true ≡ false → suc (count_free (set w i true)) ≡ count_free w
count_free-set-true [] i h = cc
count_free-set-true (true ∷ w) zero h = cc
count_free-set-true (false ∷ w) zero h = refl
count_free-set-true (true ∷ w) (suc i) h = count_free-set-true w i h
count_free-set-true (false ∷ w) (suc i) h = ap suc (count_free-set-true w i h)

pub count_free-set-false :
    (w : Word) (i : ℕ)
    → i < length w
    → get_or w i true ≡ true
    → count_free (set w i false) ≡ suc (count_free w)
count_free-set-false [] i l h = absurd (omega arith)
count_free-set-false (true ∷ w) zero l h = refl
count_free-set-false (false ∷ w) zero l h = cc
count_free-set-false (true ∷ w) (suc i) l h = count_free-set-false w i (omega arith) h
count_free-set-false (false ∷ w) (suc i) l h = ap suc (count_free-set-false w i (omega arith) h)

pub total_free-set :
    (ws : List Word) (i : ℕ) (w : Word)
    → i < length ws
    → total_free (set ws i w) + count_free (get_or ws i []) ≡ total_free ws + count_free w
total_free-set [] i w h = absurd (omega arith)
total_free-set (v ∷ ws) zero w h = omega arith
total_free-set (v ∷ ws) (suc i) w h = omega (arith, total_free-set ws i w (omega arith))

pub count_free-le-total : (ws : List Word) (i : ℕ) → count_free (get_or ws i []) ≤ total_free ws
count_free-le-total [] i = omega arith
count_free-le-total (v ∷ ws) zero = omega arith
count_free-le-total (v ∷ ws) (suc i) = omega (arith, count_free-le-total ws i)

-- Where every word is full, no frame is free.
pub total_free-full :
    (ws : List Word) → ((i : ℕ) → all_ones (get_or ws i []) ≡ true) → total_free ws ≡ 0
total_free-full [] h = refl
total_free-full (w ∷ ws) h =
    omega (arith, all_ones-count w (h 0), total_free-full ws (λ i. h (suc i)))

pub all_ones-pos : (w : Word) → all_ones w ≡ false → 0 < count_free w
unfolding all_ones
all_ones-pos [] h = cc
all_ones-pos (true ∷ w) h = all_ones-pos w h
all_ones-pos (false ∷ w) h = omega arith
