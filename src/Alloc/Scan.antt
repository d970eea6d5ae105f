-- ===== src/Alloc/Scan.antt =====
-- The scan of `alloc` (src/allocator.rs) stops at the first word with a free bit.
use iso_light_k.Common.{
  ℕ, zero, suc, ◌+◌, ◌≤◌, ◌<◌, ◌≡◌, inl, inr, true, false, Bool-cases, none, some, List, [], get_or,
  arith,
}
use native.Mathlib.Decide.{ℕ_discrete}
use iso_light_k.Alloc.{Word, scan, all_ones, trailing_ones}
use iso_light_k.Alloc.Word.{trailing_ones_lem}
use iso_light_k.Alloc.Frames.{IsBitmap}

-- Every word from `lo` up to below `hi` is full.
abbrev pub FullFrom : List Word → ℕ → ℕ → Type 0
FullFrom bitmap lo hi = (u : ℕ) → lo ≤ u → u < hi → all_ones (get_or bitmap u []) ≡ true

FullFrom-extend :
    (bitmap : List Word) (lo hi : ℕ)
    → all_ones (get_or bitmap lo []) ≡ true
    → FullFrom bitmap (lo + 1) hi
    → FullFrom bitmap lo hi
FullFrom-extend bitmap lo hi h rest u l m = elim (ℕ_discrete lo u) [
  | yes e ↦ rw (← e) h
  | no ne ↦ rest u (omega arith) m
]

module _ (words : ℕ) (bitmap : List Word) (shape : IsBitmap words bitmap) where
  first_in_range :
      (w : ℕ)
      → w < words
      → all_ones (get_or bitmap w []) ≡ false
      → trailing_ones (get_or bitmap w []) < 64
  first_in_range w h open_word =
      omega (arith, shape.filled w h, (trailing_ones_lem (get_or bitmap w []) open_word).0)

  pub scan-some :
      (n w wi b : ℕ)
      → w + n ≤ words
      → scan words n w bitmap ≡ some (wi, b)
      → (wi < words)
        × (b ≡ trailing_ones (get_or bitmap wi []))
        × (all_ones (get_or bitmap wi []) ≡ false)
        × FullFrom bitmap w wi
  unfolding scan
  scan-some zero w wi b l h = cc
  scan-some (suc n) w wi b l h = elim (Bool-cases (all_ones (get_or bitmap w []))) [
    | inl full ↦
        let (inside, eq, open_word, before) =
          scan-some n (w + 1) wi b (omega arith) (ground arith) in
        (inside, eq, open_word, FullFrom-extend bitmap w wi full before)
    | inr open_word ↦
        let same : w ≡ wi = ground arith in
        rw (← same) (omega arith, ground arith, open_word, λ u p q. absurd (omega arith))
  ]

  pub scan-none : (n w : ℕ) → w + n ≡ words → scan words n w bitmap ≡ none → FullFrom bitmap w words
  unfolding scan
  scan-none zero w l h = λ u p q. absurd (omega arith)
  scan-none (suc n) w l h = elim (Bool-cases (all_ones (get_or bitmap w []))) [
    | inl full ↦
        FullFrom-extend bitmap w words full (scan-none n (w + 1) (omega arith) (ground arith))
    | inr open_word ↦ absurd (ground (arith, first_in_range w (omega arith) open_word))
  ]
