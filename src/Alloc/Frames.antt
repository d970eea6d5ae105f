-- ===== src/Alloc/Frames.antt =====
-- The frames that a bitmap (src/allocator.rs) holds free, and the invariant of the allocator.
use iso_light_k.Common.{
  ℕ, zero, suc, ◌+◌, ◌*◌, ◌/◌, ◌%◌, ◌≤◌, ◌<◌, ◌≡◌, refl, sym, ◌∙◌, Bool, true, false, ◌==◌,
  if◌then◌else◌, List, [], ◌∷◌, length, get_or, set, length-set, get_or-set_self, get_or-set_ne,
  replicate, length-replicate, arith,
}
use native.Mathlib.Decide.{ℕ_discrete, dec_lt}
use iso_light_k.Alloc.{Word, BitmapFrameAllocator, is_free, all_ones, all_reserved, new}
use iso_light_k.Alloc.Word.{total_free, count_free-set-true, count_free-set-false, total_free-set}

-- The bit of a frame: clear if it is free.
abbrev pub bit : List Word → ℕ → Bool
bit bitmap i = get_or (get_or bitmap (i / 64) []) (i % 64) true

-- A bitmap of `words` words of 64 bits.
pub record IsBitmap (words : ℕ) (bitmap : List Word) : Type 0 where
  pub sized : length bitmap ≡ words
  pub filled : (w : ℕ) → w < words → length (get_or bitmap w []) ≡ 64

-- The counter counts the free frames, and no frame is free in a word below the hint.
pub record IsValid (words : ℕ) (a : BitmapFrameAllocator) : Type 0 where
  pub shape : IsBitmap words a.bitmap
  pub counted : a.free_count ≡ total_free a.bitmap
  pub hint_in : a.next_free_word ≤ words
  pub hint : (w : ℕ) → w < a.next_free_word → all_ones (get_or a.bitmap w []) ≡ true

module _ (words : ℕ) (bitmap : List Word) (shape : IsBitmap words bitmap) where
  -- Writing one bit of one word.
  pub write-IsBitmap :
      (w b : ℕ) (v : Bool)
      → w < words
      → IsBitmap words (set bitmap w (set (get_or bitmap w []) b v))
  write-IsBitmap w b v h = record {
    sized = length-set bitmap w (set (get_or bitmap w []) b v) ∙ shape.sized;
    filled = λ u l. elim (ℕ_discrete w u) [
      | yes e ↦ rw (← e) (
          rw
            (get_or-set_self bitmap w (set (get_or bitmap w []) b v) []
              (omega (arith, shape.sized)))
            (length-set (get_or bitmap w []) b v ∙ shape.filled w h))
      | no ne ↦
          rw (get_or-set_ne bitmap w u (set (get_or bitmap w []) b v) [] ne) (shape.filled u l)
    ];
  }

  pub bit-write :
      (w b : ℕ) (v : Bool) (j : ℕ)
      → w < words
      → b < 64
      → bit (set bitmap w (set (get_or bitmap w []) b v)) j
        ≡ (if (w * 64 + b) == j then v else bit bitmap j)
  bit-write w b v j h l = elim (ℕ_discrete w (j / 64)) [
    | no ne ↦
        rw (get_or-set_ne bitmap w (j / 64) (set (get_or bitmap w []) b v) [] ne) (ground arith)
    | yes e ↦ rw (← e) (
        rw (get_or-set_self bitmap w (set (get_or bitmap w []) b v) [] (omega (arith, shape.sized)))
          (elim (ℕ_discrete b (j % 64)) [
            | no ne ↦ rw (get_or-set_ne (get_or bitmap w []) b (j % 64) v true ne) (ground arith)
            | yes e' ↦ rw (← e') (
                rw (get_or-set_self (get_or bitmap w []) b v true (omega (arith, shape.filled w h)))
                  (ground arith))
          ]))
  ]

  pub total_free-use :
      (w b : ℕ)
      → w < words
      → get_or (get_or bitmap w []) b true ≡ false
      → suc (total_free (set bitmap w (set (get_or bitmap w []) b true))) ≡ total_free bitmap
  total_free-use w b h clear = omega (
    arith,
    total_free-set bitmap w (set (get_or bitmap w []) b true) (omega (arith, shape.sized)),
    count_free-set-true (get_or bitmap w []) b clear,
  )

  pub total_free-release :
      (w b : ℕ)
      → w < words
      → b < 64
      → get_or (get_or bitmap w []) b true ≡ true
      → total_free (set bitmap w (set (get_or bitmap w []) b false)) ≡ suc (total_free bitmap)
  total_free-release w b h l used = omega (
    arith,
    total_free-set bitmap w (set (get_or bitmap w []) b false) (omega (arith, shape.sized)),
    count_free-set-false (get_or bitmap w []) b (omega (arith, shape.filled w h)) used,
  )

get_or-replicate : (n i : ℕ) (w : Word) → i < n → get_or (replicate n w) i [] ≡ w
get_or-replicate zero i w h = absurd (omega arith)
get_or-replicate (suc n) zero w h = refl
get_or-replicate (suc n) (suc i) w h = get_or-replicate n i w (omega arith)

total_free-reserved : (n : ℕ) → total_free (replicate n all_reserved) ≡ 0
total_free-reserved zero = refl
total_free-reserved (suc n) = omega (arith, total_free-reserved n)

-- The new allocator is well-formed, and no frame is free.
pub new-IsValid : (words : ℕ) → IsValid words (new words)
new-IsValid words = record {
  shape = record {
    sized = length-replicate words all_reserved;
    filled = λ w h. rw (get_or-replicate words w all_reserved h) refl;
  };
  counted = sym (total_free-reserved words);
  hint_in = omega arith;
  hint = λ w h. absurd (omega arith);
}

pub get_or-past : (ws : List Word) (k : ℕ) → length ws ≤ k → get_or ws k [] ≡ []
get_or-past [] k h = refl
get_or-past (w ∷ ws) zero h = absurd (omega arith)
get_or-past (w ∷ ws) (suc k) h = get_or-past ws k (omega arith)

-- A frame that is free is one of the words' frames and counted.
pub is_free-lt :
    (words : ℕ) (bitmap : List Word) (i : ℕ)
    → IsBitmap words bitmap
    → bit bitmap i ≡ false
    → i / 64 < words
is_free-lt words bitmap i shape h = elim (dec_lt (i / 64) words) [
  | yes l ↦ l
  | no ge ↦ absurd (outside (rw (get_or-past bitmap (i / 64) (omega (arith, shape.sized))) at h))
]
  where
    outside : true ≡ false → ⊥
    outside p = cc

-- Of the new allocator no frame is free.
pub new-used : (words j : ℕ) → is_free (new words) j ≡ false
unfolding is_free
new-used words j = elim (dec_lt (j / 64) words) [
  | yes l ↦
      rw (get_or-replicate words (j / 64) all_reserved l)
        (rw (reserved_bit (j % 64) (omega arith)) refl)
  | no ge ↦
      rw
        (get_or-past (replicate words all_reserved) (j / 64)
          (omega (arith, length-replicate words all_reserved)))
        refl
]
  where
    set_bits : (n i : ℕ) → i < n → get_or (replicate n true) i true ≡ true
    set_bits zero i h = absurd (omega arith)
    set_bits (suc n) zero h = refl
    set_bits (suc n) (suc i) h = set_bits n i (omega arith)

    reserved_bit : (i : ℕ) → i < 64 → get_or all_reserved i true ≡ true
    reserved_bit i h = set_bits 64 i h
