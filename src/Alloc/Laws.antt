-- ===== src/Alloc/Laws.antt =====
-- Allocation of frames (src/allocator.rs): which frame it takes, and what stays as it was.
use iso_light_k.Common.{
  ℕ, suc, ◌+◌, ◌-◌, ◌*◌, ◌/◌, ◌%◌, ◌≤◌, ◌<◌, ◌≡◌, ◌↔◌, ◌⊎◌, inl, inr, refl, sym, ap, ◌∙◌, true,
  false, not, ◌==◌, if◌then◌else◌, Option, none, some, Option-cases, [], get_or, set, get_or-set_ne,
  arith,
}
use native.Mathlib.Decide.{dec_lt}
use iso_light_k.Alloc.{
  Memory, secure_zero, frame_size, index, BitmapFrameAllocator, is_free, scan, alloc, all_ones,
}
use iso_light_k.Alloc.Word.{
  count_free-le-total, total_free-full, all_ones-get, all_ones-pos, trailing_ones_lem,
}
use iso_light_k.Alloc.Frames.{IsValid, bit, write-IsBitmap, bit-write, total_free-use, get_or-past}
use iso_light_k.Alloc.Scan.{FullFrom, scan-some, scan-none}

pub is_free-bit : (a : BitmapFrameAllocator) (i : ℕ) → is_free a i ≡ not (bit a.bitmap i)
unfolding is_free
is_free-bit a i = refl

module _ (words : ℕ) (a : BitmapFrameAllocator) (v : IsValid words a) (memory : Memory) where
  full_below :
      (hi w : ℕ)
      → FullFrom a.bitmap a.next_free_word hi
      → w < hi
      → all_ones (get_or a.bitmap w []) ≡ true
  full_below hi w full l = elim (dec_lt w a.next_free_word) [
    | yes below ↦ v.hint w below
    | no ge ↦ full w (omega arith) l
  ]

  scan-none_full :
      scan words (words - a.next_free_word) a.next_free_word a.bitmap ≡ none → a.free_count ≡ 0
  scan-none_full h =
      v.counted
      ∙ total_free-full a.bitmap λ w. elim (dec_lt w words) [
        | yes l ↦
            full_below words w
              (scan-none words a.bitmap v.shape (words - a.next_free_word) a.next_free_word
                (omega (arith, v.hint_in)) h)
              l
        | no ge ↦
            rw (get_or-past a.bitmap w (omega (arith, v.shape.sized))) (unfold all_ones in refl)
      ]

  -- The word and the bit that the scan stops at.
  record Found (w b : ℕ) : Type 0 where
    inside : w < words
    bit_in : b < 64
    clear : get_or (get_or a.bitmap w []) b true ≡ false
    before : (j : ℕ) → j < w * 64 + b → bit a.bitmap j ≡ true
    full : (u : ℕ) → u < w → all_ones (get_or a.bitmap u []) ≡ true
    counted : 0 < a.free_count

  scan-Found :
      (w b : ℕ)
      → scan words (words - a.next_free_word) a.next_free_word a.bitmap ≡ some (w, b)
      → Found w b
  scan-Found w b h =
      let (inside, eq, open_word, full) =
        scan-some words a.bitmap v.shape (words - a.next_free_word) a.next_free_word w b
          (omega (arith, v.hint_in)) h in
      let (bit_in, clear, below) = trailing_ones_lem (get_or a.bitmap w []) open_word in
      record {
        inside = inside;
        bit_in = omega (arith, v.shape.filled w inside);
        clear = rw eq clear;
        before = λ j l. elim (dec_lt (j / 64) w) [
          | yes lower ↦
              all_ones-get (get_or a.bitmap (j / 64) []) (j % 64) (full_below w (j / 64) full lower)
          | no same ↦
              let here : j / 64 ≡ w = omega (arith, v.shape.filled w inside) in
              rw here (below (j % 64) (omega arith))
        ];
        full = λ u l. full_below w u full l;
        counted = omega (
          arith,
          v.counted,
          all_ones-pos (get_or a.bitmap w []) open_word,
          count_free-le-total a.bitmap w,
        );
      }

  abbrev taken : ℕ → ℕ → BitmapFrameAllocator
  taken w b = record {
    bitmap = set a.bitmap w (set (get_or a.bitmap w []) b true);
    free_count = a.free_count - 1;
    next_free_word = w;
  }

  alloc-Found :
      (f : ℕ) (a' : BitmapFrameAllocator) (memory' : Memory)
      → alloc words a memory ≡ some (f, a', memory')
      → (w : ℕ) × (b : ℕ) × Found w b
        × (f ≡ (w * 64 + b) * frame_size)
        × (a' ≡ taken w b)
        × (memory' ≡ secure_zero f frame_size memory)
  unfolding alloc
  alloc-Found f a' memory' h =
      elim (Option-cases (scan words (words - a.next_free_word) a.next_free_word a.bitmap)) [
        | inl e ↦ absurd (ground arith)
        | inr ((w, b), e) ↦
            (w, b, scan-Found w b e, ground arith, ground arith, erased w b (unfolded_at w b e))
      ]
    where
      unfolded_at :
          (w b : ℕ)
          → scan words (words - a.next_free_word) a.next_free_word a.bitmap ≡ some (w, b)
          → alloc words a memory
            ≡ some (
              (w * 64 + b) * frame_size,
              taken w b,
              secure_zero ((w * 64 + b) * frame_size) frame_size memory,
            )
      unfolded_at w b e = rw (e, alloc) refl

      erased :
          (w b : ℕ)
          → alloc words a memory
            ≡ some (
              (w * 64 + b) * frame_size,
              taken w b,
              secure_zero ((w * 64 + b) * frame_size) frame_size memory,
            )
          → memory' ≡ secure_zero f frame_size memory
      erased w b p =
          let g : Option (ℕ × BitmapFrameAllocator × Memory) → Memory =
            λ o. elim o [ none ↦ memory | some t ↦ t.2 ] in
          let fr : Option (ℕ × BitmapFrameAllocator × Memory) → ℕ =
            λ o. elim o [ none ↦ 0 | some t ↦ t.0 ] in
          let same : f ≡ (w * 64 + b) * frame_size = ap fr (sym h ∙ p) in rw same (ap g (sym h ∙ p))

  -- On a well-formed allocator allocation fails exactly when the counter of free frames is 0.
  pub alloc-none : (alloc words a memory ≡ none) ↔ (a.free_count ≡ 0)
  unfolding alloc
  alloc-none =
      elim (Option-cases (scan words (words - a.next_free_word) a.next_free_word a.bitmap)) [
        | inl e ↦ (λ h. scan-none_full e, λ h. ground arith)
        | inr ((w, b), e) ↦
            (λ h. absurd (ground arith), λ h. absurd (omega (arith, (scan-Found w b e).counted)))
      ]

  -- The frame that a well-formed allocator allocates is aligned, was free, and is the lowest free
  -- one; it is then in use, every other frame is as before, and the counter falls by one.
  pub alloc_lem :
      (f : ℕ) (a' : BitmapFrameAllocator) (memory' : Memory)
      → alloc words a memory ≡ some (f, a', memory')
      → (f % frame_size ≡ 0)
        × (index f < words * 64)
        × (is_free a (index f) ≡ true)
        × ((j : ℕ) → j < index f → is_free a j ≡ false)
        × ((j : ℕ) → is_free a' j ≡ (if index f == j then false else is_free a j))
        × (suc a'.free_count ≡ a.free_count)
  unfolding is_free
  alloc_lem f a' memory' h =
      let (w, b, found, at, new, _) = alloc-Found f a' memory' h in
      let idx : index f ≡ w * 64 + b = omega arith in
      let word : index f / 64 ≡ w = omega (arith, found.bit_in) in
      let pos : index f % 64 ≡ b = omega (arith, found.bit_in) in
      (
        omega arith,
        omega (arith, found.bit_in, found.inside),
        rw (word, pos) (rw found.clear refl),
        λ j l. rw (found.before j (omega arith)) refl,
        λ j.
            rw (new, idx)
              (rw (bit-write words a.bitmap v.shape w b true j found.inside found.bit_in)
                (ground arith)),
        rw new (omega (arith, found.counted)),
      )

  -- Allocation keeps a well-formed allocator well-formed.
  pub alloc-IsValid :
      (f : ℕ) (a' : BitmapFrameAllocator) (memory' : Memory)
      → alloc words a memory ≡ some (f, a', memory')
      → IsValid words a'
  alloc-IsValid f a' memory' h =
      let (w, b, found, _, new, _) = alloc-Found f a' memory' h in
      rw new record {
        shape = write-IsBitmap words a.bitmap v.shape w b true found.inside;
        counted = omega (
          arith,
          v.counted,
          found.counted,
          total_free-use words a.bitmap v.shape w b found.inside found.clear,
        );
        hint_in = omega (arith, found.inside);
        hint = λ u l.
            rw (get_or-set_ne a.bitmap w u (set (get_or a.bitmap w []) b true) [] (omega arith))
              (found.full u l);
      }

  -- When a well-formed allocator gives out a frame, the bytes of the frame are 0 and the rest of
  -- memory is as before.
  pub alloc_erases :
      (f : ℕ) (a' : BitmapFrameAllocator) (memory' : Memory)
      → alloc words a memory ≡ some (f, a', memory')
      → (x : ℕ)
      → (f ≤ x → x < f + frame_size → memory' x ≡ 0)
        × ((x < f) ⊎ (f + frame_size ≤ x) → memory' x ≡ memory x)
  alloc_erases f a' memory' h x =
      let (_, _, _, _, _, erased) = alloc-Found f a' memory' h in
      rw erased (λ p q. ground arith, λ p. ground arith)
