-- ===== src/Alloc/Ranges.antt =====
-- Ranges of frames (src/allocator.rs): which frames a range frees or reserves.
use iso_light_k.Common.{
  ℕ, zero, suc, ◌+◌, ◌-◌, ◌*◌, ◌/◌, ◌%◌, ◌≤◌, ◌<◌, ◌≡◌, inl, inr, refl, ◌∙◌, Bool, true, false, not,
  ◌&&◌, Bool-cases, ◌==◌, leb, ltb, if◌then◌else◌, [], get_or, set, get_or-set_ne, arith,
}
use native.Mathlib.Decide.{ℕ_discrete}
use iso_light_k.Alloc.{BitmapFrameAllocator, is_free, mark_free, mark_used, free_frames, use_frames}
use iso_light_k.Alloc.Word.{total_free}
use iso_light_k.Alloc.Frames.{
  IsBitmap, write-IsBitmap, bit-write, total_free-use, total_free-release,
}

-- What a loop over frames leaves: the frames of the range are `free` or not, the others as before.
pub record Looped (words : ℕ) (n i : ℕ) (free : Bool) (a a' : BitmapFrameAllocator) : Type 0 where
  pub shape : IsBitmap words a'.bitmap
  pub counted : a'.free_count ≡ total_free a'.bitmap
  pub same_hint : a'.next_free_word ≡ a.next_free_word
  pub frames : (j : ℕ) → is_free a' j ≡ (if leb i j && ltb j (i + n) then free else is_free a j)

module _ (words : ℕ) (a : BitmapFrameAllocator) (i : ℕ) (h : i < words * 64)
    (shape : IsBitmap words a.bitmap) where
  mark_free_lem :
      is_free a i ≡ false
      → IsBitmap words (mark_free a i).bitmap
        × (total_free (mark_free a i).bitmap ≡ suc (total_free a.bitmap))
        × ((j : ℕ) → is_free (mark_free a i) j ≡ (if i == j then true else is_free a j))
        × ((u : ℕ) → u < i / 64 → get_or (mark_free a i).bitmap u [] ≡ get_or a.bitmap u [])
  unfolding mark_free is_free
  mark_free_lem used = (
    write-IsBitmap words a.bitmap shape (i / 64) (i % 64) false (omega arith),
    total_free-release words a.bitmap shape (i / 64) (i % 64) (omega arith) (omega arith)
        (ground arith),
    λ j.
        rw (bit-write words a.bitmap shape (i / 64) (i % 64) false j (omega arith) (omega arith))
          (ground arith),
    λ u l.
        get_or-set_ne a.bitmap (i / 64) u (set (get_or a.bitmap (i / 64) []) (i % 64) false) []
          (omega arith),
  )

  mark_used_lem :
      is_free a i ≡ true
      → IsBitmap words (mark_used a i).bitmap
        × (suc (total_free (mark_used a i).bitmap) ≡ total_free a.bitmap)
        × ((j : ℕ) → is_free (mark_used a i) j ≡ (if i == j then false else is_free a j))
  unfolding mark_used is_free
  mark_used_lem free = (
    write-IsBitmap words a.bitmap shape (i / 64) (i % 64) true (omega arith),
    total_free-use words a.bitmap shape (i / 64) (i % 64) (omega arith) (ground arith),
    λ j.
        rw (bit-write words a.bitmap shape (i / 64) (i % 64) true j (omega arith) (omega arith))
          (ground arith),
  )

  abbrev free_one : BitmapFrameAllocator
  free_one =
      if not (is_free a i) then record (mark_free a i) { free_count = a.free_count + 1 } else a

  abbrev use_one : BitmapFrameAllocator
  use_one = if is_free a i then record (mark_used a i) { free_count = a.free_count - 1 } else a

  same_hints :
      ((mark_free a i).next_free_word ≡ a.next_free_word)
      × ((mark_used a i).next_free_word ≡ a.next_free_word)
  unfolding mark_free mark_used
  same_hints = (refl, refl)

  same_frames :
      (j n : ℕ)
      → (is_free (record (mark_free a i) { free_count = n }) j ≡ is_free (mark_free a i) j)
        × (is_free (record (mark_used a i) { free_count = n }) j ≡ is_free (mark_used a i) j)
  unfolding is_free
  same_frames j n = (refl, refl)

  only_one :
      (j : ℕ) (b : Bool) → is_free a i ≡ b → (if i == j then b else is_free a j) ≡ is_free a j
  only_one j b e = elim (ℕ_discrete i j) [
    | yes p ↦ rw (← p) (rw e (ground arith))
    | no ne ↦ ground arith
  ]

  free_one_lem :
      a.free_count ≡ total_free a.bitmap
      → Looped words 1 i true a free_one
        × ((u : ℕ) → u < i / 64 → get_or free_one.bitmap u [] ≡ get_or a.bitmap u [])
  free_one_lem counted = elim (Bool-cases (is_free a i)) [
    | inl free ↦ rw free (
      record {
        shape = shape;
        counted = counted;
        same_hint = refl;
        frames = λ j. ground (arith, only_one j true free);
      },
      λ u l. refl,
    )
    | inr used ↦
        let (shape', total, frames, below) = mark_free_lem used in
        rw used (
          record {
            shape = shape';
            counted = omega arith;
            same_hint = same_hints.0;
            frames = λ j. ground (arith, frames j, same_frames j (a.free_count + 1));
          },
          below,
        )
  ]

  use_one_lem : a.free_count ≡ total_free a.bitmap → Looped words 1 i false a use_one
  use_one_lem counted = elim (Bool-cases (is_free a i)) [
    | inr used ↦ rw used record {
      shape = shape;
      counted = counted;
      same_hint = refl;
      frames = λ j. ground (arith, only_one j false used);
    }
    | inl free ↦
        let (shape', total, frames) = mark_used_lem free in
        rw free record {
          shape = shape';
          counted = omega arith;
          same_hint = same_hints.1;
          frames = λ j. ground (arith, frames j, same_frames j (a.free_count - 1));
        }
  ]

pub free_frames_lem :
    (words n i : ℕ) (a : BitmapFrameAllocator)
    → (0 < n → i + n ≤ words * 64)
    → IsBitmap words a.bitmap
    → a.free_count ≡ total_free a.bitmap
    → Looped words n i true a (free_frames n i a)
      × ((u : ℕ) → u < i / 64 → get_or (free_frames n i a).bitmap u [] ≡ get_or a.bitmap u [])
unfolding free_frames
free_frames_lem words zero i a h shape counted = (
  record { shape = shape; counted = counted; same_hint = refl; frames = λ j. ground arith },
  λ u l. refl,
)
free_frames_lem words (suc n) i a h shape counted =
    let (one, below₁) = free_one_lem words a i (omega (arith, h (omega arith))) shape counted in
    let (rest, below₂) =
      free_frames_lem words n (i + 1) (free_one words a i (omega (arith, h (omega arith))) shape)
        (λ p. omega (arith, h (omega arith))) one.shape one.counted in
    (
      record {
        shape = rest.shape;
        counted = rest.counted;
        same_hint = rest.same_hint ∙ one.same_hint;
        frames = λ j. ground (arith, rest.frames j, one.frames j);
      },
      λ u l. below₂ u (omega arith) ∙ below₁ u l,
    )

pub use_frames_lem :
    (words n i : ℕ) (a : BitmapFrameAllocator)
    → (0 < n → i + n ≤ words * 64)
    → IsBitmap words a.bitmap
    → a.free_count ≡ total_free a.bitmap
    → Looped words n i false a (use_frames n i a)
unfolding use_frames
use_frames_lem words zero i a h shape counted = record {
  shape = shape;
  counted = counted;
  same_hint = refl;
  frames = λ j. ground arith;
}
use_frames_lem words (suc n) i a h shape counted =
    let one = use_one_lem words a i (omega (arith, h (omega arith))) shape counted in
    let rest =
      use_frames_lem words n (i + 1) (use_one words a i (omega (arith, h (omega arith))) shape)
        (λ p. omega (arith, h (omega arith))) one.shape one.counted in
    record {
      shape = rest.shape;
      counted = rest.counted;
      same_hint = rest.same_hint ∙ one.same_hint;
      frames = λ j. ground (arith, rest.frames j, one.frames j);
    }
