-- ===== src/Alloc/Release.antt =====
-- Release of frames (src/allocator.rs).
use iso_light_k.Common.{
  ℕ, suc, ◌+◌, ◌*◌, ◌/◌, ◌%◌, ◌≤◌, ◌<◌, ◌≡◌, refl, min, ap, true, false, ◌==◌, leb, ltb,
  if◌then◌else◌, some, [], get_or, set, get_or-set_ne, Result, ok, err, arith,
}
use iso_light_k.Alloc.{
  Memory, secure_zero, AllocError, invalid_frame, double_free, frame_size, index,
  BitmapFrameAllocator, is_free, mark_free, alloc, dealloc,
}
use iso_light_k.Alloc.Laws.{alloc_lem, alloc-IsValid}
use iso_light_k.Alloc.Frames.{IsValid, write-IsBitmap, bit-write, total_free-release}

module _ (words : ℕ) (a : BitmapFrameAllocator) (f : ℕ) (memory : Memory) where
  -- The allocator after a release that is not refused.
  abbrev released : BitmapFrameAllocator
  released = record {
    bitmap =
        set a.bitmap (index f / 64) (set (get_or a.bitmap (index f / 64) []) (index f % 64) false);
    free_count = suc a.free_count;
    next_free_word = min (index f / 64) a.next_free_word;
  }

  dealloc-released :
      index f < words * 64
      → is_free a (index f) ≡ false
      → dealloc words a f memory ≡ (ok tt, released, secure_zero f frame_size memory)
  unfolding dealloc mark_free
  dealloc-released h used =
      let past : leb (words * 64) (index f) ≡ false = ground arith in
      rw (past, used, dealloc)
        (ap {B = Result AllocError (Unit {0}) × BitmapFrameAllocator × Memory}
          (λ (t : BitmapFrameAllocator). (ok tt, t, secure_zero f frame_size memory)) hint_moves)
    where
      hint_moves :
          (if ltb (index f / 64) a.next_free_word
            then record (record (mark_free a (index f)) { free_count = a.free_count + 1 }) {
              next_free_word = index f / 64;
            }
            else record (mark_free a (index f)) { free_count = a.free_count + 1 })
          ≡ released
      hint_moves = ground arith

  released-IsValid :
      IsValid words a → index f < words * 64 → is_free a (index f) ≡ false → IsValid words released
  unfolding is_free
  released-IsValid v h used = record {
    shape = write-IsBitmap words a.bitmap v.shape (index f / 64) (index f % 64) false (omega arith);
    counted = omega (
      arith,
      v.counted,
      total_free-release words a.bitmap v.shape (index f / 64) (index f % 64) (omega arith)
          (omega arith) (ground arith),
    );
    hint_in = omega (arith, v.hint_in);
    hint = λ u l.
        rw
          (get_or-set_ne a.bitmap (index f / 64) u
            (set (get_or a.bitmap (index f / 64) []) (index f % 64) false) [] (omega arith))
          (v.hint u (omega arith));
  }

  -- On a well-formed allocator a release is refused with `InvalidFrame` past the last frame and
  -- with `DoubleFree` for a frame that is free, and then changes nothing. Else the frame becomes
  -- free and is erased, every other frame is as before, the counter rises by one, and the
  -- allocator stays well-formed.
  pub dealloc_lem :
      IsValid words a
      → (words * 64 ≤ index f → dealloc words a f memory ≡ (err invalid_frame, a, memory))
        × (index f < words * 64
            → is_free a (index f) ≡ true
            → dealloc words a f memory ≡ (err double_free, a, memory))
        × (index f < words * 64
            → is_free a (index f) ≡ false
            → (a' : BitmapFrameAllocator) × (dealloc words a f memory
                ≡ (ok tt, a', secure_zero f frame_size memory))
              × IsValid words a'
              × (a'.free_count ≡ suc a.free_count)
              × ((j : ℕ) → is_free a' j ≡ (if index f == j then true else is_free a j)))
  unfolding dealloc is_free
  dealloc_lem v = (
    λ h. ground arith,
    λ h free. ground arith,
    λ h used. (
      released,
      dealloc-released h used,
      released-IsValid v h used,
      refl,
      λ j.
          rw
            (bit-write words a.bitmap v.shape (index f / 64) (index f % 64) false j (omega arith)
              (omega arith))
            (ground arith),
    ),
  )

-- A frame that a well-formed allocator gave out can be released, and the free frames and their
-- count are then those there were before the allocation.
pub dealloc-alloc :
    (words : ℕ) (a a' : BitmapFrameAllocator) (memory memory' : Memory) (f : ℕ)
    → IsValid words a
    → alloc words a memory ≡ some (f, a', memory')
    → (a'' : BitmapFrameAllocator) × (dealloc words a' f memory'
        ≡ (ok tt, a'', secure_zero f frame_size memory'))
      × (a''.free_count ≡ a.free_count)
      × ((j : ℕ) → is_free a'' j ≡ is_free a j)
dealloc-alloc words a a' memory memory' f v h =
    let (_, inside, was_free, _, same, count) = alloc_lem words a v memory f a' memory' h in
    let (a'', done, _, risen, freed) =
      (dealloc_lem words a' f memory' (alloc-IsValid words a v memory f a' memory' h)).2 inside
        (ground (arith, same (index f))) in
    (a'', done, omega arith, λ j. ground (arith, same j, freed j))
