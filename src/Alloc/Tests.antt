-- ===== src/Alloc/Tests.antt =====
-- Runs of the model of src/allocator.rs with a bitmap of one word, and the theorems at those inputs.
use iso_light_k.Common.{
  ℕ, suc, ◌*◌, ◌%◌, ◌≤◌, ◌<◌, ◌≡◌, refl, true, false, ◌&&◌, ltb, ◌==◌, if◌then◌else◌, some, [], ◌∷◌,
  replicate, ok, err, arith,
}
use iso_light_k.MemoryMap.{
  empty, keep_usable, regions, MemoryMap, usable, usable_regions, add_region,
}
use iso_light_k.Alloc.{
  Memory, BitmapFrameAllocator, invalid_frame, double_free, frame_size, index, new, is_free, alloc,
  dealloc, secure_zero, mark_range_free, init_from_memory_map, free_frames, mark_free, scan,
  all_ones, trailing_ones,
}
use iso_light_k.Alloc.Frames.{IsValid, new-IsValid}
use iso_light_k.Alloc.Laws.{alloc_lem, alloc-IsValid}
use iso_light_k.Alloc.Release.{dealloc_lem}
use iso_light_k.Alloc.Regions.{any_inside, Fits, mark_range_free_lem, init_from_memory_map_lem}

abbrev dirty : Memory
dirty address = 9

-- The frames 1 and 2 are free.
abbrev two_free : BitmapFrameAllocator
two_free = mark_range_free 1 (new 1) 4096 8192

two_free-IsValid : IsValid 1 two_free
two_free-IsValid = (mark_range_free_lem 1 (new 1) 4096 8192 (new-IsValid 1) (omega arith)).0

abbrev one_free : BitmapFrameAllocator
one_free = record {
  bitmap = (true ∷ true ∷ false ∷ replicate 61 true) ∷ [];
  free_count = 1;
  next_free_word = 0;
}

alloc_two : alloc 1 two_free dirty ≡ some (4096, one_free, secure_zero 4096 4096 dirty)
unfolding alloc scan all_ones trailing_ones mark_range_free free_frames is_free mark_free
alloc_two = refl

alloc_lem_example :
    (4096 % frame_size ≡ 0)
    × (index 4096 < 1 * 64)
    × (is_free two_free (index 4096) ≡ true)
    × ((j : ℕ) → j < index 4096 → is_free two_free j ≡ false)
    × ((j : ℕ) → is_free one_free j ≡ (if index 4096 == j then false else is_free two_free j))
    × (suc one_free.free_count ≡ two_free.free_count)
alloc_lem_example =
    alloc_lem 1 two_free two_free-IsValid dirty 4096 one_free (secure_zero 4096 4096 dirty)
      alloc_two

alloc-IsValid_example : IsValid 1 one_free
alloc-IsValid_example =
    alloc-IsValid 1 two_free two_free-IsValid dirty 4096 one_free (secure_zero 4096 4096 dirty)
      alloc_two

dealloc_lem_example :
    (1 * 64 ≤ index 4096 → dealloc 1 one_free 4096 dirty ≡ (err invalid_frame, one_free, dirty))
    × (index 4096 < 1 * 64
        → is_free one_free (index 4096) ≡ true
        → dealloc 1 one_free 4096 dirty ≡ (err double_free, one_free, dirty))
    × (index 4096 < 1 * 64
        → is_free one_free (index 4096) ≡ false
        → (a' : BitmapFrameAllocator) × (dealloc 1 one_free 4096 dirty
            ≡ (ok tt, a', secure_zero 4096 frame_size dirty))
          × IsValid 1 a'
          × (a'.free_count ≡ suc one_free.free_count)
          × ((j : ℕ) → is_free a' j ≡ (if index 4096 == j then true else is_free one_free j)))
dealloc_lem_example = dealloc_lem 1 one_free 4096 dirty alloc-IsValid_example

-- A map of one usable region.
abbrev one_region : MemoryMap
one_region = add_region empty (record { base = 5000; length = 20000; kind = usable })

one_region-Fits : Fits (usable_regions one_region)
unfolding usable_regions keep_usable regions add_region
one_region-Fits = (omega arith, tt)

init_from_memory_map_lem_example :
    IsValid 1 (init_from_memory_map 1 (new 1) one_region)
    × ((j : ℕ)
        → is_free (init_from_memory_map 1 (new 1) one_region) j
          ≡ (ltb j (1 * 64) && any_inside (usable_regions one_region) j))
init_from_memory_map_lem_example = init_from_memory_map_lem 1 one_region one_region-Fits
