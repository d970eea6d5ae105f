-- ===== src/Alloc/Regions.antt =====
-- Ranges of addresses and the memory map in src/allocator.rs: which frames they free or reserve.
use iso_light_k.Common.{
  ℕ, suc, ◌+◌, ◌-◌, ◌*◌, ◌/◌, ◌%◌, ◌^◌, ◌≤◌, ◌<◌, ◌≡◌, inl, inr, refl, min, ◌∙◌, Bool, true, false,
  ◌&&◌, ◌||◌, Bool-cases, leb, ltb, if◌then◌else◌, List, [], ◌∷◌, length, get_or, arith,
}
use iso_light_k.MemoryMap.{MemoryRegion, MemoryMap, usable_regions}
use iso_light_k.Alloc.{
  Word, frame_size, BitmapFrameAllocator, is_free, free_frames, use_frames, all_ones,
  mark_range_free, mark_range_used, free_regions, init_from_memory_map, new,
}
use iso_light_k.Alloc.Word.{all_ones-get}
use iso_light_k.Alloc.Frames.{IsBitmap, IsValid, bit, new-IsValid, new-used}
use iso_light_k.Alloc.Ranges.{free_frames_lem, use_frames_lem}

-- A frame that lies wholly inside a range of addresses, and one that meets it.
abbrev pub inside : ℕ → ℕ → ℕ → Bool
inside base length j =
    leb base (j * frame_size) && leb (j * frame_size + frame_size) (base + length)

abbrev pub meets : ℕ → ℕ → ℕ → Bool
meets base length j = ltb base (j * frame_size + frame_size) && ltb (j * frame_size) (base + length)

all_ones_of_bits :
    (w : Word) → ((i : ℕ) → i < length w → get_or w i true ≡ true) → all_ones w ≡ true
unfolding all_ones
all_ones_of_bits [] h = refl
all_ones_of_bits (true ∷ w) h = all_ones_of_bits w (λ i l. h (suc i) (omega arith))
all_ones_of_bits (false ∷ w) h = absurd (clash (h 0 (omega arith)))
  where
    clash : false ≡ true → ⊥
    clash p = cc

-- A word none of whose frames is free is full.
full_word :
    (words : ℕ) (a : BitmapFrameAllocator) (u : ℕ)
    → IsBitmap words a.bitmap
    → u < words
    → ((i : ℕ) → i < 64 → is_free a (u * 64 + i) ≡ false)
    → all_ones (get_or a.bitmap u []) ≡ true
unfolding is_free
full_word words a u shape h used = all_ones_of_bits (get_or a.bitmap u []) λ i l.
    let small : i < 64 = omega (arith, shape.filled u h) in
    let word : (u * 64 + i) / 64 ≡ u = omega arith in
    let pos : (u * 64 + i) % 64 ≡ i = omega arith in
    let bit_eq : bit a.bitmap (u * 64 + i) ≡ get_or (get_or a.bitmap u []) i true =
      rw (word, pos) refl in
    ground (arith, used i small)

-- The hint follows a range that was freed below it.
abbrev lower_hint : ℕ → BitmapFrameAllocator → BitmapFrameAllocator
lower_hint i a = if ltb (i / 64) a.next_free_word then record a { next_free_word = i / 64 } else a

lower_hint_lem :
    (words n i : ℕ) (a : BitmapFrameAllocator)
    → IsValid words a
    → (0 < n → i + n ≤ words * 64)
    → IsValid words (lower_hint i (free_frames n i a))
      × ((j : ℕ)
          → is_free (lower_hint i (free_frames n i a)) j
            ≡ (if leb i j && ltb j (i + n) then true else is_free a j))
lower_hint_lem words n i a v h =
    let (loop, below) = free_frames_lem words n i a h v.shape v.counted in
    elim (Bool-cases (ltb (i / 64) (free_frames n i a).next_free_word)) [
      | inl lower ↦ rw lower (
        record {
          shape = loop.shape;
          counted = loop.counted;
          hint_in = ground (arith, loop.same_hint, v.hint_in);
          hint = λ u l. rw (below u l) (v.hint u (ground (arith, loop.same_hint)));
        },
        λ j. unfold is_free in loop.frames j,
      )
      | inr higher ↦ rw higher (
        record {
          shape = loop.shape;
          counted = loop.counted;
          hint_in = omega (arith, loop.same_hint, v.hint_in);
          hint = λ u l. rw (below u (ground arith)) (v.hint u (omega (arith, loop.same_hint)));
        },
        loop.frames,
      )
    ]

-- Where no address overflows, `mark_range_free` frees exactly the frames that lie wholly inside the
-- range, among those that the bitmap covers, leaves the others, and keeps the allocator well-formed.
pub mark_range_free_lem :
    (words : ℕ) (a : BitmapFrameAllocator) (base length : ℕ)
    → IsValid words a
    → base + length + frame_size < 2 ^ 64
    → IsValid words (mark_range_free words a base length)
      × ((j : ℕ)
          → is_free (mark_range_free words a base length) j
            ≡ (if ltb j (words * 64) && inside base length j then true else is_free a j))
unfolding mark_range_free
mark_range_free_lem words a base length v h =
    let s = (base + frame_size - 1) % 2 ^ 64 / frame_size * frame_size in
    let e = (base + length) % 2 ^ 64 / frame_size * frame_size in
    let n = min (e / frame_size) (words * 64) - s / frame_size in
    elim (Bool-cases (leb e s)) [
      | inl nothing ↦ rw nothing (v, λ j. ground arith)
      | inr some_frames ↦
          let (valid, frames) = lower_hint_lem words n (s / frame_size) a v (λ p. omega arith) in
          rw some_frames (valid, λ j. frames j ∙ ground arith)
    ]

-- Where no address overflows, `mark_range_used` on a well-formed allocator reserves exactly the
-- frames that meet the range, leaves the others, and keeps the allocator well-formed.
pub mark_range_used_lem :
    (words : ℕ) (a : BitmapFrameAllocator) (base length : ℕ)
    → IsValid words a
    → base + length + frame_size < 2 ^ 64
    → IsValid words (mark_range_used words a base length)
      × ((j : ℕ)
          → is_free (mark_range_used words a base length) j
            ≡ (if ltb j (words * 64) && meets base length j then false else is_free a j))
unfolding mark_range_used
mark_range_used_lem words a base length v h =
    let s = base / frame_size in
    let n = min (((base + length) % 2 ^ 64 + frame_size - 1) / frame_size) (words * 64) - s in
    let loop = use_frames_lem words n s a (λ p. omega arith) v.shape v.counted in
    (
      record {
        shape = loop.shape;
        counted = loop.counted;
        hint_in = omega (arith, loop.same_hint, v.hint_in);
        hint = λ u l.
            full_word words (use_frames n s a) u loop.shape
              (omega (arith, loop.same_hint, v.hint_in))
              λ i small. ground (
                arith,
                loop.frames (u * 64 + i),
                word_used u i small (v.hint u (omega (arith, loop.same_hint))),
              );
      },
      λ j. loop.frames j ∙ ground arith,
    )
  where
    word_used :
        (u i : ℕ) → i < 64 → all_ones (get_or a.bitmap u []) ≡ true → is_free a (u * 64 + i) ≡ false
    word_used u i small full =
        let word : (u * 64 + i) / 64 ≡ u = omega arith in
        let pos : (u * 64 + i) % 64 ≡ i = omega arith in
        unfold is_free in rw (word, pos) (rw (all_ones-get (get_or a.bitmap u []) i full) refl)

abbrev pub any_inside : List MemoryRegion → ℕ → Bool
any_inside [] j = false
any_inside (r ∷ rs) j = inside r.base r.length j || any_inside rs j

-- No end of a region comes near 2 ^ 64.
abbrev pub Fits : List MemoryRegion → Type 0
Fits [] = Unit {0}
Fits (r ∷ rs) = (r.base + r.length + frame_size < 2 ^ 64) × Fits rs

free_regions_lem :
    (words : ℕ) (a : BitmapFrameAllocator) (rs : List MemoryRegion)
    → IsValid words a
    → Fits rs
    → IsValid words (free_regions words a rs)
      × ((j : ℕ)
          → is_free (free_regions words a rs) j
            ≡ (if ltb j (words * 64) && any_inside rs j then true else is_free a j))
unfolding free_regions
free_regions_lem words a [] v h = (v, λ j. ground arith)
free_regions_lem words a (r ∷ rs) v h =
    let (valid, frames) = mark_range_free_lem words a r.base r.length v h.0 in
    let (valid', frames') =
      free_regions_lem words (mark_range_free words a r.base r.length) rs valid h.1 in
    (valid', λ j. ground (arith, frames j, frames' j))

-- Where no usable region ends near 2 ^ 64, after initialisation from a memory map exactly those
-- frames of the bitmap are free that lie wholly inside one of its usable regions, and the
-- allocator is well-formed.
pub init_from_memory_map_lem :
    (words : ℕ) (memory_map : MemoryMap)
    → Fits (usable_regions memory_map)
    → IsValid words (init_from_memory_map words (new words) memory_map)
      × ((j : ℕ)
          → is_free (init_from_memory_map words (new words) memory_map) j
            ≡ (ltb j (words * 64) && any_inside (usable_regions memory_map) j))
unfolding init_from_memory_map
init_from_memory_map_lem words memory_map fits =
    let (valid, frames) =
      free_regions_lem words (new words) (usable_regions memory_map) (new-IsValid words) fits in
    (valid, λ j. ground (arith, frames j, new-used words j))
