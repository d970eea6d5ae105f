-- ===== src/Alloc.antt =====
-- src/allocator.rs: the bitmap allocator of physical frames. A 64-bit word of the bitmap is the list
-- of its bits, the least significant first; a set bit is a frame in use. The number of words
-- (BITMAP_WORDS, 16384 in the code) is the parameter `words`. The static FRAME_ALLOCATOR is the
-- argument of each function, and physical memory is a function from addresses to bytes.
pub mod Word
pub mod Frames
pub mod Scan
pub mod Laws
pub mod Release
pub mod Ranges
pub mod Regions
mod Tests
use iso_light_k.Common.{
  ℕ, zero, suc, ◌+◌, ◌-◌, ◌*◌, ◌/◌, ◌%◌, ◌^◌, min, Bool, true, false, not, ◌&&◌, ltb, leb, ◌==◌,
  if◌then◌else◌, Option, none, some, List, [], ◌∷◌, length, get_or, set, replicate, Result, ok, err,
}
use iso_light_k.MemoryMap.{MemoryMap, MemoryRegion, usable_regions}

abbrev pub frame_size : ℕ
frame_size = 4096

abbrev pub Word : Type 0
Word = List Bool

abbrev pub Memory : Type 0
Memory = ℕ → ℕ

-- `zeroize::volatile::secure_zero`: `n` bytes from `start` on become 0.
abbrev pub secure_zero : ℕ → ℕ → Memory → Memory
secure_zero start n memory x = if leb start x && ltb x (start + n) then 0 else memory x

pub data AllocError : Type 0 where
  out_of_memory invalid_frame double_free : AllocError

-- `PhysFrame` is its address; `addr & (FRAME_SIZE - 1)` is the remainder.
unfoldable pub from_addr : ℕ → Option ℕ
from_addr addr = if addr % frame_size == 0 then some addr else none

abbrev pub index : ℕ → ℕ
index frame = frame / frame_size

pub record BitmapFrameAllocator : Type 0 where
  pub bitmap : List Word
  pub free_count : ℕ
  pub next_free_word : ℕ

abbrev pub all_reserved : Word
all_reserved = replicate 64 true

-- A read outside the bitmap, which panics in the code, counts as in use here.
unfoldable pub is_free : BitmapFrameAllocator → ℕ → Bool
is_free a frame_idx = not (get_or (get_or a.bitmap (frame_idx / 64) []) (frame_idx % 64) true)

abbrev write_bit : List Word → ℕ → Bool → List Word
write_bit bitmap frame_idx b =
    set bitmap (frame_idx / 64) (set (get_or bitmap (frame_idx / 64) []) (frame_idx % 64) b)

unfoldable pub mark_used : BitmapFrameAllocator → ℕ → BitmapFrameAllocator
mark_used a frame_idx = record a { bitmap = write_bit a.bitmap frame_idx true }

unfoldable pub mark_free : BitmapFrameAllocator → ℕ → BitmapFrameAllocator
mark_free a frame_idx = record a { bitmap = write_bit a.bitmap frame_idx false }

-- The loops of the range operations, over the `n` frames from `i` on.
pub free_frames : ℕ → ℕ → BitmapFrameAllocator → BitmapFrameAllocator
free_frames zero i a = a
free_frames (suc n) i a =
    let a' : BitmapFrameAllocator =
      if not (is_free a i) then record (mark_free a i) { free_count = a.free_count + 1 } else a in
    free_frames n (i + 1) a'

pub use_frames : ℕ → ℕ → BitmapFrameAllocator → BitmapFrameAllocator
use_frames zero i a = a
use_frames (suc n) i a =
    let a' : BitmapFrameAllocator =
      if is_free a i then record (mark_used a i) { free_count = a.free_count - 1 } else a in
    use_frames n (i + 1) a'

-- The scan for a word that is not `u64::MAX`.
pub all_ones : Word → Bool
all_ones [] = true
all_ones (b ∷ w) = b && all_ones w

unfoldable pub trailing_ones : Word → ℕ
trailing_ones [] = 0
trailing_ones (false ∷ w) = 0
trailing_ones (true ∷ w) = suc (trailing_ones w)

module _ (words : ℕ) where
  abbrev pub max_frames : ℕ
  max_frames = words * 64

  abbrev pub new : BitmapFrameAllocator
  new = record { bitmap = replicate words all_reserved; free_count = 0; next_free_word = 0 }

  -- `u64` addition, where an overflow wraps.
  unfoldable pub mark_range_free : BitmapFrameAllocator → ℕ → ℕ → BitmapFrameAllocator
  mark_range_free a base length =
      let aligned_base = (base + frame_size - 1) % 2 ^ 64 / frame_size * frame_size in
      let aligned_end = (base + length) % 2 ^ 64 / frame_size * frame_size in
      if leb aligned_end aligned_base
      then a
      else let start_idx = aligned_base / frame_size in
        let end_idx = min (aligned_end / frame_size) max_frames in
        let a' = free_frames (end_idx - start_idx) start_idx a in
        if ltb (start_idx / 64) a'.next_free_word
        then record a' { next_free_word = start_idx / 64 }
        else a'

  pub free_regions : BitmapFrameAllocator → List MemoryRegion → BitmapFrameAllocator
  free_regions a [] = a
  free_regions a (r ∷ rs) = free_regions (mark_range_free a r.base r.length) rs

  unfoldable pub init_from_memory_map : BitmapFrameAllocator → MemoryMap → BitmapFrameAllocator
  unfolding free_regions
  init_from_memory_map a memory_map = free_regions a (usable_regions memory_map)

  -- `div_ceil` rounds the end up.
  unfoldable pub mark_range_used : BitmapFrameAllocator → ℕ → ℕ → BitmapFrameAllocator
  mark_range_used a base length =
      let start_idx = base / frame_size in
      let end_idx = min (((base + length) % 2 ^ 64 + frame_size - 1) / frame_size) max_frames in
      use_frames (end_idx - start_idx) start_idx a

  -- The loop of `alloc` over the words left: the word and the bit of the frame that it takes.
  unfoldable pub scan : ℕ → ℕ → List Word → Option (ℕ × ℕ)
  scan zero word_idx bitmap = none
  scan (suc n) word_idx bitmap =
      let word = get_or bitmap word_idx [] in
      let rest = scan n (word_idx + 1) bitmap in
      if all_ones word
      then rest
      else if leb max_frames (word_idx * 64 + trailing_ones word)
      then none
      else some (word_idx, trailing_ones word)

  -- The frame, the allocator and the memory, in which the frame is erased.
  unfoldable pub alloc : BitmapFrameAllocator → Memory → Option (ℕ × BitmapFrameAllocator × Memory)
  alloc a memory = elim (scan (words - a.next_free_word) a.next_free_word a.bitmap) [
    | none ↦ none
    | some (word_idx, bit) ↦
        let frame = (word_idx * 64 + bit) * frame_size in
        some (
          frame,
          record {
            bitmap = set a.bitmap word_idx (set (get_or a.bitmap word_idx []) bit true);
            free_count = a.free_count - 1;
            next_free_word = word_idx;
          },
          secure_zero frame frame_size memory,
        )
  ]

  unfoldable pub dealloc :
      BitmapFrameAllocator
      → ℕ
      → Memory
      → Result AllocError (Unit {0}) × BitmapFrameAllocator × Memory
  dealloc a frame memory =
      let idx = index frame in
      if leb max_frames idx
      then (err invalid_frame, a, memory)
      else if is_free a idx
      then (err double_free, a, memory)
      else let a' : BitmapFrameAllocator = record (mark_free a idx) {
        free_count = a.free_count + 1;
      } in
        (
          ok tt,
          (if ltb (idx / 64) a'.next_free_word
              then record a' { next_free_word = idx / 64 }
              else a'),
          secure_zero frame frame_size memory,
        )
