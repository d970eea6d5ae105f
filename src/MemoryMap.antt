-- ===== src/MemoryMap.antt =====
-- src/boot/memory_map.rs: the physical memory map that the boot loader hands over.
use iso_light_k.Common.{
  ℕ, ◌+◌, ◌%◌, ◌^◌, max, Bool, true, false, leb, if◌then◌else◌, List, [], ◌∷◌, take, set, replicate,
}

pub data MemoryKind : Type 0 where
  usable reserved acpi_reclaimable acpi_nvs bad_memory : MemoryKind

pub record MemoryRegion : Type 0 where
  pub base : ℕ
  pub length : ℕ
  pub kind : MemoryKind

abbrev pub max_regions : ℕ
max_regions = 64

abbrev pub default_region : MemoryRegion
default_region = record { base = 0; length = 0; kind = reserved }

pub record MemoryMap : Type 0 where
  pub table : List MemoryRegion
  pub count : ℕ

abbrev pub empty : MemoryMap
empty = record { table = replicate max_regions default_region; count = 0 }

-- A region beyond the last slot is dropped with no error.
unfoldable pub add_region : MemoryMap → MemoryRegion → MemoryMap
add_region m region =
    if leb max_regions m.count
    then m
    else record { table = set m.table m.count region; count = m.count + 1 }

unfoldable pub regions : MemoryMap → List MemoryRegion
regions m = take m.count m.table

abbrev pub is_usable : MemoryKind → Bool
is_usable usable = true
is_usable reserved = false
is_usable acpi_reclaimable = false
is_usable acpi_nvs = false
is_usable bad_memory = false

unfoldable pub keep_usable : List MemoryRegion → List MemoryRegion
keep_usable [] = []
keep_usable (r ∷ rs) = if is_usable r.kind then r ∷ keep_usable rs else keep_usable rs

unfoldable pub usable_regions : MemoryMap → List MemoryRegion
unfolding keep_usable regions
usable_regions m = keep_usable (regions m)

-- Sums of `u64`, where an overflow wraps, and the loops of the folds.
abbrev pub end : MemoryRegion → ℕ
end r = (r.base + r.length) % 2 ^ 64

pub sum_lengths : List MemoryRegion → ℕ → ℕ
sum_lengths [] acc = acc
sum_lengths (r ∷ rs) acc = sum_lengths rs ((acc + r.length) % 2 ^ 64)

unfoldable pub total_usable_bytes : MemoryMap → ℕ
unfolding sum_lengths usable_regions
total_usable_bytes m = sum_lengths (usable_regions m) 0

pub max_end : List MemoryRegion → ℕ → ℕ
max_end [] acc = acc
max_end (r ∷ rs) acc = max_end rs (max acc (end r))

unfoldable pub highest_addr : MemoryMap → ℕ
unfolding max_end regions
highest_addr m = max_end (regions m) 0
