-- ===== src/Elf/Laws.antt =====
-- What the checks of src/elf.rs mean for a header that passes them.
use iso_light_k.Common.{
  ℕ, zero, suc, ◌+◌, ◌*◌, ◌%◌, ◌^◌, ◌≤◌, ◌<◌, ◌≡◌, inl, inr, Bool-cases, true, ◌==◌, ok, arith,
}
use iso_light_k.Elf.{
  ProgramHeader, ElfHeader, is_power_below, check_load, check_header, user_end, page_size,
  max_program_headers,
}

is_power_below-some : (bits n : ℕ) → is_power_below bits n ≡ true → (k : ℕ) × (n ≡ 2 ^ k)
unfolding is_power_below
is_power_below-some zero n h = cc
is_power_below-some (suc bits) n h = elim (Bool-cases (n == 2 ^ bits)) [
  | inl e ↦ (bits, ground arith)
  | inr e ↦ is_power_below-some bits n (ground arith)
]

-- A segment that can be loaded from a file of `size` bytes.
pub record IsLoadable (size : ℕ) (h : ProgramHeader) : Type 0 where
  pub file_fits_memory : h.p_filesz ≤ h.p_memsz
  pub in_file : h.p_offset + h.p_filesz ≤ size
  pub aligned : h.p_vaddr % page_size ≡ 0
  pub in_user_half : h.p_vaddr + h.p_memsz ≤ user_end
  pub starts_in_user_half : h.p_vaddr < user_end
  pub align_at_least_page : page_size ≤ h.p_align
  pub align_is_power : (k : ℕ) × (h.p_align ≡ 2 ^ k)

pub check_load-IsLoadable :
    (size : ℕ) (h : ProgramHeader) → check_load size h ≡ ok tt → IsLoadable size h
unfolding check_load
check_load-IsLoadable size h e = record {
  file_fits_memory = ground arith;
  in_file = ground arith;
  aligned = ground arith;
  in_user_half = ground arith;
  starts_in_user_half = ground arith;
  align_at_least_page = ground arith;
  align_is_power = is_power_below-some 64 h.p_align (ground arith);
}

pub check_header_range :
    (size : ℕ) (h : ElfHeader)
    → check_header size h ≡ ok tt
    → (h.e_phnum ≤ max_program_headers) × (h.e_phoff + h.e_phnum * 56 ≤ size)
unfolding check_header
check_header_range size h e = (ground arith, ground arith)
