-- ===== src/Elf.antt =====
-- src/elf.rs, and `is_user_va` of src/arch/x86_64/mmu.rs: the parser of static ELF64 executables.
-- The file is the list of its bytes, an unaligned read of a packed struct is the little-endian value
-- of its fields, and a mask of the low 12 bits is a remainder.
pub mod Laws
pub mod Loads
pub mod Image
mod Tests
use iso_light_k.Common.{
  ℕ, zero, suc, ◌+◌, ◌-◌, ◌*◌, ◌/◌, ◌%◌, ◌^◌, bit_and, Bool, true, false, not, ◌&&◌, ◌||◌, ltb, leb,
  ◌==◌, if◌then◌else◌, List, [], ◌∷◌, length, take, drop, set, replicate, Result, ok, err,
}
use iso_light_k.Common.Bytes.{field}

abbrev pub max_program_headers : ℕ
max_program_headers = 8

abbrev pub page_size : ℕ
page_size = 4096

-- The end of the user half, and the modulus of `u64`.
abbrev pub user_end : ℕ
user_end = 0x800000000000

abbrev pub pt_load : ℕ
pt_load = 1

abbrev pub pt_dynamic : ℕ
pt_dynamic = 2

abbrev pub pt_interp : ℕ
pt_interp = 3

pub data ElfError : Type 0 where
  truncated bad_magic unsupported_format unsupported_target bad_phent_size too_many_headers
        phdr_out_of_bounds :
      ElfError
  segment_out_of_bounds bad_segment_layout bad_virtual_address dynamic_linking_rejected : ElfError

pub record ProgramHeader : Type 0 where
  pub p_type : ℕ
  pub p_flags : ℕ
  pub p_offset : ℕ
  pub p_vaddr : ℕ
  pub p_filesz : ℕ
  pub p_memsz : ℕ
  pub p_align : ℕ

pub record ProgramHeaderArray : Type 0 where
  pub headers : List ProgramHeader
  pub len : ℕ

pub record Elf64Image : Type 0 where
  pub entry : ℕ
  pub loads : ProgramHeaderArray
  pub raw : List ℕ

-- The fields of the ELF header that the parser looks at.
pub record ElfHeader : Type 0 where
  pub e_ident_magic : ℕ
  pub e_ident_class : ℕ
  pub e_ident_data : ℕ
  pub e_ident_version : ℕ
  pub e_type : ℕ
  pub e_machine : ℕ
  pub e_version : ℕ
  pub e_entry : ℕ
  pub e_phoff : ℕ
  pub e_phentsize : ℕ
  pub e_phnum : ℕ

abbrev pub is_executable : ProgramHeader → Bool
is_executable h = not (bit_and h.p_flags 1 == 0)

abbrev pub is_writable : ProgramHeader → Bool
is_writable h = not (bit_and h.p_flags 2 == 0)

unfoldable pub read_elf_header : List ℕ → ElfHeader
read_elf_header bytes = record {
  e_ident_magic = field bytes 0 4;
  e_ident_class = field bytes 4 1;
  e_ident_data = field bytes 5 1;
  e_ident_version = field bytes 6 1;
  e_type = field bytes 16 2;
  e_machine = field bytes 18 2;
  e_version = field bytes 20 4;
  e_entry = field bytes 24 8;
  e_phoff = field bytes 32 8;
  e_phentsize = field bytes 54 2;
  e_phnum = field bytes 56 2;
}

-- `p_paddr`, at 24, is not looked at.
unfoldable pub read_program_header : List ℕ → ℕ → ProgramHeader
read_program_header bytes offset = record {
  p_type = field bytes offset 4;
  p_flags = field bytes (offset + 4) 4;
  p_offset = field bytes (offset + 8) 8;
  p_vaddr = field bytes (offset + 16) 8;
  p_filesz = field bytes (offset + 32) 8;
  p_memsz = field bytes (offset + 40) 8;
  p_align = field bytes (offset + 48) 8;
}

abbrev pub default_header : ProgramHeader
default_header = record {
  p_type = 0;
  p_flags = 0;
  p_offset = 0;
  p_vaddr = 0;
  p_filesz = 0;
  p_memsz = 0;
  p_align = 0;
}

abbrev pub is_user_va : ℕ → Bool
is_user_va va = ltb va user_end && va % page_size == 0

-- Whether a number is a power of two below `2 ^ bits`.
pub is_power_below : ℕ → ℕ → Bool
is_power_below zero n = false
is_power_below (suc bits) n = n == 2 ^ bits || is_power_below bits n

abbrev pub is_power_of_two : ℕ → Bool
is_power_of_two n = is_power_below 64 n

-- The checks of a segment to load, in order; a checked sum of `u64` fails from `2 ^ 64` on.
unfoldable pub check_load : ℕ → ProgramHeader → Result ElfError (Unit {0})
unfolding is_power_below
check_load size h =
    if ltb h.p_memsz h.p_filesz
    then err bad_segment_layout
    else if ltb h.p_align page_size
    then err bad_segment_layout
    else if not (is_power_of_two h.p_align)
    then err bad_segment_layout
    else if leb (2 ^ 64) (h.p_offset + h.p_filesz)
    then err segment_out_of_bounds
    else if ltb size (h.p_offset + h.p_filesz)
    then err segment_out_of_bounds
    else if not (is_user_va h.p_vaddr)
    then err bad_virtual_address
    else if leb (2 ^ 64) (h.p_vaddr + h.p_memsz)
    then err bad_virtual_address
    else if ltb user_end (h.p_vaddr + h.p_memsz)
    then err bad_virtual_address
    else ok tt

abbrev pub is_dynamic : ProgramHeader → Bool
is_dynamic h = h.p_type == pt_interp || h.p_type == pt_dynamic

abbrev pub push_header : ProgramHeaderArray → ProgramHeader → ProgramHeaderArray
push_header a h = record { headers = set a.headers a.len h; len = a.len + 1 }

abbrev pub header_at : List ℕ → ℕ → ℕ → ProgramHeader
header_at bytes phoff i = read_program_header bytes (phoff + i * 56)

-- The loop over the program headers from index `i` on, `left` of them.
pub scan_headers : List ℕ → ℕ → ℕ → ℕ → ProgramHeaderArray → Result ElfError ProgramHeaderArray
scan_headers bytes phoff zero i loads = ok loads
scan_headers bytes phoff (suc left) i loads =
    if is_dynamic (header_at bytes phoff i)
    then err dynamic_linking_rejected
    else if not ((header_at bytes phoff i).p_type == pt_load)
    then scan_headers bytes phoff left (i + 1) loads
    else elim (check_load (length bytes) (header_at bytes phoff i)) [
      | err e ↦ err e
      | ok u ↦ scan_headers bytes phoff left (i + 1) (push_header loads (header_at bytes phoff i))
    ]

-- The checks of the ELF header, and of the range of the program headers.
unfoldable pub check_header : ℕ → ElfHeader → Result ElfError (Unit {0})
check_header size h =
    if not (h.e_ident_magic == 0x464c457f)
    then err bad_magic
    else if not (h.e_ident_class == 2) || not (h.e_ident_data == 1) || not (h.e_ident_version == 1)
    then err unsupported_format
    else if not (h.e_machine == 62) || not (h.e_version == 1)
    then err unsupported_target
    else if not (h.e_type == 2) && not (h.e_type == 3)
    then err unsupported_target
    else if not (h.e_phentsize == 56)
    then err bad_phent_size
    else if ltb max_program_headers h.e_phnum
    then err too_many_headers
    else if leb (2 ^ 64) (h.e_phoff + h.e_phnum * 56)
    then err phdr_out_of_bounds
    else if ltb size (h.e_phoff + h.e_phnum * 56)
    then err phdr_out_of_bounds
    else ok tt

abbrev pub no_loads : ProgramHeaderArray
no_loads = record { headers = replicate max_program_headers default_header; len = 0 }

unfoldable pub parse : List ℕ → Result ElfError Elf64Image
parse bytes =
    let h = read_elf_header bytes in
    if ltb (length bytes) 64 then err truncated else elim (check_header (length bytes) h) [
      | err e ↦ err e
      | ok u ↦ elim (scan_headers bytes h.e_phoff h.e_phnum 0 no_loads) [
        | err e ↦ err e
        | ok found ↦
            if not (is_user_va (h.e_entry / page_size * page_size))
            then err bad_virtual_address
            else ok (record { entry = h.e_entry; loads = found; raw = bytes })
      ]
    ]
