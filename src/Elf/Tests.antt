-- ===== src/Elf/Tests.antt =====
-- The parser of src/elf.rs on a file of one segment.
use iso_light_k.Common.{ℕ, ◌≡◌, refl, List, [], ◌∷◌, ◌++◌, replicate, ok}
use iso_light_k.Elf.{
  Elf64Image, default_header, parse, read_elf_header, read_program_header, check_header, check_load,
  scan_headers, is_power_below,
}
use iso_light_k.Elf.Image.{IsImage, parse-IsImage}
use iso_light_k.Common.Bytes.{little_endian}

abbrev elf_header_bytes : List ℕ
elf_header_bytes =
    127 ∷ 69 ∷ 76 ∷ 70 ∷ 2 ∷ 1 ∷ 1 ∷ replicate 9 0
    ++ (2 ∷ 0 ∷ 62 ∷ 0 ∷ 1 ∷ 0 ∷ 0 ∷ 0 ∷ [])
    ++ (0 ∷ 16 ∷ 64 ∷ 0 ∷ 0 ∷ 0 ∷ 0 ∷ 0 ∷ [])
    ++ (64 ∷ replicate 7 0)
    ++ replicate 12 0
    ++ (64 ∷ 0 ∷ 56 ∷ 0 ∷ 1 ∷ 0 ∷ [])
    ++ replicate 6 0

-- 16 bytes of the file at 0x401000, in one page.
abbrev program_header_bytes : List ℕ
program_header_bytes =
    (1 ∷ 0 ∷ 0 ∷ 0 ∷ 5 ∷ 0 ∷ 0 ∷ 0 ∷ [])
    ++ (120 ∷ replicate 7 0)
    ++ (0 ∷ 16 ∷ 64 ∷ replicate 5 0)
    ++ replicate 8 0
    ++ (16 ∷ replicate 7 0)
    ++ (32 ∷ replicate 7 0)
    ++ (0 ∷ 16 ∷ replicate 6 0)

abbrev small_file : List ℕ
small_file = elf_header_bytes ++ program_header_bytes ++ replicate 16 144

abbrev small_image : Elf64Image
small_image = record {
  entry = 4198400;
  loads = record {
    headers =
        record {
          p_type = 1;
          p_flags = 5;
          p_offset = 120;
          p_vaddr = 4198400;
          p_filesz = 16;
          p_memsz = 32;
          p_align = 4096;
        }
        ∷ replicate 7 default_header;
    len = 1;
  };
  raw = small_file;
}

parse_small : parse small_file ≡ ok small_image
unfolding parse read_elf_header read_program_header little_endian check_header check_load
    scan_headers is_power_below
parse_small = refl

parse-IsImage_example : IsImage small_file small_image
parse-IsImage_example = parse-IsImage small_file small_image parse_small
