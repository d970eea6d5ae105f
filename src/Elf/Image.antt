-- ===== src/Elf/Image.antt =====
-- `parse` of src/elf.rs: what an accepted file is.
use iso_light_k.Common.{
  ℕ, ◌+◌, ◌*◌, ◌/◌, ◌≤◌, ◌<◌, ◌≡◌, inl, inr, refl, Bool-cases, true, ltb, List, length, take, ok,
  arith,
}
use iso_light_k.Elf.{
  ProgramHeader, Elf64Image, check_header, user_end, page_size, scan_headers, no_loads, parse,
  read_elf_header, is_user_va,
}
use iso_light_k.Elf.Laws.{check_header_range}
use iso_light_k.Elf.Loads.{
  loads_from, AllLoadable, IsStatic, Scanned, scan_headers_lem, Result-cases, Scan-cases,
}

-- The image has the file's bytes, its entry point in the user half, and its segments to load in the
-- order of the file; all of them can be loaded, no header asks for dynamic linking, and the program
-- headers lie in the file.
pub IsImage : List ℕ → Elf64Image → Type 0
IsImage bytes img =
    (img.raw ≡ bytes)
    × (img.entry ≡ (read_elf_header bytes).e_entry)
    × (img.entry < user_end)
    × (take img.loads.len img.loads.headers
        ≡ loads_from bytes (read_elf_header bytes).e_phoff (read_elf_header bytes).e_phnum 0)
    × AllLoadable (length bytes) (take img.loads.len img.loads.headers)
    × IsStatic bytes (read_elf_header bytes).e_phoff (read_elf_header bytes).e_phnum 0
    × ((read_elf_header bytes).e_phoff + (read_elf_header bytes).e_phnum * 56 ≤ length bytes)

Found : List ℕ → Elf64Image → Type 0
Found bytes img =
    (check_header (length bytes) (read_elf_header bytes) ≡ ok tt)
    × (scan_headers bytes (read_elf_header bytes).e_phoff (read_elf_header bytes).e_phnum 0 no_loads
        ≡ ok img.loads)
    × (img.raw ≡ bytes)
    × (img.entry ≡ (read_elf_header bytes).e_entry)
    × (is_user_va (img.entry / page_size * page_size) ≡ true)

parse-Found : (bytes : List ℕ) (img : Elf64Image) → parse bytes ≡ ok img → Found bytes img
unfolding parse Found
parse-Found bytes img e =
    let h = read_elf_header bytes in
    elim (Bool-cases (ltb (length bytes) 64)) [
      | inl short ↦ absurd (ground arith)
      | inr long ↦ elim (Result-cases (check_header (length bytes) h)) [
        | inl (bad, c) ↦ absurd (ground arith)
        | inr c ↦ elim (Scan-cases (scan_headers bytes h.e_phoff h.e_phnum 0 no_loads)) [
          | inl (bad, s) ↦ absurd (ground arith)
          | inr (found, s) ↦ elim (Bool-cases (is_user_va (h.e_entry / page_size * page_size))) [
            | inr bad ↦ absurd (ground arith)
            | inl user ↦
                let same : record { entry = h.e_entry; loads = found; raw = bytes } ≡ img =
                  (ground arith) in
                rw (← same) (c, s, refl, refl, user)
          ]
        ]
      ]
    ]

loadable_same :
    (size : ℕ) (xs ys : List ProgramHeader) → xs ≡ ys → AllLoadable size ys → AllLoadable size xs
loadable_same size xs ys e a = rw e a

-- A file that `parse` accepts is described by the image: the image has the file's bytes and its
-- entry point, which lies in the user half, and the segments to load in the order of the file.
-- Each of them lies in the file, needs no less memory than it has bytes, starts at a page in the
-- user half, ends in it, and has an alignment that is a power of two and at least a page. No
-- header asks for an interpreter or for dynamic linking, and the program headers lie in the file.
pub parse-IsImage : (bytes : List ℕ) (img : Elf64Image) → parse bytes ≡ ok img → IsImage bytes img
unfolding IsImage Found Scanned
parse-IsImage bytes img e =
    let h = read_elf_header bytes in
    let (checked, scanned, raw_same, entry_same, user) = parse-Found bytes img e in
    let (few, inside) = check_header_range (length bytes) h checked in
    let all : Scanned bytes h.e_phoff h.e_phnum 0 no_loads img.loads =
      scan_headers_lem bytes h.e_phoff h.e_phnum 0 no_loads img.loads (omega arith) scanned in
    let (same, good, static_all) = all in
    (
      raw_same,
      entry_same,
      ground arith,
      same,
      loadable_same (length bytes) (take img.loads.len img.loads.headers)
          (loads_from bytes h.e_phoff h.e_phnum 0) same good,
      static_all,
      inside,
    )
