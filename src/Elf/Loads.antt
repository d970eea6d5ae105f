-- ===== src/Elf/Loads.antt =====
-- The loop of src/elf.rs over the program headers: what `parse` returns is the file's segments to
-- load, in order, and each of them can be loaded.
use iso_light_k.Common.{
  ℕ, zero, suc, ◌+◌, ◌≤◌, ◌<◌, ◌≡◌, ◌⊎◌, inl, inr, refl, sym, ap, ◌∙◌, Bool-cases, true, false,
  ◌==◌, if◌then◌else◌, List, [], ◌∷◌, ◌++◌, length, length-set, take, set, Result, ok, err, arith,
}
use iso_light_k.Elf.{
  ProgramHeader, ProgramHeaderArray, ElfError, check_load, is_dynamic, pt_load, push_header,
  header_at, scan_headers,
}
use iso_light_k.Elf.Laws.{IsLoadable, check_load-IsLoadable}

-- The headers of the segments to load, among `left` headers from index `i` on.
pub loads_from : List ℕ → ℕ → ℕ → ℕ → List ProgramHeader
loads_from bytes phoff zero i = []
loads_from bytes phoff (suc left) i =
    if (header_at bytes phoff i).p_type == pt_load
    then header_at bytes phoff i ∷ loads_from bytes phoff left (i + 1)
    else loads_from bytes phoff left (i + 1)

pub AllLoadable : ℕ → List ProgramHeader → Type 0
AllLoadable size [] = Unit
AllLoadable size (h ∷ hs) = IsLoadable size h × AllLoadable size hs

-- No header of the range asks for an interpreter or for dynamic linking.
pub IsStatic : List ℕ → ℕ → ℕ → ℕ → Type 0
IsStatic bytes phoff zero i = Unit
IsStatic bytes phoff (suc left) i =
    (is_dynamic (header_at bytes phoff i) ≡ false) × IsStatic bytes phoff left (i + 1)

take-set_next :
    (xs : List ProgramHeader) (n : ℕ) (x : ProgramHeader)
    → n < length xs
    → take (suc n) (set xs n x) ≡ take n xs ++ (x ∷ [])
take-set_next [] n x l = absurd (omega arith)
take-set_next (y ∷ ys) zero x l = refl
take-set_next (y ∷ ys) (suc n) x l =
    ap (λ (t : List ProgramHeader). y ∷ t) (take-set_next ys n x (omega arith))

append_nil : (xs : List ProgramHeader) → xs ++ [] ≡ xs
append_nil [] = refl
append_nil (z ∷ zs) = ap (λ (t : List ProgramHeader). z ∷ t) (append_nil zs)

append_one :
    (xs ys : List ProgramHeader) (x : ProgramHeader) → (xs ++ (x ∷ [])) ++ ys ≡ xs ++ (x ∷ ys)
append_one [] ys x = refl
append_one (z ∷ zs) ys x = ap (λ (t : List ProgramHeader). z ∷ t) (append_one zs ys x)

pub Result-cases : (r : Result ElfError (Unit {0})) → ((e : ElfError) × (r ≡ err e)) ⊎ (r ≡ ok tt)
Result-cases (ok u) = inr refl
Result-cases (err e) = inl (e, refl)

pub Scan-cases :
    (r : Result ElfError ProgramHeaderArray)
    → ((e : ElfError) × (r ≡ err e)) ⊎ ((a : ProgramHeaderArray) × (r ≡ ok a))
Scan-cases (ok a) = inr (a, refl)
Scan-cases (err e) = inl (e, refl)

-- What a successful scan found.
unfoldable pub Scanned : List ℕ → ℕ → ℕ → ℕ → ProgramHeaderArray → ProgramHeaderArray → Type 0
Scanned bytes phoff left i loads found =
    (take found.len found.headers ≡ take loads.len loads.headers ++ loads_from bytes phoff left i)
    × AllLoadable (length bytes) (loads_from bytes phoff left i)
    × IsStatic bytes phoff left i

loads_from_skip :
    (bytes : List ℕ) (phoff left i : ℕ)
    → (header_at bytes phoff i).p_type == pt_load ≡ false
    → loads_from bytes phoff (suc left) i ≡ loads_from bytes phoff left (i + 1)
unfolding loads_from
loads_from_skip bytes phoff left i e = rw (e, loads_from) refl

loads_from_load :
    (bytes : List ℕ) (phoff left i : ℕ)
    → (header_at bytes phoff i).p_type == pt_load ≡ true
    → loads_from bytes phoff (suc left) i
      ≡ header_at bytes phoff i ∷ loads_from bytes phoff left (i + 1)
unfolding loads_from
loads_from_load bytes phoff left i e = rw (e, loads_from) refl

-- What a step of the loop leaves to scan, when the whole succeeds.
scan_step :
    (bytes : List ℕ) (phoff left i : ℕ) (loads found : ProgramHeaderArray)
    → scan_headers bytes phoff (suc left) i loads ≡ ok found
    → (is_dynamic (header_at bytes phoff i) ≡ false)
      × ((((header_at bytes phoff i).p_type == pt_load ≡ false)
            × (scan_headers bytes phoff left (i + 1) loads ≡ ok found))
          ⊎ (((header_at bytes phoff i).p_type == pt_load ≡ true)
              × (check_load (length bytes) (header_at bytes phoff i) ≡ ok tt)
              × (scan_headers bytes phoff left (i + 1) (push_header loads (header_at bytes phoff i))
                  ≡ ok found)))
unfolding scan_headers
scan_step bytes phoff left i loads found e =
    elim (Bool-cases (is_dynamic (header_at bytes phoff i))) [
      | inl d ↦ absurd (ground arith)
      | inr d ↦ (
        d,
        elim (Bool-cases ((header_at bytes phoff i).p_type == pt_load)) [
          | inr skip ↦ inl (skip, ground arith)
          | inl load ↦ elim (Result-cases (check_load (length bytes) (header_at bytes phoff i))) [
            | inl (bad, c) ↦ absurd (ground arith)
            | inr c ↦ inr (load, c, ground arith)
          ]
        ],
      )
    ]

pub scan_headers_lem :
    (bytes : List ℕ) (phoff left i : ℕ) (loads found : ProgramHeaderArray)
    → loads.len + left ≤ length loads.headers
    → scan_headers bytes phoff left i loads ≡ ok found
    → Scanned bytes phoff left i loads found
unfolding Scanned AllLoadable IsStatic
scan_headers_lem bytes phoff zero i loads found l e =
    let same : loads ≡ found = unfold scan_headers in cc in
    rw (← same) (
      unfold loads_from in sym (append_nil (take loads.len loads.headers)),
      unfold loads_from in tt,
      tt,
    )
scan_headers_lem bytes phoff (suc left) i loads found l e =
    let h = header_at bytes phoff i in
    let (d, next) = scan_step bytes phoff left i loads found e in
    elim next [
      | inl (skip, rest) ↦
          let (same, good, static_rest) =
            scan_headers_lem bytes phoff left (i + 1) loads found (omega arith) rest in
          rw (loads_from_skip bytes phoff left i skip) (same, good, (d, static_rest))
      | inr (load, c, rest) ↦
          let room = length-set loads.headers loads.len h in
          let (same, good, static_rest) =
            scan_headers_lem bytes phoff left (i + 1) (push_header loads h) found (omega arith)
              rest in
          let next_len : loads.len + 1 ≡ suc loads.len = omega arith in
          let pushed =
            ap (λ (n : ℕ). take n (set loads.headers loads.len h)) next_len
            ∙ take-set_next loads.headers loads.len h (omega arith) in
          let joined =
            same
            ∙ ap (λ (t : List ProgramHeader). t ++ loads_from bytes phoff left (i + 1)) pushed
            ∙ append_one (take loads.len loads.headers) (loads_from bytes phoff left (i + 1)) h in
          rw (loads_from_load bytes phoff left i load)
            (joined, (check_load-IsLoadable (length bytes) h c, good), (d, static_rest))
    ]
