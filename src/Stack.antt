-- ===== src/Stack.antt =====
-- src/stack.rs: the guards below the boot stack and the exception stacks, and their canaries. Memory
-- is a function from an address to the 64-bit word that stands there; the code asks for guards whose
-- bounds are multiples of 8, so that no two words overlap. The guards come from the linker and from
-- the architecture, and are arguments.

pub mod Canaries
pub mod Guards
mod Tests
use iso_light_k.Common.{
  ℕ, zero, suc, ◌+◌, ◌-◌, Bool, true, false, not, ◌&&◌, ltb, leb, ◌==◌, if◌then◌else◌, List, [],
  ◌∷◌, Result, ok, err,
}

-- A guard as its start and its end.
abbrev pub Range : Type 0
Range = ℕ × ℕ

abbrev pub Words : Type 0
Words = ℕ → ℕ

abbrev pub canary_qword : ℕ
canary_qword = 16045690984503111693

abbrev pub write_word : ℕ → ℕ → Words → Words
write_word p v memory = λ a. if a == p then v else memory a

-- The loop from the address `p`; each round moves 8 bytes on, so that the bytes left are enough fuel.
unfoldable pub fill_from : ℕ → ℕ → ℕ → Words → Words
fill_from zero p end memory = memory
fill_from (suc fuel) p end memory =
    let rest = fill_from fuel (p + 8) end (write_word p canary_qword memory) in
    if ltb p end then rest else memory

unfoldable pub fill_canary : Range → Words → Words
unfolding fill_from
fill_canary (start, end) memory = fill_from (end - start) start end memory

unfoldable pub check_from : ℕ → ℕ → ℕ → Words → Bool
check_from zero p end memory = true
check_from (suc fuel) p end memory =
    let rest = check_from fuel (p + 8) end memory in
    if not (ltb p end) then true else if not (memory p == canary_qword) then false else rest

unfoldable pub check_canary : Range → Words → Bool
unfolding check_from
check_canary (start, end) memory = check_from (end - start) start end memory

unfoldable pub fill_all : List Range → Words → Words
unfolding fill_canary
fill_all [] memory = memory
fill_all (g ∷ gs) memory = fill_all gs (fill_canary g memory)

-- The guard of the boot stack is filled first.
unfoldable pub install_canaries : Range → List Range → Words → Words
unfolding fill_canary fill_all
install_canaries boot ist memory = fill_all ist (fill_canary boot memory)

unfoldable pub check_all : List Range → Words → Result ℕ (Unit {0})
unfolding check_canary
check_all [] memory = ok tt
check_all (g ∷ gs) memory =
    let rest = check_all gs memory in if not (check_canary g memory) then err g.0 else rest

-- The error is the start of the first guard that is damaged.
unfoldable pub validate_canaries : Range → List Range → Words → Result ℕ (Unit {0})
unfolding check_canary check_all
validate_canaries boot ist memory =
    if not (check_canary boot memory) then err boot.0 else check_all ist memory

unfoldable pub is_in_any_guard : ℕ → List Range → Bool
is_in_any_guard va [] = false
is_in_any_guard va ((s, e) ∷ ranges) =
    let rest = is_in_any_guard va ranges in if leb s va && ltb va e then true else rest
