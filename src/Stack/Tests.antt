-- ===== src/Stack/Tests.antt =====
-- Two guards of 16 bytes and their canaries (src/stack.rs).
use iso_light_k.Common.{◌≡◌, refl, [], ◌∷◌, err, if◌then◌else◌, ◌==◌}
use iso_light_k.Stack.{
  Range, Words, canary_qword, check_from, check_canary, check_all, validate_canaries,
}
use iso_light_k.Stack.Canaries.{IsVerdict, validate_canaries_lem}

abbrev boot_guard : Range
boot_guard = (4096, 4112)

abbrev ist_guard : Range
ist_guard = (8192, 8208)

-- Canaries, and a word of the second guard that is overwritten.
abbrev overrun : Words
overrun = λ a. if a == 8200 then 0 else canary_qword

overrun_found : validate_canaries boot_guard (ist_guard ∷ []) overrun ≡ err 8192
unfolding validate_canaries check_all check_canary check_from
overrun_found = refl

validate_canaries_lem_example :
    IsVerdict overrun
      (boot_guard ∷ ist_guard ∷ [])
      (validate_canaries boot_guard (ist_guard ∷ []) overrun)
validate_canaries_lem_example = validate_canaries_lem boot_guard (ist_guard ∷ []) overrun
