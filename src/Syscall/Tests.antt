-- ===== src/Syscall/Tests.antt =====
-- The range check of src/arch/common/syscall.rs at the end of the user's half.
use iso_light_k.Common.{◌+◌, ◌-◌, ◌<◌, ◌^◌, ◌≡◌, refl, true, arith}
use iso_light_k.Syscall.{is_user_address, is_user_range, user_max}
use iso_light_k.Syscall.Laws.{is_user_range_lem}

is_user_range_lem_example : (is_user_address (2 ^ 47 - 2) ≡ true) × (2 ^ 47 - 17 + 16 < user_max)
unfolding is_user_range
is_user_range_lem_example =
    is_user_range_lem (2 ^ 47 - 17) 16 (2 ^ 47 - 2) refl (omega arith) (omega arith)
