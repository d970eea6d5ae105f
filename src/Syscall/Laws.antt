-- ===== src/Syscall/Laws.antt =====
-- The range check of src/arch/common/syscall.rs against the bytes of the range.
use iso_light_k.Common.{ℕ, ◌+◌, ◌<◌, ◌≤◌, ◌≡◌, true, arith}
use iso_light_k.Syscall.{is_user_address, is_user_range, user_max}

-- Where the check of a pointer and a length passes, every byte of the range has a user address,
-- and the end of the range does not wrap and lies in the user half.
pub is_user_range_lem :
    (ptr len a : ℕ)
    → is_user_range ptr len ≡ true
    → ptr ≤ a
    → a < ptr + len
    → (is_user_address a ≡ true) × (ptr + len < user_max)
unfolding is_user_range is_user_address
is_user_range_lem ptr len a h l m = (ground arith, ground arith)
