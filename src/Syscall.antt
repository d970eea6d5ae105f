-- ===== src/Syscall.antt =====
-- src/arch/common/syscall.rs: the numbers, errors and arguments of system calls, and the range of
-- user addresses. The memory of the user is a function from addresses to bytes, which the copies
-- inside the `stac`/`clac` windows read and write.
pub mod Laws
mod Tests
use iso_light_k.Common.{
  ℕ, zero, suc, ◌+◌, ◌-◌, ◌^◌, min, Bool, not, ◌&&◌, ◌||◌, ltb, leb, if◌then◌else◌, List, [], ◌∷◌,
  length, get_or,
}

abbrev pub Memory : Type 0
Memory = ℕ → ℕ

pub data SyscallError : Type 0 where
  unknown bad_arg bad_address denied no_message internal : SyscallError

-- `self as i64 as u64`
abbrev pub as_rax : SyscallError → ℕ
as_rax unknown = 2 ^ 64 - 1
as_rax bad_arg = 2 ^ 64 - 2
as_rax bad_address = 2 ^ 64 - 3
as_rax denied = 2 ^ 64 - 4
as_rax no_message = 2 ^ 64 - 5
as_rax internal = 2 ^ 64 - 6

-- The number of the call and its arguments.
pub record SyscallContext : Type 0 where
  pub num : ℕ
  pub arg0 : ℕ
  pub arg1 : ℕ
  pub arg2 : ℕ
  pub arg3 : ℕ
  pub arg4 : ℕ
  pub arg5 : ℕ

abbrev pub user_min : ℕ
user_min = 4096

abbrev pub user_max : ℕ
user_max = 2 ^ 47

unfoldable pub is_user_address : ℕ → Bool
is_user_address va = leb user_min va && ltb va user_max

-- `u64::saturating_add`
abbrev pub saturating_add : ℕ → ℕ → ℕ
saturating_add a b = min (a + b) (2 ^ 64 - 1)

-- The check of a pointer and of its end.
unfoldable pub is_user_range : ℕ → ℕ → Bool
unfolding is_user_address
is_user_range ptr len = is_user_address ptr && is_user_address (saturating_add ptr len)

-- `copy_nonoverlapping` out of the user's memory and into it.
unfoldable pub copy_from_user : Memory → ℕ → ℕ → List ℕ
copy_from_user memory ptr zero = []
copy_from_user memory ptr (suc n) = memory ptr ∷ copy_from_user memory (ptr + 1) n

unfoldable pub copy_to_user : Memory → ℕ → List ℕ → Memory
copy_to_user memory ptr bytes =
    λ a. if leb ptr a && ltb a (ptr + length bytes) then get_or bytes (a - ptr) 0 else memory a
