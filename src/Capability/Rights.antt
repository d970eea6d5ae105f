-- ===== src/Capability/Rights.antt =====
-- src/capability.rs: `Rights`, a bit mask.
use iso_light_k.Common.{ℕ, Bool, ◌==◌, bit_and, bit_or}

abbrev pub none : ℕ
none = 0

abbrev pub send : ℕ
send = 1

abbrev pub recv : ℕ
recv = 2

abbrev pub call : ℕ
call = 4

abbrev pub grant : ℕ
grant = 8

abbrev pub all : ℕ
all = 0x0F

unfoldable pub contains : ℕ → ℕ → Bool
contains self other = bit_and self other == other

unfoldable pub union : ℕ → ℕ → ℕ
union self other = bit_or self other

unfoldable pub restrict : ℕ → ℕ → ℕ
restrict self subset = bit_and self subset
