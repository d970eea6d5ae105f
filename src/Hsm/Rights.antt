-- ===== src/Hsm/Rights.antt =====
-- src/hsm_registry.rs: `HsmRights`, the bits of what a capability allows.
use iso_light_k.Common.{ℕ, bit_or}

abbrev pub none : ℕ
none = 0

abbrev pub allow_use : ℕ
allow_use = 1

abbrev pub enumerate : ℕ
enumerate = 2

abbrev pub revoke : ℕ
revoke = 4

abbrev pub relay_src : ℕ
relay_src = 8

abbrev pub relay_dst : ℕ
relay_dst = 16

-- `bitor`
abbrev pub union : ℕ → ℕ → ℕ
union a b = bit_or a b

-- What `handle_attach` grants.
abbrev pub of_attach : ℕ
of_attach = union (union (union (union allow_use enumerate) revoke) relay_src) relay_dst
