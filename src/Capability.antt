-- ===== src/Capability.antt =====
-- src/capability.rs: capabilities and their checks. Masks of rights are in `Rights`, the slots of a
-- process in `Space`, the random generator behind the tokens in `Drbg`. A `u32` of rights, a `u16`
-- endpoint and a `u64` token are numbers; the padding of the structure, always 0, is left out.
pub mod Rights
pub mod Laws
pub mod Space
pub mod Drbg
mod Tests
use iso_light_k.Common.{ℕ, Bool, not, ◌&&◌, ◌==◌, if◌then◌else◌, Result, ok, err, bit_and}
use Rights.{contains, restrict}

-- `EndpointId`
abbrev pub invalid_endpoint : ℕ
invalid_endpoint = 0xFFFF

abbrev pub ep_system : ℕ
ep_system = 0

abbrev pub ep_crypto : ℕ
ep_crypto = 1

abbrev pub ep_sign : ℕ
ep_sign = 2

abbrev pub ep_lumen_wire : ℕ
ep_lumen_wire = 3

pub data CapError : Type 0 where
  invalid_slot no_grant_right slots_full prng_not_initialized no_entropy drbg_init : CapError

pub record Capability : Type 0 where
  pub token : ℕ
  pub endpoint_id : ℕ
  pub rights : ℕ

abbrev pub null : Capability
null = record { token = 0; endpoint_id = invalid_endpoint; rights = Rights.none }

-- `CtEqOps` computes the plain comparisons; what the code adds is only that their time is constant.
unfoldable pub is_valid_for : Capability → ℕ → ℕ → Bool
is_valid_for c endpoint_id required =
    not (c.token == 0) && (c.endpoint_id == endpoint_id && (bit_and c.rights required == required))

unfoldable pub ct_token_eq : Capability → Capability → Bool
ct_token_eq c d = c.token == d.token

-- The derived capability keeps the token and the endpoint.
unfoldable pub derive : Capability → ℕ → Result CapError Capability
derive c subset_rights =
    if contains c.rights Rights.grant
    then ok (record c { rights = restrict c.rights subset_rights })
    else err no_grant_right

unfoldable pub zeroize : Capability → Capability
zeroize c = record c { token = 0; rights = Rights.none; endpoint_id = invalid_endpoint }
