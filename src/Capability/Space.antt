-- ===== src/Capability/Space.antt =====
-- src/capability.rs: `CapabilitySpace`, the slots of a process. The constant MAX_CAPS_PER_SPACE is 32.
pub mod Laws
pub mod Find
use iso_light_k.Common.{
  ℕ, zero, suc, ◌+◌, ◌-◌, Bool, ◌&&◌, not, ◌==◌, ltb, if◌then◌else◌, Option, none, some, List, [],
  ◌∷◌, length, get_elem?, set, replicate, Result, ok, err,
}
use iso_light_k.Capability.{Capability, CapError, invalid_slot, ct_token_eq, invalid_endpoint}
use iso_light_k.Capability.Rights

abbrev pub max_caps_per_space : ℕ
max_caps_per_space = 32

pub record CapabilitySpace : Type 0 where
  pub slots : List (Option Capability)
  pub count : ℕ

abbrev pub empty : CapabilitySpace
empty = record { slots = replicate max_caps_per_space none; count = 0 }

-- The loop of `insert`: the index of the first slot that is `None`.
pub first_none : ℕ → List (Option Capability) → Option ℕ
first_none i [] = none
first_none i (none ∷ slots) = some i
first_none i (some c ∷ slots) = first_none (i + 1) slots

unfoldable pub insert : CapabilitySpace → Capability → CapabilitySpace × Option ℕ
unfolding first_none
insert s cap = elim (first_none 0 s.slots) [
  | some i ↦ (record s { slots = set s.slots i (some cap); count = s.count + 1 }, some i)
  | none ↦ (s, none)
]

unfoldable pub get : CapabilitySpace → ℕ → Option Capability
get s idx = elim (get_elem? s.slots idx) [ none ↦ none | some slot ↦ slot ]

abbrev pub query : ℕ → Capability
query token = record { token = token; endpoint_id = invalid_endpoint; rights = Rights.none }

-- One round of the loop over all slots; `found_idx < 0` is `none`.
unfoldable pub select : ℕ → ℕ → Option Capability → Option ℕ → Option ℕ
unfolding ct_token_eq
select token i none found = found
select token i (some cap) (some k) = some k
select token i (some cap) none =
    if ct_token_eq cap (query token) && not (cap.token == 0) then some i else none

pub find_from : ℕ → ℕ → List (Option Capability) → Option ℕ → Option ℕ
find_from token i [] found = found
find_from token i (slot ∷ slots) found = find_from token (i + 1) slots (select token i slot found)

unfoldable pub find_by_token : CapabilitySpace → ℕ → Option ℕ
unfolding find_from select
find_by_token s token = find_from token 0 s.slots none

-- The capability in the slot is erased before the slot becomes `None`.
unfoldable pub revoke : CapabilitySpace → ℕ → CapabilitySpace × Result CapError (Unit {0})
revoke s idx =
    if ltb idx (length s.slots)
    then (record s { slots = set s.slots idx none; count = s.count - 1 }, ok tt)
    else (s, err invalid_slot)
