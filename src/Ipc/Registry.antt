-- ===== src/Ipc/Registry.antt =====
-- src/ipc.rs: `IpcRegistry`, the table of endpoints. A `&mut` to an endpoint that `find_mut` hands
-- out is `find` before and `store` after the change, which keeps the endpoint's identifier.
pub mod Laws
use iso_light_k.Common.{
  ℕ, zero, suc, ◌+◌, Bool, true, false, ◌==◌, ◌||◌, leb, if◌then◌else◌, Option, none, some, List,
  [], ◌∷◌, replicate, Result, ok, err,
}
use iso_light_k.Capability.{invalid_endpoint, ep_system, ep_crypto, ep_sign, ep_lumen_wire}
use iso_light_k.Capability.Rights
use iso_light_k.Ipc.{IpcError, endpoints_full, ipc_max_endpoints}
use iso_light_k.Ipc.Endpoint
use iso_light_k.Ipc.Endpoint.{IpcEndpoint}

pub record IpcRegistry : Type 0 where
  pub endpoints : List (Option IpcEndpoint)
  pub count : ℕ

abbrev pub empty : IpcRegistry
empty = record { endpoints = replicate ipc_max_endpoints none; count = 0 }

-- The loop of `register`: the endpoint goes to the first slot that is `None`.
pub fill_first : IpcEndpoint → List (Option IpcEndpoint) → Option (List (Option IpcEndpoint))
fill_first e [] = none
fill_first e (none ∷ slots) = some (some e ∷ slots)
fill_first e (some d ∷ slots) = elim (fill_first e slots) [
  | none ↦ none
  | some rest ↦ some (some d ∷ rest)
]

unfoldable pub register : IpcRegistry → ℕ → ℕ → Result IpcError (Unit {0}) × IpcRegistry
unfolding fill_first Endpoint.new
register r id required_rights =
    if leb ipc_max_endpoints r.count
    then (err endpoints_full, r)
    else elim (fill_first (Endpoint.new id required_rights) r.endpoints) [
      | none ↦ (err endpoints_full, r)
      | some slots ↦ (ok tt, record { endpoints = slots; count = r.count + 1 })
    ]

-- The first endpoint with the identifier.
unfoldable pub lookup : ℕ → List (Option IpcEndpoint) → Option IpcEndpoint
lookup id [] = none
lookup id (none ∷ slots) = lookup id slots
lookup id (some e ∷ slots) = if e.id == id then some e else lookup id slots

-- The first endpoint with the identifier of `e` becomes `e`.
unfoldable pub replace : IpcEndpoint → List (Option IpcEndpoint) → List (Option IpcEndpoint)
replace e [] = []
replace e (none ∷ slots) = none ∷ replace e slots
replace e (some d ∷ slots) = if d.id == e.id then some e ∷ slots else some d ∷ replace e slots

unfoldable pub find : IpcRegistry → ℕ → Option IpcEndpoint
unfolding lookup
find r id = lookup id r.endpoints

unfoldable pub store : IpcRegistry → IpcEndpoint → IpcRegistry
unfolding replace
store r e = record r { endpoints = replace e r.endpoints }

any_with_id : ℕ → List (Option IpcEndpoint) → Bool
any_with_id id [] = false
any_with_id id (none ∷ slots) = any_with_id id slots
any_with_id id (some e ∷ slots) = e.id == id || any_with_id id slots

unfoldable pub endpoint_exists : IpcRegistry → ℕ → Bool
unfolding any_with_id
endpoint_exists r id = if id == invalid_endpoint then false else any_with_id id r.endpoints

-- The results of the four registrations are ignored.
unfoldable pub init : IpcRegistry → IpcRegistry
unfolding register
init r =
    let r₁ = (register r ep_system Rights.call).1 in
    let r₂ = (register r₁ ep_crypto Rights.call).1 in
    let r₃ = (register r₂ ep_sign Rights.call).1 in (register r₃ ep_lumen_wire Rights.call).1
