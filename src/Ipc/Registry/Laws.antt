-- ===== src/Ipc/Registry/Laws.antt =====
-- The table of endpoints (src/ipc.rs): what is found after a registration and after a change.
use iso_light_k.Common.{
  ℕ, suc, ◌≡◌, ◌≤◌, ◌<◌, ◌↔◌, refl, ap, true, ◌==◌, if◌then◌else◌, Option, none, some, List, [],
  ◌∷◌, length, ok, err, arith,
}
use iso_light_k.Ipc.{endpoints_full, ipc_max_endpoints}
use iso_light_k.Ipc.Endpoint
use iso_light_k.Ipc.Endpoint.{IpcEndpoint, idle}
use iso_light_k.Ipc.Registry.{
  IpcRegistry, empty, fill_first, register, lookup, replace, find, store, endpoint_exists, init,
}

pub lookup-replace :
    (e d : IpcEndpoint) (slots : List (Option IpcEndpoint)) (id : ℕ)
    → lookup e.id slots ≡ some d
    → lookup id (replace e slots) ≡ (if e.id == id then some e else lookup id slots)
unfolding lookup replace
lookup-replace e d [] id h = cc
lookup-replace e d (none ∷ slots) id h = lookup-replace e d slots id h
lookup-replace e d (some c ∷ slots) id h = ground (arith, lookup-replace e d slots id)

-- Writing an endpoint that the table holds back into it: it is what is then found under its
-- identifier, and every other identifier finds what it found.
pub find-store :
    (r : IpcRegistry) (e d : IpcEndpoint) (id : ℕ)
    → find r e.id ≡ some d
    → find (store r e) id ≡ (if e.id == id then some e else find r id)
unfolding find store
find-store r e d id h = lookup-replace e d r.endpoints id h

lookup_id :
    (slots : List (Option IpcEndpoint)) (id : ℕ) (e : IpcEndpoint)
    → lookup id slots ≡ some e
    → e.id ≡ id
unfolding lookup
lookup_id [] id e h = cc
lookup_id (none ∷ slots) id e h = lookup_id slots id e h
lookup_id (some c ∷ slots) id e h = ground (arith, lookup_id slots id e)

pub find-store_self :
    (r : IpcRegistry) (e d : IpcEndpoint) (id : ℕ)
    → find r id ≡ some d
    → e.id ≡ id
    → find (store r e) id ≡ some e
find-store_self r e d id h i = ground (arith, find-store r e d id)

pub find_id : (r : IpcRegistry) (id : ℕ) (e : IpcEndpoint) → find r id ≡ some e → e.id ≡ id
find_id r id e h = lookup_id r.endpoints id e (unfold find in h)

abbrev pub occupied : List (Option IpcEndpoint) → ℕ
occupied [] = 0
occupied (none ∷ slots) = occupied slots
occupied (some e ∷ slots) = suc (occupied slots)

-- The table has its size, and the counter counts the endpoints.
pub record IsValid (r : IpcRegistry) : Type 0 where
  pub sized : length r.endpoints ≡ ipc_max_endpoints
  pub counted : r.count ≡ occupied r.endpoints

fill_first_lem :
    (e : IpcEndpoint) (slots : List (Option IpcEndpoint))
    → occupied slots < length slots
    → (new : List (Option IpcEndpoint)) × (fill_first e slots ≡ some new)
      × (length new ≡ length slots)
      × (occupied new ≡ suc (occupied slots))
      × (lookup e.id slots ≡ none
          → (id : ℕ) → lookup id new ≡ (if e.id == id then some e else lookup id slots))
unfolding fill_first lookup
fill_first_lem e [] h = absurd (omega arith)
fill_first_lem e (none ∷ slots) h = (some e ∷ slots, refl, refl, refl, λ n id. refl)
fill_first_lem e (some d ∷ slots) h =
    let (new, eq, len, occ, found) = fill_first_lem e slots (omega arith) in
    (
      some d ∷ new,
      rw eq refl,
      ap suc len,
      ap suc occ,
      λ n id. ground (arith, found (ground arith) id),
    )

-- On a well-formed table registration succeeds exactly when fewer than 16 endpoints are
-- registered. It then keeps the table well-formed, and a new identifier finds an idle endpoint
-- with the rights given and sequence number 0, while every other one finds what it found. Else it
-- is refused with `EndpointsFull` and nothing changes.
pub register_lem :
    (r : IpcRegistry) (id rights : ℕ)
    → IsValid r
    → (r.count < ipc_max_endpoints
        → ((register r id rights).0 ≡ ok tt)
          × IsValid (register r id rights).1
          × (find r id ≡ none
              → (other : ℕ)
              → find (register r id rights).1 other
                ≡ (if id == other then some (Endpoint.new id rights) else find r other)))
      × (ipc_max_endpoints ≤ r.count → register r id rights ≡ (err endpoints_full, r))
unfolding register find
register_lem r id rights v = (
  λ h.
      let (new, eq, len, occ, found) =
        fill_first_lem (Endpoint.new id rights) r.endpoints (omega (arith, v.sized, v.counted)) in
      (ground arith, ground arith, λ n other. ground (arith, found n other)),
  λ h. ground arith,
)

-- After `init` on the empty table the endpoints that exist are exactly those with the identifiers
-- 0 to 3.
pub endpoint_exists-init : (id : ℕ) → (endpoint_exists (init empty) id ≡ true) ↔ (id ≤ 3)
unfolding endpoint_exists init
endpoint_exists-init id = ground arith
