-- ===== src/Tls/Loopback/Leak.antt =====
-- What `run_loopback` (src/tls/handshake.rs) leaves of a pool that has one free slot only.
use iso_light_k.Common.{
  ℕ, zero, suc, ◌≡◌, refl, Option-cases, inl, inr, none, some, List, [], ◌∷◌, set, ok, err, arith,
}
use iso_light_k.Primitives.{Random}
use iso_light_k.Tls.{
  Profile, KexPolicy, CipherSuite, client, free, pool_full, TlsConnection, TlsPool,
  empty_connection, first_free, alloc_slot, put,
}
use iso_light_k.Tls.KeySchedule.{HsmDriver}
use iso_light_k.Tls.Handshake.{Kex}
use iso_light_k.Tls.Loopback.{started, run_loopback, open_client, open_server}
use iso_light_k.Tls.Slots.{slot-alloc, first_free-inv}

first_free-taken :
    (x : TlsConnection) (pool : TlsPool)
    → first_free (some x ∷ pool) ≡ none
    → first_free pool ≡ none
unfolding first_free
first_free-taken x pool h = elim (Option-cases (first_free pool)) [
  | inl n ↦ n
  | inr (i, is) ↦ let taken = rw (is, first_free) at h in absurd (ground arith)
]

-- What a taken slot holds does not matter.
first_free-set :
    (pool : TlsPool) (i : ℕ) (c d : TlsConnection)
    → first_free (set pool i (some c)) ≡ none
    → first_free (set (set pool i (some c)) i (some d)) ≡ none
unfolding first_free
first_free-set [] i c d h = refl
first_free-set (x ∷ pool) zero c d h = h
first_free-set (none ∷ pool) (suc i) c d h = absurd (ground arith)
first_free-set (some x ∷ pool) (suc i) c d h =
    let deeper = first_free-set pool i c d (first_free-taken x (set pool i (some c)) h) in
    rw (deeper, first_free) refl

alloc_slot_free :
    (pool : TlsPool) (i : ℕ)
    → first_free pool ≡ some i
    → alloc_slot pool ≡ (ok i, put i empty_connection pool)
unfolding alloc_slot
alloc_slot_free pool i h = rw (h, alloc_slot) refl

alloc_slot_full :
    (pool : TlsPool) → first_free pool ≡ none → alloc_slot pool ≡ (err pool_full, pool)
unfolding alloc_slot
alloc_slot_full pool h = rw (h, alloc_slot) refl

module _ (sha256 : List ℕ → List ℕ) (kex : Kex) (rand : Random) (hsm : HsmDriver) where
  module _ (profile : Profile) (policy : KexPolicy) (suite : CipherSuite) (psk_id : List ℕ) where
    -- Where exactly one slot of the pool is free, `run_loopback` fails with `PoolFull` and leaves
    -- a pool in which no slot is free.
    pub run_loopback_exhausts :
        (pool : TlsPool) (i : ℕ) (w : rand.World)
        → first_free pool ≡ some i
        → first_free (put i empty_connection pool) ≡ none
        → (left : TlsPool) × (run_loopback sha256 kex rand hsm profile policy suite psk_id pool w
            ≡ (err pool_full, left, w))
          × (alloc_slot left ≡ (err pool_full, left))
    unfolding run_loopback open_client open_server
    run_loopback_exhausts pool i w there last =
        let conn =
          started sha256 kex rand hsm profile policy suite psk_id client empty_connection in
        let pool_1 = put i conn (put i empty_connection pool) in
        let full : first_free pool_1 ≡ none = first_free-set pool i empty_connection conn last in
        let left = put i (record conn { state = free }) pool_1 in
        (
          left,
          rw (alloc_slot_free pool i there, open_client)
              (rw (slot-alloc pool i (first_free-inv pool i there))
                (rw (alloc_slot_full pool_1 full) refl)),
          alloc_slot_full left (
              first_free-set (put i empty_connection pool) i conn (record conn { state = free })
                full),
        )
