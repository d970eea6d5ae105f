-- ===== src/Tls/Slots.antt =====
-- The slots of the pool of connections (src/tls/mod.rs): what is put into one is found in it, and what
-- is allocated was free.
use iso_light_k.Common.{
  ℕ, zero, suc, ◌≡◌, ◌≢◌, ◌<◌, refl, ap, ◌⊎◌, inl, inr, Option, none, some, List, [], ◌∷◌, length,
  get_elem?, get_elem?-set_self, get_elem?-set_ne, Option-cases, ok, err, arith,
}
use iso_light_k.Tls.{
  pool_full, TlsConnection, TlsPool, empty_connection, first_free, alloc_slot, slot, put,
  connection_of,
}

pub get_elem?-bound {ℓ} :
    {A : Type ℓ} (xs : List A) (i : ℕ) (a : A) → get_elem? xs i ≡ some a → i < length xs
get_elem?-bound [] i a h = absurd (ground arith)
get_elem?-bound (x ∷ xs) zero a h = omega arith
get_elem?-bound (x ∷ xs) (suc i) a h = omega (arith, get_elem?-bound xs i a h)

pub connection_of-inv :
    (o : Option (Option TlsConnection)) (c : TlsConnection)
    → connection_of o ≡ ok c
    → o ≡ some (some c)
connection_of-inv none c h = absurd (ground arith)
connection_of-inv (some none) c h = absurd (ground arith)
connection_of-inv (some (some d)) c h = ground arith

pub slot-bound : (pool : TlsPool) (h : ℕ) (c : TlsConnection) → slot pool h ≡ ok c → h < length pool
unfolding slot
slot-bound pool h c e = get_elem?-bound pool h (some c) (connection_of-inv (get_elem? pool h) c e)

pub slot-put :
    (pool : TlsPool) (h : ℕ) (c : TlsConnection) → h < length pool → slot (put h c pool) h ≡ ok c
unfolding slot
slot-put pool h c b = rw (get_elem?-set_self pool h (some c) b) refl

pub slot-put_ne :
    (pool : TlsPool) (h i : ℕ) (c : TlsConnection) → h ≢ i → slot (put h c pool) i ≡ slot pool i
unfolding slot
slot-put_ne pool h i c ne = ap connection_of (get_elem?-set_ne pool h i (some c) ne)

pub first_free-inv :
    (pool : TlsPool) (i : ℕ) → first_free pool ≡ some i → get_elem? pool i ≡ some none
unfolding first_free
first_free-inv [] i h = absurd (ground arith)
first_free-inv (none ∷ pool) zero h = refl
first_free-inv (none ∷ pool) (suc i) h = absurd (ground arith)
first_free-inv (some c ∷ pool) zero h = absurd (ground arith)
first_free-inv (some c ∷ pool) (suc i) h = first_free-inv pool i (ground arith)

pub alloc_slot-cases :
    (pool : TlsPool)
    → (alloc_slot pool ≡ (err pool_full, pool))
      ⊎ ((i : ℕ) × (alloc_slot pool ≡ (ok i, put i empty_connection pool))
          × (get_elem? pool i ≡ some none))
unfolding alloc_slot
alloc_slot-cases pool = elim (Option-cases (first_free pool)) [
  | inl n ↦ inl (rw (n, alloc_slot) refl)
  | inr (i, is) ↦ inr (i, rw (is, alloc_slot) refl, first_free-inv pool i is)
]

pub slot-ne-free :
    (pool : TlsPool) (i j : ℕ) (c : TlsConnection)
    → slot pool i ≡ ok c
    → get_elem? pool j ≡ some none
    → i ≢ j
unfolding slot
slot-ne-free pool i j c there free_there e =
    let x : get_elem? pool i ≡ some (some c) = connection_of-inv (get_elem? pool i) c there in
    absurd (ground (arith, ap (get_elem? pool) e))

-- A slot that is allocated holds the empty connection.
pub slot-alloc :
    (pool : TlsPool) (i : ℕ)
    → get_elem? pool i ≡ some none
    → slot (put i empty_connection pool) i ≡ ok empty_connection
slot-alloc pool i h = slot-put pool i empty_connection (get_elem?-bound pool i none h)
