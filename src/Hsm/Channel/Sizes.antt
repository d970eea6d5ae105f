-- ===== src/Hsm/Channel/Sizes.antt =====
-- The sizes of what a response of a Ring 3 process carries (src/bus.rs): they fit its 16-bit length.
use iso_light_k.Common.{
  ℕ, zero, suc, ◌+◌, ◌*◌, ◌%◌, ◌≡◌, ◌≤◌, min, ltb, ◌==◌, ==_iff, Bool-cases, if◌then◌else◌, inl,
  inr, refl, ◌∙◌, Option, none, some, List, [], ◌∷◌, length, length-append, get_or, Result, ok, err,
  arith,
}
use iso_light_k.Common.Partial.{After, After->>=, After-any}
use iso_light_k.Common.Bytes.{to_le_bytes}
use iso_light_k.Audit.{EnrollEvent, audit_ring_capacity, empty_event, copy_from, audit_snapshot}
use iso_light_k.Bus.{BusError}
use iso_light_k.Hsm.{Machine}
use iso_light_k.Hsm.Channel.Commands.{
  bus_read, event_bytes, events_bytes, status_payload, exactly, read_digest, digest_of,
}

-- The prefix of a key's hash is a `[u8; 4]`.
abbrev pub ArePrefixed : List EnrollEvent → Type 0
ArePrefixed [] = Unit
ArePrefixed (e ∷ es) = (length e.pk_hash_prefix ≡ 4) × ArePrefixed es

get_or-prefix :
    (es : List EnrollEvent) (i : ℕ)
    → ArePrefixed es
    → length (get_or es i empty_event).pk_hash_prefix ≡ 4
get_or-prefix [] i p = refl
get_or-prefix (e ∷ es) zero p = p.0
get_or-prefix (e ∷ es) (suc i) p = get_or-prefix es i p.1

length-event_bytes : (e : EnrollEvent) → length e.pk_hash_prefix ≡ 4 → length (event_bytes e) ≡ 12
unfolding to_le_bytes
length-event_bytes e p = omega (arith, p)

length-events_bytes :
    (n start : ℕ) (es : List EnrollEvent)
    → ArePrefixed es
    → length (events_bytes (copy_from n start es)) ≡ n * 12
unfolding events_bytes copy_from
length-events_bytes zero start es p = refl
length-events_bytes (suc n) start es p =
    let e = get_or es (start % audit_ring_capacity) empty_event in
    let here = length-event_bytes e (get_or-prefix es (start % audit_ring_capacity) p) in
    length-append (event_bytes e) (events_bytes (copy_from n (start + 1) es))
    ∙ omega (arith, here, length-events_bytes n (start + 1) es p)

-- At most 32 events are reported.
pub length-status_payload :
    {W : Type 0} (m : Machine W) → ArePrefixed m.audit.events → length (status_payload m) ≤ 392
unfolding status_payload audit_snapshot to_le_bytes
length-status_payload m p =
    let n = min (min m.audit.total audit_ring_capacity) 32 in
    let start = if ltb audit_ring_capacity m.audit.total then m.audit.head else 0 in
    omega (arith, length-events_bytes n start m.audit.events p)

-- A read of a digest gives 32 bytes or nothing.
abbrev pub IsDigest : {W : Type 0} → Option (List ℕ) × Machine W → Type 0
IsDigest (none, m) = Unit
IsDigest (some digest, m) = length digest ≡ 32

exactly-length :
    {W : Type 0} (r : Result BusError (List ℕ)) (m : Machine W) → IsDigest (exactly 32 r, m)
exactly-length (err e) m = tt
exactly-length (ok bytes) m = elim (Bool-cases (length bytes == 32)) [
  | inl e ↦ rw e ((==_iff (length bytes) 32).0 e)
  | inr e ↦ rw e tt
]

read_digest-IsDigest :
    {W : Type 0} (idx : ℕ) (x : Result BusError ℕ × Machine W) → IsDigest (read_digest idx x)
unfolding read_digest
read_digest-IsDigest idx (err e, m) = tt
read_digest-IsDigest idx (ok n, m) = exactly-length (bus_read 32 idx m).0 (bus_read 32 idx m).1

pub digest_of-IsDigest :
    {W : Type 0} (write : ℕ → List ℕ → Machine W → Option (Result BusError ℕ × Machine W)) (idx : ℕ)
    (input : List ℕ) (m : Machine W)
    → After (λ x. IsDigest x) (digest_of write idx input m)
unfolding digest_of
digest_of-IsDigest write idx input m =
    After->>= (λ x. Unit {0}) (λ x. IsDigest x) (write idx input m) (read_digest idx) (After-any _)
      (λ x u. read_digest-IsDigest idx x)
