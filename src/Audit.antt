-- ===== src/Audit.antt =====
-- src/hsm_attest.rs: the ring of audit events. The static AUDIT_RING is passed along.
pub mod Laws
mod Tests
use iso_light_k.Common.{
  ℕ, zero, suc, ◌+◌, ◌%◌, ◌^◌, min, ltb, if◌then◌else◌, List, [], ◌∷◌, get_or, set, replicate,
}

abbrev pub audit_ring_capacity : ℕ
audit_ring_capacity = 32

pub record EnrollEvent : Type 0 where
  pub seq : ℕ
  pub slot_idx : ℕ
  pub result : ℕ
  pub bus_kind : ℕ
  pub pk_hash_prefix : List ℕ

pub record AuditRing : Type 0 where
  pub events : List EnrollEvent
  pub head : ℕ
  pub total : ℕ

abbrev pub empty_event : EnrollEvent
empty_event = record {
  seq = 0;
  slot_idx = 0;
  result = 0;
  bus_kind = 0;
  pk_hash_prefix = replicate 4 0;
}

abbrev pub initial : AuditRing
initial = record { events = replicate audit_ring_capacity empty_event; head = 0; total = 0 }

abbrev pub event : AuditRing → ℕ → ℕ → ℕ → List ℕ → EnrollEvent
event r slot_idx result bus_kind pk_hash_prefix = record {
  seq = r.total;
  slot_idx = slot_idx;
  result = result;
  bus_kind = bus_kind;
  pk_hash_prefix = pk_hash_prefix;
}

-- The index goes round at the capacity; `total` is a `u32` that wraps.
unfoldable pub audit_enqueue : AuditRing → ℕ → ℕ → ℕ → List ℕ → AuditRing
audit_enqueue r slot_idx result bus_kind pk_hash_prefix = record {
  events =
      set r.events (r.head % audit_ring_capacity) (event r slot_idx result bus_kind pk_hash_prefix);
  head = (r.head + 1) % audit_ring_capacity;
  total = (r.total + 1) % 2 ^ 32;
}

-- `n` events from index `start` on, going round at the capacity.
unfoldable pub copy_from : ℕ → ℕ → List EnrollEvent → List EnrollEvent
copy_from zero start events = []
copy_from (suc n) start events =
    get_or events (start % audit_ring_capacity) empty_event ∷ copy_from n (start + 1) events

-- The events written to a buffer of `room` entries, their number, and the total.
unfoldable pub audit_snapshot : AuditRing → ℕ → List EnrollEvent × ℕ × ℕ
audit_snapshot r room =
    let room' = min room audit_ring_capacity in
    let valid = min r.total audit_ring_capacity in
    let start = if ltb audit_ring_capacity r.total then r.head else 0 in
    let n = min valid room' in (copy_from n start r.events, n, r.total)
