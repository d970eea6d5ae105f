-- ===== src/Audit/Laws.antt =====
-- The ring (src/hsm_attest.rs) against the log of all events.
use iso_light_k.Common.{
  ℕ, zero, suc, ◌+◌, ◌-◌, ◌%◌, ◌^◌, ◌≤◌, ◌<◌, ◌≡◌, min, refl, ap, ap₂, ◌∙◌, sym, if◌then◌else◌, ltb,
  List, [], ◌∷◌, ◌++◌, length, get_or, take, drop, length-set, get_or-set_self, get_or-set_ne,
  length-append, arith,
}
use native.Mathlib.Decide.{ℕ_discrete}
use iso_light_k.Audit.{
  EnrollEvent, AuditRing, audit_ring_capacity, empty_event, initial, event, audit_enqueue,
  copy_from, audit_snapshot,
}

-- The ring holds the last events of a log, which is shorter than 2 ^ 32.
pub record Holds (r : AuditRing) (log : List EnrollEvent) : Type 0 where
  pub sized : length r.events ≡ audit_ring_capacity
  pub total_is : r.total ≡ length log
  pub head_is : r.head ≡ length log % audit_ring_capacity
  pub recent :
      (k : ℕ)
      → k < length log
      → length log ≤ k + audit_ring_capacity
      → get_or r.events (k % audit_ring_capacity) empty_event ≡ get_or log k empty_event

pub initial-Holds : Holds initial []
initial-Holds = record {
  sized = refl;
  total_is = refl;
  head_is = refl;
  recent = λ k l m. absurd (omega arith);
}

get_or-append_left :
    (xs ys : List EnrollEvent) (k : ℕ)
    → k < length xs
    → get_or (xs ++ ys) k empty_event ≡ get_or xs k empty_event
get_or-append_left [] ys k h = absurd (omega arith)
get_or-append_left (x ∷ xs) ys zero h = refl
get_or-append_left (x ∷ xs) ys (suc k) h = get_or-append_left xs ys k (omega arith)

get_or-append_last :
    (xs : List EnrollEvent) (y : EnrollEvent) → get_or (xs ++ y ∷ []) (length xs) empty_event ≡ y
get_or-append_last [] y = refl
get_or-append_last (x ∷ xs) y = get_or-append_last xs y

-- Where the ring holds the last events of a log of fewer than 2 ^ 32 - 1 events, recording an
-- event leaves it holding those of the log with the event appended, whose sequence number is its
-- place in the log.
pub audit_enqueue-Holds :
    (r : AuditRing) (log : List EnrollEvent) (slot_idx result bus_kind : ℕ) (prefix : List ℕ)
    → Holds r log
    → suc (length log) < 2 ^ 32
    → Holds
        (audit_enqueue r slot_idx result bus_kind prefix)
        (log ++ event r slot_idx result bus_kind prefix ∷ [])
unfolding audit_enqueue
audit_enqueue-Holds r log slot_idx result bus_kind prefix h small =
    let e = event r slot_idx result bus_kind prefix in
    let i = r.head % audit_ring_capacity in
    let len = length-append log (e ∷ []) in
    record {
      sized = length-set r.events i e ∙ h.sized;
      total_is = omega (arith, len, h.total_is);
      head_is = omega (arith, len, h.head_is);
      recent = λ k l m. elim (ℕ_discrete k (length log)) [
        | yes last ↦
            let at : i ≡ k % audit_ring_capacity = omega (arith, h.head_is) in
            rw (← at) (
              get_or-set_self r.events i e empty_event (omega (arith, h.sized))
              ∙ sym (get_or-append_last log e)
              ∙ ap (λ (t : ℕ). get_or (log ++ e ∷ []) t empty_event) (omega arith))
        | no earlier ↦
            get_or-set_ne r.events i (k % audit_ring_capacity) e empty_event
              (omega (arith, h.head_is, len))
            ∙ h.recent k (omega (arith, len)) (omega (arith, len))
            ∙ sym (get_or-append_left log (e ∷ []) k (omega (arith, len)))
      ];
    }

copy_from-recent :
    (r : AuditRing) (log : List EnrollEvent) (n k start : ℕ)
    → Holds r log
    → k + n ≤ length log
    → length log ≤ k + audit_ring_capacity
    → start % audit_ring_capacity ≡ k % audit_ring_capacity
    → copy_from n start r.events ≡ take n (drop k log)
unfolding copy_from
copy_from-recent r log zero k start h l m s = refl
copy_from-recent r log (suc n) k start h l m s = rw s (
    ap₂ ◌∷◌ (h.recent k (omega arith) m)
      (copy_from-recent r log n (suc k) (start + 1) h (omega arith) (omega arith) (omega arith))
    ∙ sym (take-drop log k n (omega arith)))
  where
    take-drop :
        (xs : List EnrollEvent) (k n : ℕ)
        → k < length xs
        → take (suc n) (drop k xs) ≡ get_or xs k empty_event ∷ take n (drop (suc k) xs)
    take-drop [] k n q = absurd (omega arith)
    take-drop (x ∷ xs) zero n q = refl
    take-drop (x ∷ xs) (suc k) n q = take-drop xs k n (omega arith)

-- Where the ring holds the last events of a log, a snapshot returns, oldest first, the last 32
-- events of the log, or as many of these as the buffer has room for, counted from the oldest,
-- beside the number of events recorded.
pub audit_snapshot_lem :
    (r : AuditRing) (log : List EnrollEvent) (room : ℕ)
    → Holds r log
    → let n = min (min (length log) audit_ring_capacity) (min room audit_ring_capacity) in
      audit_snapshot r room ≡ (take n (drop (length log - audit_ring_capacity) log), n, length log)
unfolding audit_snapshot
audit_snapshot_lem r log room h =
    let n = min (min r.total audit_ring_capacity) (min room audit_ring_capacity) in
    let start = if ltb audit_ring_capacity r.total then r.head else 0 in
    let k = length log - audit_ring_capacity in
    let same_n : n ≡ min (min (length log) audit_ring_capacity) (min room audit_ring_capacity) =
      omega (arith, h.total_is) in
    let same_start : start % audit_ring_capacity ≡ k % audit_ring_capacity =
      ground (arith, h.total_is, h.head_is) in
    let copied =
      copy_from-recent r log n k start h (omega (arith, h.total_is)) (omega arith) same_start in
    let listed = copied ∙ ap (λ (t : ℕ). take t (drop k log)) same_n in
    λ i. (listed i, same_n i, h.total_is i)
