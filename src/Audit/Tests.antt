-- ===== src/Audit/Tests.antt =====
-- The theorems on the audit ring of src/hsm_attest.rs at concrete logs.
use iso_light_k.Common.{◌≡◌, [], ◌∷◌, arith}
use iso_light_k.Audit.{AuditRing, EnrollEvent, initial, event, audit_enqueue, audit_snapshot}
use iso_light_k.Audit.Laws.{Holds, initial-Holds, audit_enqueue-Holds, audit_snapshot_lem}

abbrev first_event : EnrollEvent
first_event = event initial 3 0 1 (1 ∷ 2 ∷ 3 ∷ 4 ∷ [])

abbrev one_event : AuditRing
one_event = audit_enqueue initial 3 0 1 (1 ∷ 2 ∷ 3 ∷ 4 ∷ [])

one_event-Holds : Holds one_event (first_event ∷ [])
one_event-Holds =
    audit_enqueue-Holds initial [] 3 0 1 (1 ∷ 2 ∷ 3 ∷ 4 ∷ []) initial-Holds (omega arith)

audit_snapshot_lem_example : audit_snapshot one_event 8 ≡ (first_event ∷ [], 1, 1)
audit_snapshot_lem_example = audit_snapshot_lem one_event (first_event ∷ []) 8 one_event-Holds
