-- ===== src/Hsm/Channel/Keeps.antt =====
-- A write to a bus (src/bus.rs), however it nests, leaves the registry's own data alone.
use iso_light_k.Common.{
  ℕ, zero, suc, ◌≡◌, ◌≢◌, ◌↔◌, refl, sym, ap, ◌∙◌, true, false, ltb, ◌==◌, Bool-cases, inl, inr,
  Option, none, some, List, length, take, drop, Result, ok, err, arith,
}
use iso_light_k.Common.Partial.{After, After->>=, After-result}
use iso_light_k.Primitives.{Crypto}
use iso_light_k.Wire.{WireFrameHeader, parse_header}
use iso_light_k.Bus.{BusKind, BusError}
use iso_light_k.Bus.Ring3.{Ring3ProcessBus}
use iso_light_k.Bus.Instance
use iso_light_k.Bus.Instance.{
  BusInstance, empty_bus, software_bus, ring3_bus, usb_bus, spi_bus, serial_bus, smart_card_bus,
  network_bus,
}
use iso_light_k.Hsm.{Machine, HsmCapability, HsmSlot, slot_at, capability_of}
use iso_light_k.Hsm.Rights.{allow_use}
use iso_light_k.Hsm.Attest.{AttestError}
use iso_light_k.Hsm.Registry.{is_empty, authenticate}
use iso_light_k.Hsm.Registry.Access.{authenticate_iff}
use iso_light_k.Hsm.Registry.Release.{IsValid}
use iso_light_k.Hsm.Keeps.{
  Keeps, Keeps-refl, put_bus-Keeps, in_use, Keeps-IsValid, Keeps-IsAuthentic,
}
use iso_light_k.Hsm.Channel.{
  dispatch, answer, ring3_refusal, ring3_serve, ring3_write, write_instance, bus_write,
}
use iso_light_k.Hsm.Channel.Commands.{
  Frame, bus_at, wire_attest_len, response_buffer, octet_kind, attest_octet, attest_reply,
  attest_check, handle_attest_submit, bus_read, read_digest, digest_of, digest_frame, handle_blake3,
}

attest_reply-slots :
    {W : Type 0} (req_id octet : ℕ) (prefix out : List ℕ) (m : Machine W)
    (r : Result AttestError (Unit {0}))
    → (attest_reply req_id octet prefix out m r).1.slots ≡ m.slots
unfolding attest_reply
attest_reply-slots req_id octet prefix out m (ok _) = refl
attest_reply-slots req_id octet prefix out m (err e) = refl

attest_check-slots :
    {W : Type 0} (c : Crypto) (req_id : ℕ) (payload out : List ℕ) (m : Machine W)
    (k : Option BusKind)
    → (attest_check c req_id payload out m k).1.slots ≡ m.slots
unfolding attest_check
attest_check-slots c req_id payload out m none = refl
attest_check-slots c req_id payload out m (some kind) =
    attest_reply-slots req_id (attest_octet payload) _ out m _

handle_attest_submit-slots :
    {W : Type 0} (c : Crypto) (idx req_id : ℕ) (payload : List ℕ) (m : Machine W)
    → (handle_attest_submit c idx req_id payload m).1.slots ≡ m.slots
unfolding handle_attest_submit
handle_attest_submit-slots c idx req_id payload m =
    elim (Bool-cases (length payload == wire_attest_len)) [
      | inr odd ↦ rw odd refl
      | inl sized ↦ rw sized (
          attest_check-slots c req_id payload (response_buffer m idx) m
            (octet_kind (attest_octet payload)))
    ]

pub bus_read-Keeps :
    {W : Type 0} (before : List HsmSlot) (room idx : ℕ) (m : Machine W)
    → is_empty (slot_at before idx) ≡ false
    → Keeps before m.slots
    → Keeps before (bus_read room idx m).1.slots
unfolding bus_read
bus_read-Keeps before room idx m used k =
    put_bus-Keeps before idx (Instance.read room (bus_at m idx)).1 m used k

read_digest-Keeps :
    {W : Type 0} (before : List HsmSlot) (idx : ℕ) (x : Result BusError ℕ × Machine W)
    → is_empty (slot_at before idx) ≡ false
    → Keeps before x.1.slots
    → Keeps before (read_digest idx x).1.slots
unfolding read_digest
read_digest-Keeps before idx (err e, m) used k = k
read_digest-Keeps before idx (ok n, m) used k = bus_read-Keeps before 32 idx m used k

digest_frame-slots :
    {W : Type 0} (idx req_id : ℕ) (x : Option (List ℕ) × Machine W)
    → (digest_frame idx req_id x).1.slots ≡ x.1.slots
unfolding digest_frame
digest_frame-slots idx req_id (none, m) = refl
digest_frame-slots idx req_id (some d, m) = refl

module _ {W : Type 0} (c : Crypto)
    (write : ℕ → List ℕ → Machine W → Option (Result BusError ℕ × Machine W))
    (keeps : (i : ℕ) (b : List ℕ) (m : Machine W)
      → IsValid m.slots
      → After (λ x. Keeps m.slots x.1.slots) (write i b m)) where
  handle_blake3-Keeps :
      (idx req_id : ℕ) (payload : List ℕ) (m : Machine W)
      → IsValid m.slots
      → After (λ x. Keeps m.slots x.1.slots) (handle_blake3 write idx req_id payload m)
  unfolding handle_blake3 digest_of
  handle_blake3-Keeps idx req_id payload m v = elim (Bool-cases (ltb (length payload) 16)) [
    | inl short ↦ rw short (Keeps-refl m.slots)
    | inr long ↦ elim (Bool-cases (authenticate m.slots cap allow_use)) [
      | inr bad ↦ rw (long, bad) (Keeps-refl m.slots)
      | inl good ↦
          let used =
            in_use m.slots cap.slot ((authenticate_iff m.slots cap allow_use).0 good).is_live in
          let digested =
            After->>= (λ x. Keeps m.slots x.1.slots) (λ x. Keeps m.slots x.1.slots)
              (write cap.slot (drop 16 payload) m) (read_digest cap.slot)
              (keeps cap.slot (drop 16 payload) m v)
              (λ x k. read_digest-Keeps m.slots cap.slot x used k) in
          rw (long, good)
            (After->>= (λ x. Keeps m.slots x.1.slots) (λ x. Keeps m.slots x.1.slots) _
              (digest_frame idx req_id) digested (λ x k. rw (digest_frame-slots idx req_id x) k))
    ]
  ]
    where
      cap : HsmCapability
      cap = capability_of (take 16 payload)

  pub dispatch-Keeps :
      (idx : ℕ) (hdr : WireFrameHeader) (payload : List ℕ) (m : Machine W)
      → IsValid m.slots
      → After (λ x. Keeps m.slots x.1.slots) (dispatch c write idx hdr payload m)
  unfolding dispatch
  dispatch-Keeps idx hdr payload m v = elim (Bool-cases (hdr.cmd == 1)) [
    | inl p ↦ rw p (Keeps-refl m.slots)
    | inr np ↦ elim (Bool-cases (hdr.cmd == 16)) [
      | inl b ↦ rw (np, b) (handle_blake3-Keeps idx hdr.req_id payload m v)
      | inr nb ↦ elim (Bool-cases (hdr.cmd == 64)) [
        | inl t ↦
            let same = handle_attest_submit-slots c idx hdr.req_id payload m in
            rw (np, nb, t, same) (Keeps-refl m.slots)
        | inr nt ↦ elim (Bool-cases (hdr.cmd == 128)) [
          | inl s ↦ rw (np, nb, nt, s) (Keeps-refl m.slots)
          | inr ns ↦ rw (np, nb, nt, ns) (Keeps-refl m.slots)
        ]
      ]
    ]
  ]

  answer-Keeps :
      (idx : ℕ) (p : Ring3ProcessBus) (n : ℕ) (m : Machine W) (x : Frame × Machine W)
      → is_empty (slot_at m.slots idx) ≡ false
      → Keeps m.slots x.1.slots
      → Keeps m.slots (answer idx p n x).1.slots
  unfolding answer
  answer-Keeps idx p n m (frame, k) used h = put_bus-Keeps m.slots idx _ k used h

  ring3_serve-Keeps :
      (idx : ℕ) (p : Ring3ProcessBus) (bytes : List ℕ) (m : Machine W) (o : Option BusError)
      → IsValid m.slots
      → is_empty (slot_at m.slots idx) ≡ false
      → After (λ x. Keeps m.slots x.1.slots) (ring3_serve c write idx p bytes m o)
  unfolding ring3_serve
  ring3_serve-Keeps idx p bytes m (some e) v used = Keeps-refl m.slots
  ring3_serve-Keeps idx p bytes m none v used =
      let hdr = parse_header (take 16 bytes) in
      let payload = take hdr.payload_len (drop 16 bytes) in
      After->>= (λ x. Keeps m.slots x.1.slots) (λ x. Keeps m.slots x.1.slots)
        (dispatch c write idx hdr payload m) (answer idx p (length bytes))
        (dispatch-Keeps idx hdr payload m v) (λ x k. answer-Keeps idx p (length bytes) m x used k)

  -- In a valid table only the bus of a slot in use can be written.
  used_of :
      (idx : ℕ) (bus : BusInstance) (m : Machine W)
      → IsValid m.slots
      → bus_at m idx ≡ bus
      → empty_bus ≢ bus
      → is_empty (slot_at m.slots idx) ≡ false
  used_of idx bus m v e ne = elim (Bool-cases (is_empty (slot_at m.slots idx))) [
    | inr used ↦ used
    | inl unused ↦ absurd (ne (sym (ap HsmSlot.bus (v.wiped idx unused)) ∙ e))
  ]

  write_instance-Keeps :
      (idx : ℕ) (bus : BusInstance) (bytes : List ℕ) (m : Machine W)
      → IsValid m.slots
      → bus_at m idx ≡ bus
      → After (λ x. Keeps m.slots x.1.slots) (write_instance c write idx bus bytes m)
  unfolding write_instance ring3_write
  write_instance-Keeps idx (software_bus s) bytes m v e =
      put_bus-Keeps m.slots idx _ m (used_of idx (software_bus s) m v e (λ q. ground arith))
        (Keeps-refl m.slots)
  write_instance-Keeps idx (ring3_bus p) bytes m v e =
      ring3_serve-Keeps idx p bytes m (ring3_refusal p bytes) v
        (used_of idx (ring3_bus p) m v e (λ q. ground arith))
  write_instance-Keeps idx empty_bus bytes m v e = Keeps-refl m.slots
  write_instance-Keeps idx usb_bus bytes m v e = Keeps-refl m.slots
  write_instance-Keeps idx spi_bus bytes m v e = Keeps-refl m.slots
  write_instance-Keeps idx serial_bus bytes m v e = Keeps-refl m.slots
  write_instance-Keeps idx smart_card_bus bytes m v e = Keeps-refl m.slots
  write_instance-Keeps idx network_bus bytes m v e = Keeps-refl m.slots

pub bus_write-After :
    {W : Type 0} (c : Crypto) (fuel idx : ℕ) (bytes : List ℕ) (m : Machine W)
    → IsValid m.slots
    → After (λ x. Keeps m.slots x.1.slots) (bus_write c fuel idx bytes m)
unfolding bus_write
bus_write-After c zero idx bytes m v = tt
bus_write-After c (suc fuel) idx bytes m v =
    write_instance-Keeps c (bus_write c fuel) (λ i b n w. bus_write-After c fuel i b n w) idx
      (bus_at m idx) bytes m v refl

-- A write to the bus of a slot that returns, however it nests, leaves a valid table of slots
-- valid, and the registry accepts the same capabilities for the same rights as before.
pub bus_write-IsValid :
    {W : Type 0} (c : Crypto) (fuel idx : ℕ) (bytes : List ℕ) (m m' : Machine W)
    (r : Result BusError ℕ)
    → IsValid m.slots
    → bus_write c fuel idx bytes m ≡ some (r, m')
    → IsValid m'.slots
      × ((cap : HsmCapability) (required : ℕ)
          → (authenticate m'.slots cap required ≡ true)
            ↔ (authenticate m.slots cap required ≡ true))
bus_write-IsValid c fuel idx bytes m m' r v e =
    let k : Keeps m.slots m'.slots =
      After-result (λ x. Keeps m.slots x.1.slots) (bus_write c fuel idx bytes m) (r, m')
        (bus_write-After c fuel idx bytes m v) e in
    (
      Keeps-IsValid m.slots m'.slots k v,
      λ cap required.
          let (to, from) = Keeps-IsAuthentic m.slots m'.slots cap required k in
          let (in_before, out_before) = authenticate_iff m.slots cap required in
          let (in_after, out_after) = authenticate_iff m'.slots cap required in
          (λ h. out_before (to (in_after h)), λ h. out_after (from (in_before h))),
    )
