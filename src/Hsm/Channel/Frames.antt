-- ===== src/Hsm/Channel/Frames.antt =====
-- The frame that each command of the wire protocol (src/bus.rs) gives answers its request.
use iso_light_k.Common.{
  ℕ, ◌+◌, ◌<◌, ◌^◌, ◌≡◌, ltb, ◌==◌, ==_iff, Bool-cases, inl, inr, Option, none, some, List, [],
  length, take, drop, Result, ok, err, arith,
}
use iso_light_k.Common.Partial.{After, After->>=}
use iso_light_k.Primitives.{Crypto}
use iso_light_k.Wire.{
  WireFrameHeader, ping, blake3_hash, attest_submit, status_request, success, bad_frame,
  unknown_cmd, denied, internal, handle_ping,
}
use iso_light_k.Wire.Laws.{IsReply, build_response_frame-IsReply, build_error_frame-IsReply}
use iso_light_k.Bus.{BusKind, BusError}
use iso_light_k.Hsm.{Machine, capability_of}
use iso_light_k.Hsm.Rights.{allow_use}
use iso_light_k.Hsm.Attest.{AttestError, pk_len, pk_hash_prefix, verify_attest}
use iso_light_k.Hsm.Registry.{authenticate}
use iso_light_k.Hsm.Channel.{dispatch}
use iso_light_k.Hsm.Channel.Sizes.{ArePrefixed, IsDigest, length-status_payload, digest_of-IsDigest}
use iso_light_k.Hsm.Channel.Commands.{
  response_buffer, wire_attest_len, octet_kind, attest_octet, attest_reply, attest_check,
  handle_attest_submit, status_payload, handle_status, digest_of, digest_frame, handle_blake3,
}

module _ {W : Type 0} (c : Crypto) (idx : ℕ) (hdr : WireFrameHeader)
    (small : hdr.req_id < 2 ^ 32) where
  digest_frame-IsReply :
      (x : Option (List ℕ) × Machine W)
      → IsDigest x
      → hdr.cmd ≡ 16
      → IsReply hdr (digest_frame idx hdr.req_id x).0
  unfolding digest_frame
  digest_frame-IsReply (none, m) sized e = build_error_frame-IsReply hdr internal _ small
  digest_frame-IsReply (some d, m) sized e =
      build_response_frame-IsReply hdr blake3_hash success d _ small (omega (arith, sized)) e

  handle_blake3-IsReply :
      (write : ℕ → List ℕ → Machine W → Option (Result BusError ℕ × Machine W)) (payload : List ℕ)
      (m : Machine W)
      → hdr.cmd ≡ 16
      → After (λ x. IsReply hdr x.0) (handle_blake3 write idx hdr.req_id payload m)
  unfolding handle_blake3
  handle_blake3-IsReply write payload m e =
      let cap = capability_of (take 16 payload) in
      elim (Bool-cases (ltb (length payload) 16)) [
        | inl short ↦ rw short (build_error_frame-IsReply hdr bad_frame _ small)
        | inr long ↦ elim (Bool-cases (authenticate m.slots cap allow_use)) [
          | inr bad ↦ rw (long, bad) (build_error_frame-IsReply hdr denied _ small)
          | inl good ↦
              rw (long, good)
                (After->>= (λ x. IsDigest x) (λ x. IsReply hdr x.0)
                  (digest_of write cap.slot (drop 16 payload) m) (digest_frame idx hdr.req_id)
                  (digest_of-IsDigest write cap.slot (drop 16 payload) m)
                  (λ x sized. digest_frame-IsReply x sized e))
        ]
      ]

  attest_reply-IsReply :
      (octet : ℕ) (prefix out : List ℕ) (m : Machine W) (r : Result AttestError (Unit {0}))
      → hdr.cmd ≡ 64
      → IsReply hdr (attest_reply hdr.req_id octet prefix out m r).0
  unfolding attest_reply
  attest_reply-IsReply octet prefix out m (ok _) e =
      build_response_frame-IsReply hdr attest_submit success [] out small (omega arith) e
  attest_reply-IsReply octet prefix out m (err f) e = build_error_frame-IsReply hdr denied out small

  attest_check-IsReply :
      (payload out : List ℕ) (m : Machine W) (k : Option BusKind)
      → hdr.cmd ≡ 64
      → IsReply hdr (attest_check c hdr.req_id payload out m k).0
  unfolding attest_check
  attest_check-IsReply payload out m none e = build_error_frame-IsReply hdr bad_frame out small
  attest_check-IsReply payload out m (some kind) e =
      let pk = take pk_len payload in
      attest_reply-IsReply (attest_octet payload) (pk_hash_prefix c pk) out m
        (verify_attest c m pk kind (drop (pk_len + 1) payload)) e

  handle_attest_submit-IsReply :
      (payload : List ℕ) (m : Machine W)
      → hdr.cmd ≡ 64
      → IsReply hdr (handle_attest_submit c idx hdr.req_id payload m).0
  unfolding handle_attest_submit
  handle_attest_submit-IsReply payload m e = elim (Bool-cases (length payload == wire_attest_len)) [
    | inr odd ↦ rw odd (build_error_frame-IsReply hdr bad_frame _ small)
    | inl sized ↦ rw sized (
        attest_check-IsReply payload (response_buffer m idx) m (octet_kind (attest_octet payload))
          e)
  ]

  handle_status-IsReply :
      (payload : List ℕ) (m : Machine W)
      → ArePrefixed m.audit.events
      → hdr.cmd ≡ 128
      → IsReply hdr (handle_status idx hdr.req_id payload m)
  unfolding handle_status
  handle_status-IsReply payload m prefixed e = elim (Bool-cases (length payload == 0)) [
    | inl empty_payload ↦ rw empty_payload (
        build_response_frame-IsReply hdr status_request success (status_payload m) _ small
          (omega (arith, length-status_payload m prefixed)) e)
    | inr odd ↦ rw odd (build_error_frame-IsReply hdr bad_frame _ small)
  ]

  -- Whatever the command, the frame answers the request.
  pub dispatch-IsReply :
      (write : ℕ → List ℕ → Machine W → Option (Result BusError ℕ × Machine W)) (payload : List ℕ)
      (m : Machine W)
      → ArePrefixed m.audit.events
      → After (λ x. IsReply hdr x.0) (dispatch c write idx hdr payload m)
  unfolding dispatch handle_ping
  dispatch-IsReply write payload m prefixed = elim (Bool-cases (hdr.cmd == 1)) [
    | inl p ↦ rw p (
        build_response_frame-IsReply hdr ping success [] _ small (omega arith)
          ((==_iff hdr.cmd 1).0 p))
    | inr np ↦ elim (Bool-cases (hdr.cmd == 16)) [
      | inl b ↦ rw (np, b) (handle_blake3-IsReply write payload m ((==_iff hdr.cmd 16).0 b))
      | inr nb ↦ elim (Bool-cases (hdr.cmd == 64)) [
        | inl t ↦ rw (np, nb, t) (handle_attest_submit-IsReply payload m ((==_iff hdr.cmd 64).0 t))
        | inr nt ↦ elim (Bool-cases (hdr.cmd == 128)) [
          | inl s ↦
              rw (np, nb, nt, s)
                (handle_status-IsReply payload m prefixed ((==_iff hdr.cmd 128).0 s))
          | inr ns ↦ rw (np, nb, nt, ns) (build_error_frame-IsReply hdr unknown_cmd _ small)
        ]
      ]
    ]
  ]
