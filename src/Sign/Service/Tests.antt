-- ===== src/Sign/Service/Tests.antt =====
-- The theorems on the signing service (src/sign_service.rs) at concrete inputs.
use iso_light_k.Common.{ℕ, ◌≡◌, refl, none, some, List, [], ◌∷◌, ◌++◌, length, replicate, ok, arith}
use iso_light_k.Capability.{ep_sign}
use iso_light_k.Primitives.Plain.{constant_random}
use iso_light_k.Ipc.{sign_begin_req}
use iso_light_k.Ipc.Message.{IpcMessage}
use iso_light_k.Ipc.Payload.{write_sign_payload}
use iso_light_k.Ipc.Endpoint
use iso_light_k.Ipc.Endpoint.{IpcEndpoint, pending_reply}
use iso_light_k.Ipc.Registry.{IpcRegistry, find, lookup}
use iso_light_k.Sign.Plain.{same_signature, signs_alike}
use iso_light_k.Sign.{Signer, sign, sk_len, sig_len, zeros}
use iso_light_k.Sign.Session.{initial, begun, handle_begin, handle_in_chunk, handle_exec}
use iso_light_k.Sign.Session.Laws.{IsValid, initial-IsValid}
use iso_light_k.Sign.Session.Exec.{here, next, begin, chunk, Signs-IsValid}
use iso_light_k.Sign.Session.Stream.{
  chunk_req, joined, send, AreChunks, key_sent, empty_chunk_completes,
}
use iso_light_k.Sign.Session.Signing.{begin_req, read_out, sign_session}
use iso_light_k.Sign.Service.{dispatch}
use iso_light_k.Sign.Service.Laws.{dispatch-IsAnswered}

abbrev full_chunk : List ℕ
full_chunk = replicate 240 7

-- The key in ten full chunks and one of 160 bytes.
abbrev key_chunks : List (List ℕ)
key_chunks = replicate 9 full_chunk ++ replicate 160 7 ∷ []

key_chunks-AreChunks : AreChunks (full_chunk ∷ key_chunks)
key_chunks-AreChunks = (
  omega arith,
  omega arith,
  (
    omega arith,
    omega arith,
    (
      omega arith,
      omega arith,
      (
        omega arith,
        omega arith,
        (
          omega arith,
          omega arith,
          (
            omega arith,
            omega arith,
            (
              omega arith,
              omega arith,
              (
                omega arith,
                omega arith,
                (
                  omega arith,
                  omega arith,
                  (omega arith, omega arith, (omega arith, omega arith, tt)),
                ),
              ),
            ),
          ),
        ),
      ),
    ),
  ),
)

sign_session_example :
    (s : Signer) × (handle_exec signs_alike [] (
        send 0 ((1 ∷ 2 ∷ []) ∷ []) (
          send 0
            (full_chunk ∷ key_chunks)
            (handle_begin (begin_req 2 sk_len 0 (length (joined ((1 ∷ 2 ∷ []) ∷ [])))) initial).1))
      ≡ (ok sig_len, s))
    × (read_out 11 0 s ≡ same_signature)
sign_session_example =
    sign_session signs_alike full_chunk key_chunks (1 ∷ 2 ∷ []) [] [] same_signature
      key_chunks-AreChunks (omega arith, omega arith, tt) refl (omega arith) refl

Signs-IsValid_example :
    IsValid
      (handle_in_chunk (chunk_req 0 full_chunk) (handle_begin (begin_req 2 sk_len 0 4) initial).1).1
Signs-IsValid_example = Signs-IsValid signs_alike initial-IsValid (
    next (next here (begin (begin_req 2 sk_len 0 4) initial))
      (chunk (chunk_req 0 full_chunk) (handle_begin (begin_req 2 sk_len 0 4) initial).1))

-- No byte of the key was sent.
abbrev begun_session : Signer
begun_session = begun sign 2560 0 4

empty_chunk_completes_example :
    ((handle_in_chunk (chunk_req 2560 []) begun_session).0 ≡ ok tt)
    × ((handle_in_chunk (chunk_req 2560 []) begun_session).1
        ≡ key_sent (zeros sk_len) begun_session)
empty_chunk_completes_example = empty_chunk_completes begun_session refl (omega arith)

abbrev begin_message : IpcMessage
begin_message = record {
  header = record { msg_type = sign_begin_req; payload_len = 256; sequence = 3 };
  payload = write_sign_payload (begin_req 2 sk_len 0 4);
}

abbrev sign_endpoint : IpcEndpoint
sign_endpoint = record {
  id = 2;
  required_rights = 4;
  state = pending_reply begin_message;
  sequence = 3;
}

abbrev sign_registry : IpcRegistry
sign_registry = record { endpoints = some sign_endpoint ∷ replicate 15 none; count = 1 }

sign_endpoint-IsValid : Endpoint.Laws.IsValid sign_endpoint
sign_endpoint-IsValid = record { stamped = λ m e. ground arith; bounded = omega arith }

find_sign : find sign_registry ep_sign ≡ some sign_endpoint
unfolding find lookup
find_sign = refl

dispatch-IsAnswered_example :
    (dispatch signs_alike constant_random sign_registry (initial, tt)).0 ≡ ok tt
dispatch-IsAnswered_example =
    (dispatch-IsAnswered signs_alike constant_random sign_registry initial tt sign_endpoint
      begin_message sign_endpoint-IsValid find_sign refl).0
