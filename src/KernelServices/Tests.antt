-- ===== src/KernelServices/Tests.antt =====
-- A call to the crypto service at a concrete registry.
use iso_light_k.Common.{◌≡◌, refl, true, none, some, ◌∷◌, ok, replicate, arith, List, ℕ}
use iso_light_k.Capability.{Capability, is_valid_for, ep_crypto}
use iso_light_k.Capability.Rights.{contains}
use iso_light_k.Primitives.Plain.{plain_cipher, constant_random}
use iso_light_k.Ipc.{hash_req}
use iso_light_k.Ipc.Message
use iso_light_k.Ipc.Message.{IpcMessage, set_payload, payload_bytes}
use iso_light_k.Ipc.Endpoint.{IpcEndpoint, idle}
use iso_light_k.Ipc.Registry.{IpcRegistry, find, lookup}
use iso_light_k.Ipc.Call.{ipc_call}
use iso_light_k.CryptoService.{parse_request}
use iso_light_k.CryptoService.Plain.{packages}
use iso_light_k.CryptoService.Dispatch.{answer}
use iso_light_k.Sign.Plain.{signs_alike}
use iso_light_k.Sign.Session.{initial}
use iso_light_k.KernelServices.{World, kernel_services}
use iso_light_k.KernelServices.Laws.{ipc_call-answer}

-- The number that follows goes round.
abbrev crypto_endpoint : IpcEndpoint
crypto_endpoint = record { id = 1; required_rights = 4; state = idle; sequence = 4294967295 }

abbrev registry : IpcRegistry
registry = record { endpoints = some crypto_endpoint ∷ replicate 15 none; count = 1 }

abbrev crypto_cap : Capability
crypto_cap = record { token = 7; endpoint_id = 1; rights = 4 }

-- A request for SHA3-256 of no bytes.
abbrev hash_payload : List ℕ
hash_payload = 0x12 ∷ replicate 255 0

find_crypto : find registry ep_crypto ≡ some crypto_endpoint
unfolding find lookup
find_crypto = refl

crypto_cap_calls : is_valid_for crypto_cap ep_crypto 4 ≡ true
unfolding is_valid_for contains
crypto_cap_calls = refl

abbrev no_interrupt :
    IpcRegistry
    → World plain_cipher packages signs_alike constant_random
    → IpcRegistry × World plain_cipher packages signs_alike constant_random
no_interrupt r w = (r, w)

ipc_call-answer_example :
    (m : IpcMessage) × (reply : IpcMessage) × (r' : IpcRegistry) × (set_payload
        (Message.new hash_req 0)
        hash_payload
      ≡ ok m)
    × (ipc_call
          (kernel_services plain_cipher packages signs_alike constant_random no_interrupt)
          1
          crypto_cap
          hash_req
          hash_payload
          registry
          (initial, tt)
        ≡ some (ok reply, r', (initial, tt)))
    × (reply.header.msg_type ≡ (answer plain_cipher packages hash_req (parse_request m)).0)
    × (payload_bytes reply ≡ (answer plain_cipher packages hash_req (parse_request m)).1)
    × (reply.header.sequence ≡ 0)
    × (find r' ep_crypto ≡ some (record crypto_endpoint { sequence = 0 }))
ipc_call-answer_example =
    ipc_call-answer plain_cipher packages signs_alike constant_random no_interrupt 0 crypto_cap
      hash_req hash_payload registry (initial, tt) crypto_endpoint refl (omega arith) find_crypto
      crypto_cap_calls refl
