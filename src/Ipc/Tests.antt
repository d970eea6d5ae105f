-- ===== src/Ipc/Tests.antt =====
-- Runs of the model of src/ipc.rs, and the theorems at concrete inputs.
use iso_light_k.Common.{◌≡◌, refl, true, false, none, some, [], ◌∷◌, replicate, ok, err, arith}
use iso_light_k.Capability.{Capability, is_valid_for}
use iso_light_k.Capability.Rights.{contains}
use iso_light_k.Ipc.{hash_req, ping, endpoint_busy, no_message}
use iso_light_k.Ipc.Message.{IpcMessage}
use iso_light_k.Ipc.Registry
use iso_light_k.Ipc.Endpoint.{
  IpcEndpoint, EndpointState, idle, post, take, post_reply, take_reply, stamp, is_pending_reply,
}
use iso_light_k.Ipc.Endpoint
use iso_light_k.Ipc.Endpoint.Laws.{
  post_accepts, take-post, take_reply-post_reply, Step, Reach, here, next, serve, call,
  Reach-IsValid,
}
use iso_light_k.Ipc.Registry.{IpcRegistry, register, find, lookup, endpoint_exists, init, empty}
use iso_light_k.Ipc.Registry.Laws.{register_lem, endpoint_exists-init}
use iso_light_k.Ipc.Call.{Services, ipc_call}
use iso_light_k.Ipc.Call.Laws.{ipc_call_system_waits}

-- A registry with the system service and the crypto service.
abbrev system_endpoint : IpcEndpoint
system_endpoint = record { id = 0; required_rights = 4; state = idle; sequence = 0 }

abbrev crypto_endpoint : IpcEndpoint
crypto_endpoint = record { id = 1; required_rights = 4; state = idle; sequence = 4294967295 }

abbrev two_services : IpcRegistry
two_services = record {
  endpoints = some system_endpoint ∷ some crypto_endpoint ∷ replicate 14 none;
  count = 2;
}

abbrev crypto_cap : Capability
crypto_cap = record { token = 7; endpoint_id = 1; rights = 4 }

abbrev system_cap : Capability
system_cap = record { token = 7; endpoint_id = 0; rights = 5 }

abbrev weak_cap : Capability
weak_cap = record { token = 7; endpoint_id = 1; rights = 3 }

abbrev request : IpcMessage
request = record {
  header = record { msg_type = hash_req; payload_len = 2; sequence = 0 };
  payload = 1 ∷ 2 ∷ replicate 254 0;
}

crypto_cap_calls : is_valid_for crypto_cap 1 4 ≡ true
unfolding is_valid_for contains
crypto_cap_calls = refl

system_cap_calls : is_valid_for system_cap 0 4 ≡ true
unfolding is_valid_for contains
system_cap_calls = refl

weak_cap_denied : is_valid_for weak_cap 1 4 ≡ false
unfolding is_valid_for contains
weak_cap_denied = refl

find_crypto : find two_services 1 ≡ some crypto_endpoint
unfolding find lookup
find_crypto = refl

find_system : find two_services 0 ≡ some system_endpoint
unfolding find lookup
find_system = refl

request_posted : (post crypto_endpoint crypto_cap request).0 ≡ ok tt
request_posted =
    (post_accepts crypto_endpoint crypto_cap request).1 (crypto_cap_calls, refl, omega arith)

abbrev after_post : IpcEndpoint
after_post = (post crypto_endpoint crypto_cap request).1

take-post_example :
    (take after_post
      ≡ (ok (stamp 0 request), record crypto_endpoint { state = idle; sequence = 0 }))
    × (take_reply after_post ≡ (err no_message, after_post))
    × (post after_post crypto_cap request ≡ (err endpoint_busy, after_post))
take-post_example = take-post crypto_endpoint crypto_cap request request request_posted

crypto_endpoint-IsValid : Endpoint.Laws.IsValid crypto_endpoint
crypto_endpoint-IsValid = record { stamped = λ m e. cc; bounded = omega arith }

Reach-IsValid_example :
    Endpoint.Laws.IsValid after_post
    × (after_post.id ≡ crypto_endpoint.id)
    × (after_post.required_rights ≡ crypto_endpoint.required_rights)
Reach-IsValid_example =
    Reach-IsValid {d = crypto_endpoint} {e = after_post} crypto_endpoint-IsValid
      (next here (call crypto_endpoint crypto_cap request))

two_services-IsValid : Registry.Laws.IsValid two_services
two_services-IsValid = record { sized = refl; counted = refl }

-- Services that do nothing, where waiting for an interrupt changes nothing.
abbrev inert : Services
inert = record {
  World = Unit;
  crypto_dispatch = λ r w. (ok tt, r, w);
  sign_dispatch = λ r w. (ok tt, r, w);
  wait_for_interrupt = λ r w. (r, w);
}

ipc_call_system_waits_example : ipc_call inert 1000 system_cap ping [] two_services tt ≡ none
ipc_call_system_waits_example =
    ipc_call_system_waits inert 1000 system_cap ping [] two_services tt system_endpoint
      (λ s v. refl) refl (omega arith) find_system system_cap_calls refl
