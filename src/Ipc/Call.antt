-- ===== src/Ipc/Call.antt =====
-- src/ipc.rs: `ipc_recv`, `ipc_reply` and `ipc_call`. The static IPC_REGISTRY is passed along, with
-- the rest of the kernel's state, which the dispatchers of the services and the wait for an
-- interrupt may change, as a parameter.
pub mod Laws
use iso_light_k.Common.{
  ℕ, Bool, true, false, ◌==◌, if◌then◌else◌, ◌⊎◌, inl, inr, Option, none, some, List, Result, ok,
  err,
}
use iso_light_k.Common.Loop.{iterate}
use iso_light_k.Capability.{Capability, CapError, ep_system, ep_crypto, ep_sign}
use iso_light_k.Capability.Rights
use iso_light_k.Capability.Drbg.{DrbgApi, Kernel, generate_capability}
use iso_light_k.Ipc.{MessageType, IpcError, endpoint_not_found, is_kernel_service}
use iso_light_k.Ipc.Message
use iso_light_k.Ipc.Message.{IpcMessage, set_payload}
use iso_light_k.Ipc.Endpoint.{IpcEndpoint, post, take, post_reply, take_reply}
use iso_light_k.Ipc.Registry.{IpcRegistry, find, store}

unfoldable pub ipc_recv : IpcRegistry → ℕ → Result IpcError IpcMessage × IpcRegistry
ipc_recv r endpoint_id = elim (find r endpoint_id) [
  | none ↦ (err endpoint_not_found, r)
  | some e ↦ let (result, e') = take e in (result, store r e')
]

unfoldable pub ipc_reply :
    IpcRegistry → ℕ → MessageType → List ℕ → Result IpcError (Unit {0}) × IpcRegistry
ipc_reply r endpoint_id reply_type payload = elim (find r endpoint_id) [
  | none ↦ (err endpoint_not_found, r)
  | some e ↦ elim (set_payload (Message.new reply_type e.sequence) payload) [
    | err x ↦ (err x, r)
    | ok reply ↦ let (result, e') = post_reply e reply in (result, store r e')
  ]
]

-- What runs beside the registry while a call is under way.
pub record Services : Type 1 where
  pub World : Type 0
  pub crypto_dispatch : IpcRegistry → World → Result IpcError (Unit {0}) × IpcRegistry × World
  pub sign_dispatch : IpcRegistry → World → Result IpcError (Unit {0}) × IpcRegistry × World
  pub wait_for_interrupt : IpcRegistry → World → IpcRegistry × World

module _ (services : Services) where
  open services use {World, crypto_dispatch, sign_dispatch, wait_for_interrupt}

  -- A capability names its endpoint; EP_SYSTEM has no handler yet.
  unfoldable pub dispatch :
      ℕ → IpcRegistry → World → Result IpcError (Unit {0}) × IpcRegistry × World
  unfolding is_kernel_service
  dispatch endpoint_id r w =
      if is_kernel_service endpoint_id
      then (if endpoint_id == ep_crypto
          then crypto_dispatch r w
          else if endpoint_id == ep_sign
          then sign_dispatch r w
          else (ok tt, r, w))
      else (ok tt, r, w)

  -- The body of the polling loop.
  unfoldable pub poll :
      ℕ
      → IpcRegistry × World
      → (IpcRegistry × World) ⊎ (Result IpcError IpcMessage × IpcRegistry × World)
  poll endpoint_id (r, w) = elim (find r endpoint_id) [
    | none ↦ inr (err endpoint_not_found, r, w)
    | some e ↦
        let (reply, e') = take_reply e in
        elim reply [ ok m ↦ inr (ok m, store r e', w) | err x ↦ inl (wait_for_interrupt r w) ]
  ]

  -- What happens up to the poll: an error, or the state that the poll starts from.
  unfoldable pub send :
      Capability
      → MessageType
      → List ℕ
      → IpcRegistry
      → World
      → Result IpcError (Unit {0}) × IpcRegistry × World
  unfolding dispatch
  send cap msg_type payload r w = elim (set_payload (Message.new msg_type 0) payload) [
    | err x ↦ (err x, r, w)
    | ok msg ↦ elim (find r cap.endpoint_id) [
      | none ↦ (err endpoint_not_found, r, w)
      | some e ↦
          let (posted, e') = post e cap msg in
          elim posted [ err x ↦ (err x, r, w) | ok _ ↦ dispatch cap.endpoint_id (store r e') w ]
    ]
  ]

  -- The polling loop after a message was sent.
  unfoldable pub await_reply :
      ℕ
      → ℕ
      → Result IpcError (Unit {0}) × IpcRegistry × World
      → Option (Result IpcError IpcMessage × IpcRegistry × World)
  await_reply fuel endpoint_id (err x, r, w) = some (err x, r, w)
  await_reply fuel endpoint_id (ok _, r, w) = iterate (poll endpoint_id) fuel (r, w)

  -- `none` is a call that has not returned within the fuel, which counts the polls.
  unfoldable pub ipc_call :
      ℕ
      → Capability
      → MessageType
      → List ℕ
      → IpcRegistry
      → World
      → Option (Result IpcError IpcMessage × IpcRegistry × World)
  unfolding await_reply
  ipc_call fuel cap msg_type payload r w =
      await_reply fuel cap.endpoint_id (send cap msg_type payload r w)

module _ (api : DrbgApi) (tag : List ℕ) where
  unfoldable pub issue_crypto_capability :
      ℕ → Kernel api tag → Option (Result CapError Capability × Kernel api tag)
  issue_crypto_capability fuel = generate_capability api tag fuel ep_crypto Rights.call

  unfoldable pub issue_sign_capability :
      ℕ → Kernel api tag → Option (Result CapError Capability × Kernel api tag)
  issue_sign_capability fuel = generate_capability api tag fuel ep_sign Rights.call

  unfoldable pub issue_system_capability :
      ℕ → Kernel api tag → Option (Result CapError Capability × Kernel api tag)
  issue_system_capability fuel = generate_capability api tag fuel ep_system Rights.call
