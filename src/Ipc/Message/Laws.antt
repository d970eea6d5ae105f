-- ===== src/Ipc/Message/Laws.antt =====
-- What a message carries (src/ipc.rs).
use iso_light_k.Common.{
  ℕ, ◌-◌, ◌≡◌, ◌≤◌, ◌<◌, refl, List, ◌++◌, length, replicate, length-append, length-replicate,
  take-length-append, ok, err, arith,
}
use iso_light_k.Ipc.{payload_too_large, ipc_max_payload}
use iso_light_k.Ipc.Message.{IpcMessage, set_payload, payload_bytes}

-- A payload that fits is read back unchanged; the kind and the sequence number stay, and the
-- buffer keeps its size. One that does not fit is refused.
pub payload_bytes-set_payload :
    (m : IpcMessage) (bytes : List ℕ)
    → (length bytes ≤ ipc_max_payload
        → (m' : IpcMessage) × (set_payload m bytes ≡ ok m')
          × (payload_bytes m' ≡ bytes)
          × (length m'.payload ≡ ipc_max_payload)
          × (m'.header.msg_type ≡ m.header.msg_type)
          × (m'.header.sequence ≡ m.header.sequence))
      × (ipc_max_payload < length bytes → set_payload m bytes ≡ err payload_too_large)
unfolding set_payload payload_bytes
payload_bytes-set_payload m bytes = (
  λ h. (
    record {
      header = record (m.header) { payload_len = length bytes };
      payload = bytes ++ replicate (ipc_max_payload - length bytes) 0;
    },
    ground arith,
    take-length-append bytes (replicate (ipc_max_payload - length bytes) 0),
    omega (
      arith,
      length-append bytes (replicate (ipc_max_payload - length bytes) 0),
      length-replicate {A = ℕ} (ipc_max_payload - length bytes) 0,
    ),
    refl,
    refl,
  ),
  λ h. ground arith,
)

pub payload_len-set_payload :
    (m m' : IpcMessage) (bytes : List ℕ)
    → set_payload m bytes ≡ ok m'
    → m'.header.payload_len ≤ ipc_max_payload
unfolding set_payload
payload_len-set_payload m m' bytes h = ground arith
