-- ===== src/KernelServices.antt =====
-- What runs beside the registry of endpoints in the kernel: `crate::crypto_service::dispatch` and
-- `crate::sign_service::dispatch` as `ipc_call` of src/ipc.rs calls them. Interrupts are a parameter.
pub mod Laws
mod Tests
use iso_light_k.Primitives.{Aead, Random}
use iso_light_k.Ipc.Registry.{IpcRegistry}
use iso_light_k.Ipc.Call.{Services}
use iso_light_k.CryptoService.{Packages}
use iso_light_k.CryptoService.Dispatch
use iso_light_k.Sign.{Signer, Mldsa}
use iso_light_k.Sign.Service

module _ (aead : Aead) (crates : Packages) (dsa : Mldsa) (rand : Random) where
  abbrev pub World : Type 0
  World = Signer × rand.World

  -- The crypto service has no state of its own; the signing service has its session.
  abbrev pub kernel_services : (IpcRegistry → World → IpcRegistry × World) → Services
  kernel_services wait = record {
    World = World;
    crypto_dispatch = λ r w. let (x, r') = Dispatch.dispatch aead crates r in (x, r', w);
    sign_dispatch = λ r w. Service.dispatch dsa rand r w;
    wait_for_interrupt = wait;
  }
