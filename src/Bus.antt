-- ===== src/Bus.antt =====
-- src/bus.rs: the drivers of the transports to security modules, and their common types. A driver
-- takes its state and returns it beside the result; `read` into a buffer of some length returns
-- the bytes written to its front, whose number the source returns.
pub mod Software
pub mod Ring3
pub mod Instance
mod Tests
use iso_light_k.Common.{ℕ, Bool, true, false, not, ◌&&◌, ◌==◌, List, [], ◌∷◌}

abbrev pub max_bus_init_blob : ℕ
max_bus_init_blob = 32

pub data BusKind : Type 0 where
  software ring3_process usb spi serial smart_card network : BusKind

-- `kind as u8`
abbrev pub kind_octet : BusKind → ℕ
kind_octet software = 0
kind_octet ring3_process = 1
kind_octet usb = 2
kind_octet spi = 3
kind_octet serial = 4
kind_octet smart_card = 5
kind_octet network = 6

pub data BusError : Type 0 where
  not_implemented not_open already_open wire_not_ready : BusError
  bad_init buffer_too_small closed internal : BusError

pub record BusReady : Type 0 where
  pub readable : Bool
  pub writable : Bool
  pub closed : Bool

-- The loops over the rest of an init blob, which refuse a byte that is not 0.
abbrev pub all_zero : List ℕ → Bool
all_zero [] = true
all_zero (b ∷ bs) = b == 0 && all_zero bs
