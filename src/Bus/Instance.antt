-- ===== src/Bus/Instance.antt =====
-- src/bus.rs: `BusInstance`, which hands each call on to its variant. `write` stands with the
-- registry, which a write to a Ring 3 process calls.
use iso_light_k.Common.{ℕ, List, Result, err}
use iso_light_k.Primitives.{Random}
use iso_light_k.Ipc.Registry.{IpcRegistry}
use iso_light_k.Bus.{BusKind, software, ring3_process, usb, spi, serial, smart_card, network}
use iso_light_k.Bus.{BusError, not_open, not_implemented, BusReady}
use iso_light_k.Bus.Software
use iso_light_k.Bus.Software.{SoftwareBus}
use iso_light_k.Bus.Ring3
use iso_light_k.Bus.Ring3.{Ring3ProcessBus}

pub data BusInstance : Type 0 where
  empty_bus : BusInstance
  software_bus : SoftwareBus → BusInstance
  ring3_bus : Ring3ProcessBus → BusInstance
  usb_bus spi_bus serial_bus smart_card_bus network_bus : BusInstance

unfoldable pub new : BusKind → BusInstance
new software = software_bus Software.new
new ring3_process = ring3_bus Ring3.new
new usb = usb_bus
new spi = spi_bus
new serial = serial_bus
new smart_card = smart_card_bus
new network = network_bus

-- The `_` arms.
abbrev stub {ℓ} : {A : Type ℓ} → BusInstance → Result BusError A × BusInstance
stub b = (err not_implemented, b)

unfoldable pub open_bus :
    (rand : Random)
    → IpcRegistry
    → List ℕ
    → BusInstance
    → rand.World
    → Result BusError (Unit {0}) × BusInstance × rand.World
unfolding Software.open_bus Ring3.open_bus
open_bus rand ipc init (software_bus s) w =
    let (r, s', w') = Software.open_bus rand init s w in (r, software_bus s', w')
open_bus rand ipc init (ring3_bus p) w =
    let (r, p') = Ring3.open_bus ipc init p in (r, ring3_bus p', w)
open_bus rand ipc init empty_bus w = (err not_open, empty_bus, w)
open_bus rand ipc init b w = (err not_implemented, b, w)

unfoldable pub close : BusInstance → Result BusError (Unit {0}) × BusInstance
unfolding Software.close Ring3.close
close (software_bus s) = let (r, s') = Software.close s in (r, software_bus s')
close (ring3_bus p) = let (r, p') = Ring3.close p in (r, ring3_bus p')
close empty_bus = (err not_open, empty_bus)
close b = stub b

unfoldable pub read : ℕ → BusInstance → Result BusError (List ℕ) × BusInstance
unfolding Software.read Ring3.read
read room (software_bus s) = let (r, s') = Software.read room s in (r, software_bus s')
read room (ring3_bus p) = let (r, p') = Ring3.read room p in (r, ring3_bus p')
read room empty_bus = (err not_open, empty_bus)
read room b = stub b

unfoldable pub poll : BusInstance → Result BusError BusReady
unfolding Software.poll Ring3.poll
poll (software_bus s) = Software.poll s
poll (ring3_bus p) = Ring3.poll p
poll empty_bus = err not_open
poll b = err not_implemented

unfoldable pub kind : BusInstance → BusKind
kind (software_bus s) = software
kind (ring3_bus p) = ring3_process
kind empty_bus = software
kind usb_bus = usb
kind spi_bus = spi
kind serial_bus = serial
kind smart_card_bus = smart_card
kind network_bus = network

-- The payload of the variant is zeroed, and then the whole becomes `Empty`.
unfoldable pub zeroize : BusInstance → BusInstance
zeroize b = empty_bus
