-- ===== src/Hsm/Registry.antt =====
-- src/hsm_registry.rs: `HsmRegistry`, the operations on the slots. A failed operation may have drawn
-- random bytes, so that it returns a machine too.
pub mod Stored
pub mod Access
pub mod Listing
pub mod Release
use iso_light_k.Common.{
  ℕ, zero, suc, ◌+◌, min, Bool, true, false, not, ◌&&◌, ltb, ◌==◌, if◌then◌else◌, Option, none,
  some, List, [], ◌∷◌, ◌++◌, length, take, drop, set, replicate, Result, ok, err,
}
use iso_light_k.Primitives.{Crypto, Random}
use iso_light_k.Bus.{BusKind, kind_octet}
use iso_light_k.Bus.Instance
use iso_light_k.Bus.Instance.{BusInstance}
use iso_light_k.Hsm.{
  HsmSlotState, empty, attached, detaching, state_octet, HsmCapError, invalid_token, bad_slot, full,
  not_attached, busy, token_gen, bad_init, attest_failed, HsmCapability, covers, ct_token_eq,
  HsmSlot, zeroize, Machine, slot_at, hsm_max_slots,
}
use iso_light_k.Hsm.Attest.{pk_len, sig_len, pk_of, sig_of, verify_attest, pk_hash_prefix}

abbrev pub is_attached : HsmSlot → Bool
is_attached s = state_octet s.state == 1

abbrev pub is_empty : HsmSlot → Bool
is_empty s = state_octet s.state == 0

unfoldable pub attached_count : List HsmSlot → ℕ
attached_count [] = 0
attached_count (s ∷ slots) = (if is_attached s then 1 else 0) + attached_count slots

unfoldable pub slot_is_empty : List HsmSlot → ℕ → Bool
slot_is_empty slots i = if ltb i hsm_max_slots then is_empty (slot_at slots i) else false

-- The first empty slot, counted from `i`.
unfoldable pub find_empty : ℕ → List HsmSlot → Option ℕ
find_empty i [] = none
find_empty i (s ∷ slots) = if is_empty s then some i else find_empty (i + 1) slots

-- The gate before any change: without a payload it is passed by.
unfoldable pub check_attest :
    {W : Type 0}
    → Crypto
    → Machine W
    → BusKind
    → Option (List ℕ)
    → Result HsmCapError (Option (List ℕ))
unfolding verify_attest pk_hash_prefix pk_of sig_of
check_attest c m kind none = ok none
check_attest c m kind (some payload) =
    if not (length payload == pk_len + sig_len)
    then err attest_failed
    else elim (verify_attest c m (pk_of payload) kind (sig_of payload)) [
      | err e ↦ err attest_failed
      | ok _ ↦ ok (some (pk_hash_prefix c (pk_of payload)))
    ]

-- The slot that an attached module fills.
abbrev pub commit : BusInstance → ℕ → ℕ → Option (List ℕ) → HsmSlot → HsmSlot
commit bus token rights none s = record s {
  bus = bus;
  token = token;
  rights = rights;
  state = attached;
}
commit bus token rights (some prefix) s = record s {
  bus = bus;
  token = token;
  rights = rights;
  verify_result_code = 0;
  pk_hash_prefix = prefix;
  state = attached;
}

module _ (c : Crypto) (rand : Random) where
  -- The rest of the loop's body once the token is drawn.
  unfoldable pub open_into :
      ℕ
      → ℕ
      → BusKind
      → List ℕ
      → Option (List ℕ)
      → ℕ
      → Machine rand.World
      → Result HsmCapError HsmCapability × Machine rand.World
  unfolding Instance.new Instance.open_bus
  open_into i token kind init prefix rights m =
      let (r, bus, w) = Instance.open_bus rand m.ipc init (Instance.new kind) m.world in
      elim r [
        | err e ↦ (err bad_init, record m { world = w })
        | ok _ ↦ (
          ok (record { token = token; slot = i; rights = rights }),
          record m {
            slots = set m.slots i (commit bus token rights prefix (slot_at m.slots i));
            world = w;
          },
        )
      ]

  -- The body of the loop at the first empty slot.
  unfoldable pub attach_into :
      ℕ
      → BusKind
      → List ℕ
      → Option (List ℕ)
      → ℕ
      → Machine rand.World
      → Result HsmCapError HsmCapability × Machine rand.World
  unfolding open_into
  attach_into i kind init prefix rights m =
      let (token, w) = rand.gen_token_u64 m.world in
      elim token [
        | err e ↦ (err token_gen, record m { world = w })
        | ok t ↦ open_into i t kind init prefix rights (record m { world = w })
      ]

  unfoldable pub attach :
      BusKind
      → List ℕ
      → Option (List ℕ)
      → ℕ
      → Machine rand.World
      → Result HsmCapError HsmCapability × Machine rand.World
  unfolding check_attest find_empty attach_into
  attach kind init payload rights m = elim (check_attest c m kind payload) [
    | err e ↦ (err e, m)
    | ok prefix ↦ elim (find_empty 0 m.slots) [
      | none ↦ (err full, m)
      | some i ↦ attach_into i kind init prefix rights m
    ]
  ]

-- The index of a slot out of range reads slot 0, and the answer is then `false`.
unfoldable pub authenticate : List HsmSlot → HsmCapability → ℕ → Bool
unfolding ct_token_eq
authenticate slots cap required =
    let in_range = ltb cap.slot hsm_max_slots in
    let safe_idx = if in_range then cap.slot else 0 in
    let slot = slot_at slots safe_idx in
    let cap_in_slot : HsmCapability = record {
      token = slot.token;
      slot = safe_idx;
      rights = slot.rights;
    } in
    not (cap.token == 0)
    && is_attached slot
    && ct_token_eq cap cap_in_slot
    && covers slot.rights required
    && covers cap.rights required
    && in_range

-- The reason that `detach` gives for a refusal.
abbrev pub refusal : HsmSlotState → HsmCapError
refusal detaching = busy
refusal empty = not_attached
refusal attached = invalid_token

-- The result of closing the bus is ignored.
unfoldable pub detach :
    {W : Type 0} → HsmCapability → ℕ → Machine W → Result HsmCapError (Unit {0}) × Machine W
unfolding authenticate Instance.close zeroize
detach cap required m =
    let slot = slot_at m.slots cap.slot in
    if authenticate m.slots cap required
    then (
      ok tt,
      record m {
        slots =
            set m.slots cap.slot
              (zeroize (record slot { state = detaching; bus = (Instance.close slot.bus).1 }));
      },
    )
    else if ltb cap.slot hsm_max_slots
    then (err (refusal slot.state), m)
    else (err bad_slot, m)

pub record HsmSlotInfo : Type 0 where
  pub slot : ℕ
  pub state : ℕ
  pub reserved : List ℕ

abbrev pub info_of : ℕ → HsmSlot → HsmSlotInfo
info_of i s = record {
  slot = i;
  state = state_octet s.state;
  reserved = kind_octet (Instance.kind s.bus) ∷ s.verify_result_code ∷ s.pk_hash_prefix;
}

-- The attached ones among the next `cap` slots.
unfoldable pub enumerate_from : ℕ → ℕ → List HsmSlot → List HsmSlotInfo
enumerate_from i zero slots = []
enumerate_from i (suc cap) [] = []
enumerate_from i (suc cap) (s ∷ slots) =
    let rest = enumerate_from (i + 1) cap slots in
    if is_attached s then info_of i s ∷ rest else rest

-- The entries written into a buffer of `room` of them.
unfoldable pub enumerate : ℕ → List HsmSlot → List HsmSlotInfo
unfolding enumerate_from
enumerate room slots = enumerate_from 0 (min room hsm_max_slots) slots
