-- ===== src/Keystore.antt =====
-- src/keystore.rs and the interface of src/hsm.rs: the pool of pre-shared keys, and the driver of a
-- machine without keys. An identifier is a list of 16 bytes. SHA-256, on which its
-- HKDF stands, is a parameter. The static SOFT_KEYSTORE is passed along.
pub mod Search
pub mod Provision
pub mod Destroy
mod Tests
use iso_light_k.Common.{
  ℕ, zero, suc, ◌+◌, ◌-◌, Bool, true, false, not, ◌&&◌, ◌||◌, ltb, ◌==◌, if◌then◌else◌, Option,
  none, some, List, [], ◌∷◌, ◌++◌, length, take, set, replicate, get_elem?, Result, ok, err,
}
use iso_light_k.Hmac.{hkdf_extract}

abbrev pub max_psk_slots : ℕ
max_psk_slots = 8

abbrev pub max_psk_len : ℕ
max_psk_len = 64

abbrev pub zero_id : List ℕ
zero_id = replicate 16 0

pub data SlotState : Type 0 where
  empty provisioned wiped : SlotState

pub data KeystoreError : Type 0 where
  invalid_length full duplicate not_found : KeystoreError

pub data HsmError : Type 0 where
  psk_not_found not_provisioned internal : HsmError

pub record PskSlot : Type 0 where
  pub id : List ℕ
  pub state : SlotState
  pub material : List ℕ
  pub material_len : ℕ

abbrev pub empty_slot : PskSlot
empty_slot = record {
  id = zero_id;
  state = empty;
  material = replicate max_psk_len 0;
  material_len = 0;
}

-- The slots of the pool.
abbrev pub SoftKeystore : Type 0
SoftKeystore = List PskSlot

abbrev pub new : SoftKeystore
new = replicate max_psk_slots empty_slot

abbrev pub is_empty : SlotState → Bool
is_empty empty = true
is_empty provisioned = false
is_empty wiped = false

abbrev pub is_provisioned : SlotState → Bool
is_provisioned empty = false
is_provisioned provisioned = true
is_provisioned wiped = false

-- Equality of identifiers.
pub same_id : List ℕ → List ℕ → Bool
same_id [] [] = true
same_id [] (b ∷ bs) = false
same_id (a ∷ as') [] = false
same_id (a ∷ as') (b ∷ bs) = a == b && same_id as' bs

abbrev pub is_live : List ℕ → PskSlot → Bool
is_live id s = is_provisioned s.state && same_id s.id id

abbrev pub has_id : List ℕ → PskSlot → Bool
has_id id s = not (is_empty s.state) && same_id s.id id

-- The index of the first slot that passes a test.
pub find_index : (PskSlot → Bool) → ℕ → SoftKeystore → Option ℕ
find_index test i [] = none
find_index test i (s ∷ ss) = if test s then some i else find_index test (i + 1) ss

abbrev pub find_provisioned : SoftKeystore → List ℕ → Option ℕ
find_provisioned ks id = find_index (is_live id) 0 ks

abbrev pub find_any_with_id : SoftKeystore → List ℕ → Option ℕ
find_any_with_id ks id = find_index (has_id id) 0 ks

-- The key is copied to the front of the slot, and the rest is zeroed.
abbrev pub filled : List ℕ → List ℕ → PskSlot
filled id material = record {
  id = id;
  state = provisioned;
  material = material ++ replicate (max_psk_len - length material) 0;
  material_len = length material;
}

-- The loop of `provision` over the slots; `none` if none is empty.
pub fill_empty : PskSlot → SoftKeystore → Option SoftKeystore
fill_empty new_slot [] = none
fill_empty new_slot (s ∷ ss) =
    if is_empty s.state
    then some (new_slot ∷ ss)
    else elim (fill_empty new_slot ss) [ none ↦ none | some rest ↦ some (s ∷ rest) ]

abbrev pub is_nothing : Option ℕ → Bool
is_nothing none = true
is_nothing (some i) = false

unfoldable pub provision :
    SoftKeystore → List ℕ → List ℕ → Result KeystoreError (Unit {0}) × SoftKeystore
provision ks id material =
    if length material == 0 || ltb max_psk_len (length material)
    then (err invalid_length, ks)
    else if not (is_nothing (find_any_with_id ks id))
    then (err duplicate, ks)
    else elim (fill_empty (filled id material) ks) [
      | none ↦ (err full, ks)
      | some ks' ↦ (ok tt, ks')
    ]

abbrev pub wiped_slot : PskSlot
wiped_slot = record {
  id = zero_id;
  state = wiped;
  material = replicate max_psk_len 0;
  material_len = 0;
}

unfoldable pub wipe_all : SoftKeystore → SoftKeystore
wipe_all [] = []
wipe_all (s ∷ ss) = wiped_slot ∷ wipe_all ss

unfoldable pub provisioned_count : SoftKeystore → ℕ
provisioned_count [] = 0
provisioned_count (s ∷ ss) =
    if is_provisioned s.state then suc (provisioned_count ss) else provisioned_count ss

-- The loop over all slots that accumulates the matches.
unfoldable pub psk_exists : SoftKeystore → List ℕ → Bool
psk_exists [] id = false
psk_exists (s ∷ ss) id = is_live id s || psk_exists ss id

unfoldable pub psk_destroy : SoftKeystore → List ℕ → Result HsmError (Unit {0}) × SoftKeystore
psk_destroy ks id = elim (find_any_with_id ks id) [
  | none ↦ (ok tt, ks)
  | some i ↦ (ok tt, set ks i wiped_slot)
]

module _ (sha256 : List ℕ → List ℕ) where
  unfoldable pub psk_hkdf_extract : SoftKeystore → List ℕ → List ℕ → Result HsmError (List ℕ)
  psk_hkdf_extract ks id salt = elim (find_provisioned ks id) [
    | none ↦ err psk_not_found
    | some i ↦ elim (get_elem? ks i) [
      | none ↦ err internal
      | some slot ↦
          if slot.material_len == 0
          then err internal
          else ok (hkdf_extract sha256 salt (take slot.material_len slot.material))
    ]
  ]

-- `NullHsm`
abbrev pub null_psk_exists : List ℕ → Bool
null_psk_exists id = false

abbrev pub null_psk_hkdf_extract : List ℕ → List ℕ → Result HsmError (List ℕ)
null_psk_hkdf_extract id salt = err not_provisioned

abbrev pub null_psk_destroy : List ℕ → Result HsmError (Unit {0})
null_psk_destroy id = ok tt
