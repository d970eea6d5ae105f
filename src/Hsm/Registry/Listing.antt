-- ===== src/Hsm/Registry/Listing.antt =====
-- `enumerate` and `attached_count` (src/hsm_registry.rs): which slots the list shows.
use iso_light_k.Common.{
  ℕ, zero, suc, ◌+◌, ◌<◌, ◌≡◌, ◌↔◌, ◌⊎◌, inl, inr, refl, ap, ◌∙◌, true, min, Bool-cases, List, [],
  ◌∷◌, length, arith,
}
use iso_light_k.Hsm.{HsmSlot, slot_at, hsm_max_slots}
use iso_light_k.Hsm.Registry.{
  HsmSlotInfo, is_attached, attached_count, info_of, enumerate_from, enumerate,
}

-- The list has the entry.
pub Has : HsmSlotInfo → List HsmSlotInfo → Type 0
Has x [] = ⊥
Has x (y ∷ ys) = (x ≡ y) ⊎ Has x ys

-- The entry of an attached slot among the first `room`.
pub record IsListed (x : HsmSlotInfo) (i room : ℕ) (slots : List HsmSlot) : Type 0 where
  pub index : ℕ
  pub within : index < room
  pub present : index < length slots
  pub live : is_attached (slot_at slots index) ≡ true
  pub entry : x ≡ info_of (i + index) (slot_at slots index)

IsListed-shift :
    (x : HsmSlotInfo) (i room : ℕ) (s : HsmSlot) (slots : List HsmSlot)
    → IsListed x (i + 1) room slots
    → IsListed x i (suc room) (s ∷ slots)
IsListed-shift x i room s slots v = record {
  index = suc v.index;
  within = omega (arith, v.within);
  present = omega (arith, v.present);
  live = v.live;
  entry = v.entry ∙ ap (λ (t : ℕ). info_of t (slot_at slots v.index)) (omega arith);
}

enumerate_from-IsListed :
    (x : HsmSlotInfo) (i room : ℕ) (slots : List HsmSlot)
    → Has x (enumerate_from i room slots)
    → IsListed x i room slots
unfolding enumerate_from Has
enumerate_from-IsListed x i zero slots h = absurd h
enumerate_from-IsListed x i (suc room) [] h = absurd h
enumerate_from-IsListed x i (suc room) (s ∷ slots) h =
    let later = enumerate_from-IsListed x (i + 1) room slots in
    elim (Bool-cases (is_attached s)) [
      | inl here ↦ first here later (rw here at h)
      | inr not_here ↦ IsListed-shift x i room s slots (later (rw not_here at h))
    ]
  where
    first :
        is_attached s ≡ true
        → (Has x (enumerate_from (i + 1) room slots) → IsListed x (i + 1) room slots)
        → (x ≡ info_of i s) ⊎ Has x (enumerate_from (i + 1) room slots)
        → IsListed x i (suc room) (s ∷ slots)
    first here later (inl e) = record {
      index = 0;
      within = omega arith;
      present = omega arith;
      live = here;
      entry = e ∙ ap (λ (t : ℕ). info_of t s) (omega arith);
    }
    first here later (inr k) = IsListed-shift x i room s slots (later k)

listed_enumerate_from :
    (x : HsmSlotInfo) (i room j : ℕ) (slots : List HsmSlot)
    → j < room
    → j < length slots
    → is_attached (slot_at slots j) ≡ true
    → x ≡ info_of (i + j) (slot_at slots j)
    → Has x (enumerate_from i room slots)
unfolding enumerate_from Has
listed_enumerate_from x i zero j slots l p live e = absurd (omega arith)
listed_enumerate_from x i (suc room) j [] l p live e = absurd (omega arith)
listed_enumerate_from x i (suc room) zero (s ∷ slots) l p live e =
    rw live (inl (e ∙ ap (λ (t : ℕ). info_of t s) (omega arith)))
listed_enumerate_from x i (suc room) (suc j) (s ∷ slots) l p live e =
    let rest =
      listed_enumerate_from x (i + 1) room j slots (omega arith) (omega arith) live
        (e ∙ ap (λ (t : ℕ). info_of t (slot_at slots j)) (omega arith)) in
    elim (Bool-cases (is_attached s)) [
      | inl here ↦ rw here (inr rest)
      | inr not_here ↦ rw not_here rest
    ]

-- An entry is in the list of `enumerate` exactly when it is that of an attached slot whose index
-- is below 8 and below the room of the list.
pub enumerate_lem :
    (x : HsmSlotInfo) (room : ℕ) (slots : List HsmSlot)
    → Has x (enumerate room slots) ↔ IsListed x 0 (min room hsm_max_slots) slots
unfolding enumerate
enumerate_lem x room slots = (
  enumerate_from-IsListed x 0 (min room hsm_max_slots) slots,
  λ v.
      listed_enumerate_from x 0 (min room hsm_max_slots) v.index slots v.within v.present v.live
        v.entry,
)

length-enumerate_from :
    (i room : ℕ) (slots : List HsmSlot)
    → length slots ≡ room
    → length (enumerate_from i room slots) ≡ attached_count slots
unfolding enumerate_from attached_count
length-enumerate_from i zero [] e = refl
length-enumerate_from i zero (s ∷ slots) e = absurd (omega arith)
length-enumerate_from i (suc room) [] e = absurd (omega arith)
length-enumerate_from i (suc room) (s ∷ slots) e =
    let ih = length-enumerate_from (i + 1) room slots (omega arith) in
    elim (Bool-cases (is_attached s)) [
      | inl here ↦ rw here (omega arith)
      | inr not_here ↦ rw not_here (omega arith)
    ]

-- On a table of 8 slots the list of `enumerate` with room for 8 entries has as many as
-- `attached_count` counts.
pub length-enumerate :
    (slots : List HsmSlot)
    → length slots ≡ hsm_max_slots
    → length (enumerate hsm_max_slots slots) ≡ attached_count slots
unfolding enumerate
length-enumerate slots e = length-enumerate_from 0 hsm_max_slots slots e
