-- ===== src/Capability/Space/Laws.antt =====
-- The slots of a process (src/capability.rs): occupancy, insertion, search and revocation.
use iso_light_k.Common.{
  ℕ, zero, suc, ◌+◌, ◌-◌, ◌≤◌, ◌<◌, ◌≡◌, ◌≢◌, ◌↔◌, refl, ap, ◌∙◌, Option, none, some, List, [], ◌∷◌,
  length, get_elem?, set, length-set, get_elem?-set_self, get_elem?-set_ne, ok, err, arith,
}
use iso_light_k.Capability.{Capability, invalid_slot}
use iso_light_k.Capability.Space.{
  CapabilitySpace, max_caps_per_space, first_none, insert, get, revoke,
}

abbrev pub occupied : List (Option Capability) → ℕ
occupied [] = 0
occupied (none ∷ slots) = occupied slots
occupied (some c ∷ slots) = suc (occupied slots)

-- There are as many slots as the constant says, and the counter counts the occupied ones.
pub record IsValid (s : CapabilitySpace) : Type 0 where
  pub sized : length s.slots ≡ max_caps_per_space
  pub counted : s.count ≡ occupied s.slots

occupied-set-some :
    (slots : List (Option Capability)) (j : ℕ) (c : Capability)
    → get_elem? slots j ≡ some none
    → occupied (set slots j (some c)) ≡ suc (occupied slots)
occupied-set-some [] j c h = cc
occupied-set-some (none ∷ slots) zero c h = refl
occupied-set-some (some d ∷ slots) zero c h = cc
occupied-set-some (none ∷ slots) (suc j) c h = occupied-set-some slots j c h
occupied-set-some (some d ∷ slots) (suc j) c h = ap suc (occupied-set-some slots j c h)

occupied-set-none :
    (slots : List (Option Capability)) (j : ℕ) (d : Capability)
    → get_elem? slots j ≡ some (some d)
    → suc (occupied (set slots j none)) ≡ occupied slots
occupied-set-none [] j d h = cc
occupied-set-none (none ∷ slots) zero d h = cc
occupied-set-none (some c ∷ slots) zero d h = refl
occupied-set-none (none ∷ slots) (suc j) d h = occupied-set-none slots j d h
occupied-set-none (some c ∷ slots) (suc j) d h = ap suc (occupied-set-none slots j d h)

occupied-set_free :
    (slots : List (Option Capability)) (j : ℕ)
    → get_elem? slots j ≡ some none
    → occupied (set slots j none) ≡ occupied slots
occupied-set_free [] j h = refl
occupied-set_free (none ∷ slots) zero h = refl
occupied-set_free (some d ∷ slots) zero h = cc
occupied-set_free (none ∷ slots) (suc j) h = occupied-set_free slots j h
occupied-set_free (some d ∷ slots) (suc j) h = ap suc (occupied-set_free slots j h)

get_elem?-lt :
    (slots : List (Option Capability)) (j : ℕ) → get_elem? slots j ≡ some none → j < length slots
get_elem?-lt [] j h = cc
get_elem?-lt (c ∷ slots) zero h = omega arith
get_elem?-lt (c ∷ slots) (suc j) h = omega (arith, get_elem?-lt slots j h)

occupied-le : (slots : List (Option Capability)) → occupied slots ≤ length slots
occupied-le [] = omega arith
occupied-le (none ∷ slots) = omega (arith, occupied-le slots)
occupied-le (some c ∷ slots) = omega (arith, occupied-le slots)

-- What the search for an empty slot finds.
first_none-some :
    (i k : ℕ) (slots : List (Option Capability))
    → first_none i slots ≡ some k
    → (j : ℕ) × (k ≡ i + j) × (get_elem? slots j ≡ some none) × (j < length slots)
unfolding first_none
first_none-some i k [] h = cc
first_none-some i k (none ∷ slots) h = (0, ground arith, refl, omega arith)
first_none-some i k (some c ∷ slots) h =
    let (j, e, g, l) = first_none-some (i + 1) k slots h in (suc j, omega arith, g, omega arith)

first_none-none :
    (i : ℕ) (slots : List (Option Capability))
    → (first_none i slots ≡ none) ↔ (occupied slots ≡ length slots)
unfolding first_none
first_none-none i [] = (λ h. refl, λ h. refl)
first_none-none i (none ∷ slots) = (λ h. cc, λ h. absurd (omega (arith, occupied-le slots)))
first_none-none i (some c ∷ slots) = (
  λ h. ap suc ((first_none-none (i + 1) slots).0 h),
  λ h. (first_none-none (i + 1) slots).1 (omega arith),
)

first_none_zero :
    (k : ℕ) (slots : List (Option Capability))
    → first_none 0 slots ≡ some k
    → (get_elem? slots k ≡ some none) × (k < length slots)
first_none_zero k slots h =
    let (j, e, free, inside) = first_none-some 0 k slots h in
    let same : k ≡ j = omega arith in rw same (free, inside)

-- Insertion fails exactly when every slot is occupied, and then changes nothing.
pub insert_full :
    (s : CapabilitySpace) (c : Capability)
    → (((insert s c).1 ≡ none) ↔ (occupied s.slots ≡ length s.slots))
      × ((insert s c).1 ≡ none → (insert s c).0 ≡ s)
unfolding insert
insert_full s c = (
  (
    λ h. (first_none-none 0 s.slots).0 (ground arith),
    λ h. let e = (first_none-none 0 s.slots).1 h in ground arith,
  ),
  λ h. ground arith,
)

insert_found :
    (s : CapabilitySpace) (c : Capability) (i : ℕ)
    → (insert s c).1 ≡ some i
    → (get_elem? s.slots i ≡ some none)
      × (i < length s.slots)
      × ((insert s c).0 ≡ record s { slots = set s.slots i (some c); count = s.count + 1 })
unfolding insert
insert_found s c i h = ground (arith, first_none_zero i s.slots)

get-set_self :
    (s : CapabilitySpace) (i n : ℕ) (v : Option Capability)
    → i < length s.slots
    → get (record s { slots = set s.slots i v; count = n }) i ≡ v
unfolding get
get-set_self s i n v h = rw (get_elem?-set_self s.slots i v h, get) refl

get-set_ne :
    (s : CapabilitySpace) (i j n : ℕ) (v : Option Capability)
    → i ≢ j
    → get (record s { slots = set s.slots i v; count = n }) j ≡ get s j
unfolding get
get-set_ne s i j n v h = rw (get_elem?-set_ne s.slots i j v h, get) refl

pub get_held :
    (s : CapabilitySpace) (i : ℕ) (c : Capability)
    → get s i ≡ some c
    → get_elem? s.slots i ≡ some (some c)
get_held s i c h = unfold get in ground arith

get_free : (s : CapabilitySpace) (i : ℕ) → get_elem? s.slots i ≡ some none → get s i ≡ none
unfolding get
get_free s i h = rw (h, get) refl

-- A capability that `insert` puts at a slot is found there by `get`; the slot was free, no other
-- slot changes, and a well-formed space stays well-formed.
pub get-insert :
    (s : CapabilitySpace) (c : Capability) (i : ℕ)
    → (insert s c).1 ≡ some i
    → (get s i ≡ none)
      × (get (insert s c).0 i ≡ some c)
      × ((j : ℕ) → i ≢ j → get (insert s c).0 j ≡ get s j)
      × (IsValid s → IsValid (insert s c).0)
get-insert s c i h =
    let (free, inside, new) = insert_found s c i h in
    rw new (
      get_free s i free,
      get-set_self s i (s.count + 1) (some c) inside,
      λ j ne. get-set_ne s i j (s.count + 1) (some c) ne,
      λ v. record {
        sized = length-set s.slots i (some c) ∙ v.sized;
        counted = omega (arith, v.counted, occupied-set-some s.slots i c free);
      },
    )

-- Revoking a slot in range succeeds, empties it and leaves the others; if it was occupied, a
-- well-formed space stays well-formed. Out of range it is refused with `InvalidSlot` and changes
-- nothing.
pub get-revoke :
    (s : CapabilitySpace) (i : ℕ)
    → (i < length s.slots
        → ((revoke s i).1 ≡ ok tt)
          × (get (revoke s i).0 i ≡ none)
          × ((j : ℕ) → i ≢ j → get (revoke s i).0 j ≡ get s j)
          × ((c : Capability) → get s i ≡ some c → IsValid s → IsValid (revoke s i).0))
      × (length s.slots ≤ i → revoke s i ≡ (s, err invalid_slot))
get-revoke s i = (
  λ h.
      let (done, new) = revoke_in_range s i h in
      rw new (
        done,
        get-set_self s i (s.count - 1) none h,
        λ j ne. get-set_ne s i j (s.count - 1) none ne,
        λ c held v. record {
          sized = length-set s.slots i none ∙ v.sized;
          counted = omega (arith, v.counted, occupied-set-none s.slots i c (get_held s i c held));
        },
      ),
  λ h. unfold revoke in ground arith,
)
  where
    revoke_in_range :
        (s : CapabilitySpace) (i : ℕ)
        → i < length s.slots
        → ((revoke s i).1 ≡ ok tt)
          × ((revoke s i).0 ≡ record s { slots = set s.slots i none; count = s.count - 1 })
    revoke_in_range s i h = unfold revoke in ground arith

-- Revoking an empty slot of a well-formed space that holds some capability lowers the counter all
-- the same, which then no longer counts the occupied slots.
pub revoke_empty_miscounts :
    (s : CapabilitySpace) (i : ℕ)
    → IsValid s
    → get_elem? s.slots i ≡ some none
    → 0 < occupied s.slots
    → suc (revoke s i).0.count ≡ occupied (revoke s i).0.slots
unfolding revoke
revoke_empty_miscounts s i v h pos =
    ground (arith, get_elem?-lt s.slots i, occupied-set_free s.slots i h, v.counted)
