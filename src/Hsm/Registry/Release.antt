-- ===== src/Hsm/Registry/Release.antt =====
-- `detach` and failed operations (src/hsm_registry.rs): what they leave of the table.
use iso_light_k.Common.{
  ℕ, ◌<◌, ◌≡◌, ◌≢◌, refl, sym, ◌∙◌, true, false, ltb, Bool-cases, inl, inr, Option, Option-cases,
  List, length, set, length-set, get_or-set_self, get_or-set_ne, Result, ok, err, arith,
}
use native.Mathlib.Decide.{ℕ_discrete}
use iso_light_k.Primitives.{Crypto, Random}
use iso_light_k.Capability.{CapError}
use iso_light_k.Bus.{BusKind, BusError}
use iso_light_k.Bus.Instance
use iso_light_k.Bus.Instance.{BusInstance}
use iso_light_k.Hsm.{
  empty, attached, detaching, HsmCapError, HsmCapability, covers, HsmSlot, new_slot, zeroize,
  Machine, slot_at, hsm_max_slots,
}
use iso_light_k.Hsm.Registry.{
  is_empty, find_empty, check_attest, open_into, attach_into, attach, authenticate, detach,
}
use iso_light_k.Hsm.Registry.Stored.{attach-IsStored, find_empty-some}
use iso_light_k.Hsm.Registry.Access.{authenticate_iff, attach_lem}

-- Between two operations: an empty slot holds nothing of what was attached to it before, and no
-- slot is half detached.
pub record IsValid (slots : List HsmSlot) : Type 0 where
  pub sized : length slots ≡ hsm_max_slots
  pub wiped : (j : ℕ) → is_empty (slot_at slots j) ≡ true → slot_at slots j ≡ new_slot
  pub settled : (j : ℕ) → (slot_at slots j).state ≢ detaching

set-IsValid :
    (slots : List HsmSlot) (i : ℕ) (s : HsmSlot)
    → IsValid slots
    → i < hsm_max_slots
    → (is_empty s ≡ true → s ≡ new_slot)
    → s.state ≢ detaching
    → IsValid (set slots i s)
set-IsValid slots i s v l blank live = record {
  sized = length-set slots i s ∙ v.sized;
  wiped = λ j h. elim (ℕ_discrete i j) [
    | yes e ↦ let at = here j e in rw at (blank (rw at at h))
    | no ne ↦ let at = get_or-set_ne slots i j s new_slot ne in rw at (v.wiped j (rw at at h))
  ];
  settled = λ j. elim (ℕ_discrete i j) [
    | yes e ↦ let at = here j e in rw at live
    | no ne ↦ let at = get_or-set_ne slots i j s new_slot ne in rw at (v.settled j)
  ];
}
  where
    here : (j : ℕ) → i ≡ j → slot_at (set slots i s) j ≡ s
    here j e = rw (← e) (get_or-set_self slots i s new_slot (omega (arith, v.sized)))

live_not_empty : (s : HsmSlot) → s.state ≡ attached → is_empty s ≡ true → ⊥
live_not_empty s live e = ground arith

live_not_detaching : (s : HsmSlot) → s.state ≡ attached → s.state ≡ detaching → ⊥
live_not_detaching s live e = let both : attached ≡ detaching = sym live ∙ e in ground arith

zeroize-new_slot : (s : HsmSlot) → zeroize s ≡ new_slot
unfolding zeroize Instance.zeroize
zeroize-new_slot s = refl

-- What `detach` with an accepted capability does.
pub record IsDetached {W : Type 0} (cap : HsmCapability) (m m' : Machine W) : Type 0 where
  pub wiped : slot_at m'.slots cap.slot ≡ new_slot
  pub others : (j : ℕ) → cap.slot ≢ j → slot_at m'.slots j ≡ slot_at m.slots j
  pub revoked :
      (d : HsmCapability) (required : ℕ)
      → d.slot ≡ cap.slot
      → authenticate m'.slots d required ≡ false

pub detach_accepted :
    {W : Type 0} (cap : HsmCapability) (required : ℕ) (m : Machine W)
    → authenticate m.slots cap required ≡ true
    → detach cap required m ≡ (ok tt, record m { slots = set m.slots cap.slot new_slot })
unfolding detach
detach_accepted cap required m h =
    rw
      (
        h,
        zeroize-new_slot (record (slot_at m.slots cap.slot) {
          state = detaching;
          bus = (Instance.close (slot_at m.slots cap.slot).bus).1;
        }),
      )
      refl

pub detach_refused :
    {W : Type 0} (cap : HsmCapability) (required : ℕ) (m : Machine W)
    → authenticate m.slots cap required ≡ false
    → (detach cap required m).1 ≡ m
unfolding detach
detach_refused cap required m h =
    rw h (elim (Bool-cases (ltb cap.slot hsm_max_slots)) [ inl a ↦ rw a refl | inr b ↦ rw b refl ])

-- On a table of 8 slots `detach` with an accepted capability succeeds: its slot is like a new one,
-- the others are as before, and no capability to the slot is accepted for anything.
pub detach_lem :
    {W : Type 0} (cap : HsmCapability) (required : ℕ) (m : Machine W)
    → length m.slots ≡ hsm_max_slots
    → authenticate m.slots cap required ≡ true
    → ((detach cap required m).0 ≡ ok tt) × IsDetached cap m (detach cap required m).1
detach_lem cap required m sized h = rw (detach_accepted cap required m h) (
  refl,
  record {
    wiped = blank;
    others = λ j ne. get_or-set_ne m.slots cap.slot j new_slot new_slot ne;
    revoked = λ d req e. elim (Bool-cases (authenticate after d req)) [
      | inr refused ↦ refused
      | inl still ↦
          let v = (authenticate_iff after d req).0 still in
          let at : slot_at after d.slot ≡ new_slot = rw e blank in
          let live : empty ≡ attached = rw at at v.is_live in absurd (ground arith)
    ];
  },
)
  where
    after : List HsmSlot
    after = set m.slots cap.slot new_slot

    blank : slot_at after cap.slot ≡ new_slot
    blank =
        get_or-set_self m.slots cap.slot new_slot new_slot
          (omega (arith, sized, ((authenticate_iff m.slots cap required).0 h).in_range))

-- Detaching keeps the table valid, whether it is accepted or not.
pub detach-IsValid :
    {W : Type 0} (cap : HsmCapability) (required : ℕ) (m : Machine W)
    → IsValid m.slots
    → IsValid (detach cap required m).1.slots
detach-IsValid cap required m v = elim (Bool-cases (authenticate m.slots cap required)) [
  | inl good ↦ rw (detach_accepted cap required m good) (
      set-IsValid m.slots cap.slot new_slot v
        ((authenticate_iff m.slots cap required).0 good).in_range (λ e. refl) (λ e. ground arith))
  | inr bad ↦ rw (detach_refused cap required m bad) v
]

module _ (c : Crypto) (rand : Random) where
  open_into_failed :
      (i t : ℕ) (kind : BusKind) (init : List ℕ) (prefix : Option (List ℕ)) (rights : ℕ)
      (m : Machine rand.World) (e : HsmCapError) (m' : Machine rand.World)
      → open_into c rand i t kind init prefix rights m ≡ (err e, m')
      → m' ≡ record m { world = m'.world }
  unfolding open_into
  open_into_failed i t kind init prefix rights m e m' h =
      go (Instance.open_bus rand m.ipc init (Instance.new kind) m.world) refl
    where
      go :
          (x : Result BusError (Unit {0}) × BusInstance × rand.World)
          → Instance.open_bus rand m.ipc init (Instance.new kind) m.world ≡ x
          → m' ≡ record m { world = m'.world }
      go (err f, bus, w) at = ground arith
      go (ok _, bus, w) at = absurd (ground arith)

  attach_into_failed :
      (i : ℕ) (kind : BusKind) (init : List ℕ) (prefix : Option (List ℕ)) (rights : ℕ)
      (m : Machine rand.World) (e : HsmCapError) (m' : Machine rand.World)
      → attach_into c rand i kind init prefix rights m ≡ (err e, m')
      → m' ≡ record m { world = m'.world }
  unfolding attach_into
  attach_into_failed i kind init prefix rights m e m' h = go (rand.gen_token_u64 m.world) refl
    where
      go :
          (x : Result CapError ℕ × rand.World)
          → rand.gen_token_u64 m.world ≡ x
          → m' ≡ record m { world = m'.world }
      go (err f, w) at = ground arith
      go (ok t, w) at =
          open_into_failed i t kind init prefix rights (record m { world = w }) e m' (ground arith)

  -- Where `attach` fails, the machine is as before but for the state of the random generator.
  pub attach_failed :
      (kind : BusKind) (init : List ℕ) (payload : Option (List ℕ)) (rights : ℕ)
      (m : Machine rand.World) (e : HsmCapError) (m' : Machine rand.World)
      → attach c rand kind init payload rights m ≡ (err e, m')
      → m' ≡ record m { world = m'.world }
  unfolding attach
  attach_failed kind init payload rights m e m' h = gate (check_attest c m kind payload) refl
    where
      gate :
          (r : Result HsmCapError (Option (List ℕ)))
          → check_attest c m kind payload ≡ r
          → m' ≡ record m { world = m'.world }
      gate (err f) g = ground arith
      gate (ok prefix) g = elim (Option-cases (find_empty 0 m.slots)) [
        | inl none_left ↦ ground arith
        | inr (i, f) ↦ attach_into_failed i kind init prefix rights m e m' (ground arith)
      ]

  -- Attaching keeps the table valid, whether it succeeds or not.
  pub attach-IsValid :
      (kind : BusKind) (init : List ℕ) (payload : Option (List ℕ)) (rights : ℕ)
      (m : Machine rand.World)
      → IsValid m.slots
      → IsValid (attach c rand kind init payload rights m).1.slots
  attach-IsValid kind init payload rights m v =
      go (attach c rand kind init payload rights m).0 (attach c rand kind init payload rights m).1
        refl
    where
      go :
          (r : Result HsmCapError HsmCapability) (m' : Machine rand.World)
          → attach c rand kind init payload rights m ≡ (r, m')
          → IsValid m'.slots
      go (err e) m' h = let same = attach_failed kind init payload rights m e m' h in rw same v
      go (ok cap) m' h =
          let (i, found, s) = attach-IsStored c rand kind init payload rights m cap m' h in
          let (d, at, l, free, lower) = find_empty-some 0 i m.slots found in
          rw s.slots_are (
            set-IsValid m.slots i s.stored v (omega (arith, v.sized))
              (λ e. absurd (live_not_empty s.stored s.stored_live e))
              (λ e. live_not_detaching s.stored s.stored_live e))

  -- On a valid table, where `attach` succeeds and the right to detach is among those asked for,
  -- `detach` with the capability given succeeds and leaves every slot as it was before both.
  pub detach-attach :
      (kind : BusKind) (init : List ℕ) (payload : Option (List ℕ)) (rights required : ℕ)
      (m : Machine rand.World) (cap : HsmCapability) (m' : Machine rand.World)
      → IsValid m.slots
      → covers rights required ≡ true
      → attach c rand kind init payload rights m ≡ (ok cap, m')
      → ((detach cap required m').0 ≡ ok tt)
        × ((j : ℕ) → slot_at (detach cap required m').1.slots j ≡ slot_at m.slots j)
  detach-attach kind init payload rights required m cap m' v has h =
      let a = attach_lem c rand kind init payload rights m cap m' v.sized h in
      let valid : IsValid m'.slots = ap-valid h (attach-IsValid kind init payload rights m v) in
      let (done, d) = detach_lem cap required m' valid.sized (a.accepted required has) in
      (
        done,
        λ j. elim (ℕ_discrete cap.slot j) [
          | yes e ↦ rw (← e) (d.wiped ∙ sym (v.wiped cap.slot a.was_free))
          | no ne ↦ d.others j ne ∙ a.others j ne
        ],
      )
    where
      ap-valid :
          attach c rand kind init payload rights m ≡ (ok cap, m')
          → IsValid (attach c rand kind init payload rights m).1.slots
          → IsValid m'.slots
      ap-valid e w = rw e at w
