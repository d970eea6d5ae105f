-- ===== src/Hsm/Registry/Stored.antt =====
-- What `attach` (src/hsm_registry.rs) checks and stores.
use iso_light_k.Common.{
  ℕ, zero, suc, ◌+◌, ◌<◌, ◌≡◌, ◌≢◌, refl, ◌∙◌, ap, Bool, true, false, ◌==◌, ==_iff, Bool-cases, inl,
  inr, Option, none, some, Option-cases, List, [], ◌∷◌, length, take, set, Result, ok, err, arith,
}
use iso_light_k.Primitives.{Crypto, Random}
use iso_light_k.Capability.{CapError}
use iso_light_k.Bus.{BusKind, BusError}
use iso_light_k.Bus.Instance
use iso_light_k.Bus.Instance.{BusInstance}
use iso_light_k.Hsm.{attached, HsmCapError, attest_failed, HsmCapability, HsmSlot, Machine, slot_at}
use iso_light_k.Hsm.Attest.{
  pk_len, sig_len, pk_of, sig_of, verify_attest, enroll_context, pre_image,
}
use iso_light_k.Hsm.Registry.{
  is_empty, find_empty, check_attest, commit, open_into, attach_into, attach,
}

pub find_empty-some :
    (i k : ℕ) (slots : List HsmSlot)
    → find_empty i slots ≡ some k
    → (d : ℕ) × (k ≡ i + d)
      × (d < length slots)
      × (is_empty (slot_at slots d) ≡ true)
      × ((j : ℕ) → j < d → is_empty (slot_at slots j) ≡ false)
unfolding find_empty
find_empty-some i k [] h = absurd (ground arith)
find_empty-some i k (s ∷ slots) h = elim (Bool-cases (is_empty s)) [
  | inl free ↦ (0, ground arith, omega arith, free, λ j l. absurd (omega arith))
  | inr used ↦
      let (d, at, l, free, lower) = find_empty-some (i + 1) k slots (ground arith) in
      (suc d, omega arith, omega arith, free, λ j. below d j slots lower used)
]
  where
    below :
        (d j : ℕ) (slots : List HsmSlot)
        → ((j : ℕ) → j < d → is_empty (slot_at slots j) ≡ false)
        → is_empty s ≡ false
        → j < suc d
        → is_empty (slot_at (s ∷ slots) j) ≡ false
    below d zero slots lower used l = used
    below d (suc j) slots lower used l = lower j (omega arith)

module _ (c : Crypto) (rand : Random) where
  -- A module whose key, transport and the challenge of this boot the trust root has signed.
  pub record IsAttested (m : Machine rand.World) (kind : BusKind) (payload : List ℕ) : Type 0 where
    pub sized : length payload ≡ pk_len + sig_len
    pub digest : List ℕ
    pub hashed : c.blake3 (pre_image m (pk_of payload) kind) ≡ some digest
    pub verified :
        c.mldsa_verify m.trust_root (take 32 digest) (sig_of payload) enroll_context ≡ some true

  check_attest_sized :
      (m : Machine rand.World) (kind : BusKind) (payload : List ℕ) (prefix : Option (List ℕ))
      → check_attest c m kind (some payload) ≡ ok prefix
      → length payload ≡ pk_len + sig_len
  unfolding check_attest
  check_attest_sized m kind payload prefix h =
      elim (Bool-cases (length payload == pk_len + sig_len)) [
        | inl y ↦ (==_iff (length payload) (pk_len + sig_len)).0 y
        | inr n ↦ absurd (refused n)
      ]
    where
      refused : (length payload == pk_len + sig_len) ≡ false → ⊥
      refused n = let e : check_attest c m kind (some payload) ≡ err attest_failed = rw n refl in cc

  check_attest-some :
      (m : Machine rand.World) (kind : BusKind) (payload : List ℕ) (prefix : Option (List ℕ))
      → check_attest c m kind (some payload) ≡ ok prefix
      → IsAttested m kind payload
  unfolding check_attest verify_attest
  check_attest-some m kind payload prefix h = go (c.blake3 pre) refl
    where
      pre : List ℕ
      pre = pre_image m (pk_of payload) kind

      verdict : List ℕ → Option Bool
      verdict digest = c.mldsa_verify m.trust_root (take 32 digest) (sig_of payload) enroll_context

      go : (o : Option (List ℕ)) → c.blake3 pre ≡ o → IsAttested m kind payload
      go none e = absurd (ground arith)
      go (some d) e = judged (verdict d) refl
        where
          judged : (o : Option Bool) → verdict d ≡ o → IsAttested m kind payload
          judged none v = absurd (ground arith)
          judged (some false) v = absurd (ground arith)
          judged (some true) v = record {
            sized = check_attest_sized m kind payload prefix h;
            digest = d;
            hashed = e;
            verified = v;
          }

  commit_lem :
      (bus : BusInstance) (token rights : ℕ) (prefix : Option (List ℕ)) (s : HsmSlot)
      → ((commit bus token rights prefix s).state ≡ attached)
        × ((commit bus token rights prefix s).token ≡ token)
        × ((commit bus token rights prefix s).rights ≡ rights)
  commit_lem bus token rights none s = (refl, refl, refl)
  commit_lem bus token rights (some prefix) s = (refl, refl, refl)

  -- What a successful attach stores.
  pub record IsStored (i rights : ℕ) (before : List HsmSlot) (cap : HsmCapability)
      (after : List HsmSlot) : Type 0 where
    pub place : cap.slot ≡ i
    pub rights_are : cap.rights ≡ rights
    pub token_nonzero : cap.token ≢ 0
    pub stored : HsmSlot
    pub stored_live : stored.state ≡ attached
    pub stored_token : stored.token ≡ cap.token
    pub stored_rights : stored.rights ≡ rights
    pub slots_are : after ≡ set before i stored

  open_into-IsStored :
      (i token : ℕ) (kind : BusKind) (init : List ℕ) (prefix : Option (List ℕ)) (rights : ℕ)
      (m : Machine rand.World) (cap : HsmCapability) (m' : Machine rand.World)
      → token ≢ 0
      → open_into c rand i token kind init prefix rights m ≡ (ok cap, m')
      → IsStored i rights m.slots cap m'.slots
  unfolding open_into
  open_into-IsStored i token kind init prefix rights m cap m' nz h =
      go (Instance.open_bus rand m.ipc init (Instance.new kind) m.world) refl
    where
      go :
          (x : Result BusError (Unit {0}) × BusInstance × rand.World)
          → Instance.open_bus rand m.ipc init (Instance.new kind) m.world ≡ x
          → IsStored i rights m.slots cap m'.slots
      go (err e, bus, w) at = absurd (ground arith)
      go (ok _, bus, w) at =
          let slot = commit bus token rights prefix (slot_at m.slots i) in
          let (live, token_is, rights_are) =
            commit_lem bus token rights prefix (slot_at m.slots i) in
          record {
            place = ground arith;
            rights_are = ground arith;
            token_nonzero = ground arith;
            stored = slot;
            stored_live = live;
            stored_token = token_is ∙ ground arith;
            stored_rights = rights_are;
            slots_are = ground arith;
          }

  attach_into-IsStored :
      (i : ℕ) (kind : BusKind) (init : List ℕ) (prefix : Option (List ℕ)) (rights : ℕ)
      (m : Machine rand.World) (cap : HsmCapability) (m' : Machine rand.World)
      → attach_into c rand i kind init prefix rights m ≡ (ok cap, m')
      → IsStored i rights m.slots cap m'.slots
  unfolding attach_into
  attach_into-IsStored i kind init prefix rights m cap m' h = go (rand.gen_token_u64 m.world) refl
    where
      go :
          (x : Result CapError ℕ × rand.World)
          → rand.gen_token_u64 m.world ≡ x
          → IsStored i rights m.slots cap m'.slots
      go (err e, w) at = absurd (ground arith)
      go (ok t, w) at =
          open_into-IsStored i t kind init prefix rights (record m { world = w }) cap m'
            (rand.token-ne-zero m.world t (ap (λ x. x.0) at)) (ground arith)

  pub attach-IsStored :
      (kind : BusKind) (init : List ℕ) (payload : Option (List ℕ)) (rights : ℕ)
      (m : Machine rand.World) (cap : HsmCapability) (m' : Machine rand.World)
      → attach c rand kind init payload rights m ≡ (ok cap, m')
      → (i : ℕ) × (find_empty 0 m.slots ≡ some i) × IsStored i rights m.slots cap m'.slots
  unfolding attach
  attach-IsStored kind init payload rights m cap m' h = gate (check_attest c m kind payload) refl
    where
      gate :
          (r : Result HsmCapError (Option (List ℕ)))
          → check_attest c m kind payload ≡ r
          → (i : ℕ) × (find_empty 0 m.slots ≡ some i) × IsStored i rights m.slots cap m'.slots
      gate (err e) g = absurd (ground arith)
      gate (ok prefix) g = elim (Option-cases (find_empty 0 m.slots)) [
        | inl f ↦ absurd (ground arith)
        | inr (i, f) ↦
            (i, f, attach_into-IsStored i kind init prefix rights m cap m' (ground arith))
      ]

  pub attach-IsAttested :
      (kind : BusKind) (init payload : List ℕ) (rights : ℕ) (m : Machine rand.World)
      (cap : HsmCapability) (m' : Machine rand.World)
      → attach c rand kind init (some payload) rights m ≡ (ok cap, m')
      → IsAttested m kind payload
  unfolding attach
  attach-IsAttested kind init payload rights m cap m' h =
      go (check_attest c m kind (some payload)) refl
    where
      go :
          (r : Result HsmCapError (Option (List ℕ)))
          → check_attest c m kind (some payload) ≡ r
          → IsAttested m kind payload
      go (err e) g = absurd (ground arith)
      go (ok prefix) g = check_attest-some m kind payload prefix g
